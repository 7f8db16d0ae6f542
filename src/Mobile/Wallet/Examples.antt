-- ===== src/Mobile/Wallet/Examples.antt =====
-- Tests of the wallet of a runner.
use mathlib.Core.List.{Perm}
use unity_runn.Prelude.{ℕ, String, none, some, [], ◌∷◌, ◌++◌, str_eq, ltb, if◌then◌else◌, ◌≡◌, refl}
use unity_runn.Prelude.Sorting.{sort_by}
use unity_runn.Mobile.Wallet.{
  WalletEntry, pending_status, confirmed_status, cancelled_status, expired_status, Wording,
  payment_strip, year_divider, ticket_stub, ledger_line, record_of, record_rows, due_entries,
  wallet_rows,
}
use unity_runn.Mobile.Wallet.Record.{entries_of, unexpired, wallet_rows-Perm}

abbrev place : String → ℕ
place at = if str_eq at "2025-05-01" then 1 else if str_eq at "2026-02-01" then 2 else 0

abbrev wording : Wording
wording = record {
  less = λ a b. ltb (place a) (place b);
  year = λ at. if str_eq at "2026-02-01" then 2026 else 2025;
  to_upper_case = λ t. t;
  member_since_label = λ t. t;
  decimal = λ n. "n";
}

abbrev spring : WalletEntry
spring = record {
  id = "r1";
  full_name = "Ana";
  status = confirmed_status;
  created_at = "2025-05-01";
  distance = some "10K";
  category_name = none;
}

abbrev winter : WalletEntry
winter = record spring { id = "r2"; status = cancelled_status; created_at = "2026-02-01" }

abbrev unpaid : WalletEntry
unpaid = record winter { id = "r3"; status = pending_status }

abbrev expired_entry : WalletEntry
expired_entry = record winter { id = "r4"; status = expired_status }

rows-by_year :
    wallet_rows wording (spring ∷ unpaid ∷ winter ∷ expired_entry ∷ [])
    ≡ payment_strip unpaid
      ∷ year_divider 2026
      ∷ ledger_line winter 1
      ∷ year_divider 2025
      ∷ ticket_stub spring 2
      ∷ []
unfolding wallet_rows record_of record_rows sort_by
rows-by_year = refl

wallet_rows-Perm_example :
    (entries_of (wallet_rows wording (spring ∷ expired_entry ∷ winter ∷ []))
      ≡ due_entries wording (spring ∷ expired_entry ∷ winter ∷ [])
        ++ record_of wording (spring ∷ expired_entry ∷ winter ∷ []))
    × Perm
        (entries_of (wallet_rows wording (spring ∷ expired_entry ∷ winter ∷ [])))
        (unexpired (spring ∷ expired_entry ∷ winter ∷ []))
wallet_rows-Perm_example = wallet_rows-Perm wording (spring ∷ expired_entry ∷ winter ∷ [])

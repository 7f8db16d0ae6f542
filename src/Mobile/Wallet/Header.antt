-- ===== src/Mobile/Wallet/Header.antt =====
-- mobile/features/registrations/WalletScreen.tsx: the newest and the oldest entry of a runner.
use unity_runn.Prelude.{String, List, Bool, true, false, any, str_eq, All, if◌then◌else◌, ◌⊎◌, ◌≡◌}
use unity_runn.Mobile.Wallet.{WalletEntry, Wording}

-- An entry with an id is in a list.
abbrev pub has_id : String → List WalletEntry → Bool
has_id id entries = any (λ e. str_eq e.id id) entries

module _ (j : Wording) where
  -- No entry of a list is newer than an entry.
  abbrev pub IsNewest : List WalletEntry → WalletEntry → Type 0
  IsNewest entries newest =
      (has_id newest.id entries ≡ true)
      × All (λ (e : WalletEntry). j.less newest.created_at e.created_at ≡ false) entries

  abbrev pub IsOldest : List WalletEntry → WalletEntry → Type 0
  IsOldest entries oldest =
      (has_id oldest.id entries ≡ true)
      × All (λ (e : WalletEntry). j.less e.created_at oldest.created_at ≡ false) entries

  abbrev newer : WalletEntry → WalletEntry → WalletEntry
  newer n e = if j.less n.created_at e.created_at then e else n

  abbrev older : WalletEntry → WalletEntry → WalletEntry
  older o e = if j.less e.created_at o.created_at then e else o

  abbrev Kept : (found start : WalletEntry) → List WalletEntry → Type 0
  Kept found start entries = (str_eq start.id found.id ≡ true) ⊎ (has_id found.id entries ≡ true)

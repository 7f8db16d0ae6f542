-- ===== src/Mobile/Wallet/Record.antt =====
-- mobile/features/registrations/WalletScreen.tsx: the rows of the wallet against the entries of the runner.
use mathlib.Core.List.{Perm, perm_middle}
use mathlib.Core.List.Perm
use unity_runn.Prelude.{
  ℕ, suc, Option, none, some, List, [], ◌∷◌, ◌++◌, Bool, true, false, not, ◌&&◌, keep, map, length,
  if◌then◌else◌, Bool-cases, inl, inr, ◌≡◌, refl, ap, ◌∙◌, arith,
}
use unity_runn.Prelude.Sorting.{sort_by-Perm}
use unity_runn.Mobile.Wallet.{
  EntryStatus, pending_status, confirmed_status, cancelled_status, refunded_status, WalletEntry,
  Wording, WalletRow, payment_strip, year_divider, ticket_stub, ledger_line, due_status,
  recorded_status, expired_status, record_of, row_of, record_rows, show_year_dividers, same_year,
  due_entries, wallet_rows,
}

-- The entries that rows show
abbrev pub entries_of : List WalletRow → List WalletEntry
entries_of [] = []
entries_of (payment_strip entry ∷ rows) = entry ∷ entries_of rows
entries_of (year_divider year ∷ rows) = entries_of rows
entries_of (ticket_stub entry index ∷ rows) = entry ∷ entries_of rows
entries_of (ledger_line entry index ∷ rows) = entry ∷ entries_of rows

-- The places that rows take
abbrev pub indices_of : List WalletRow → List ℕ
indices_of [] = []
indices_of (payment_strip entry ∷ rows) = indices_of rows
indices_of (year_divider year ∷ rows) = indices_of rows
indices_of (ticket_stub entry index ∷ rows) = index ∷ indices_of rows
indices_of (ledger_line entry index ∷ rows) = index ∷ indices_of rows

entries_of-due :
    (due : List WalletEntry) (rows : List WalletRow)
    → entries_of (map payment_strip due ++ rows) ≡ due ++ entries_of rows
entries_of-due [] rows = refl
entries_of-due (entry ∷ due) rows = ap (◌∷◌ entry) (entries_of-due due rows)

entries_of-row :
    (j : Wording) (entry : WalletEntry) (index : ℕ) (rows : List WalletRow)
    → entries_of (row_of j entry index ∷ rows) ≡ entry ∷ entries_of rows
entries_of-row j entry index rows = ground arith

entries_of-record :
    (j : Wording) (dividers : Bool) (previous : Option ℕ) (index : ℕ) (entries : List WalletEntry)
    → entries_of (record_rows j dividers previous index entries) ≡ entries
unfolding record_rows
entries_of-record j dividers previous index [] = refl
entries_of-record j dividers previous index (entry ∷ entries) =
    let y = j.year entry.created_at in
    let rest = record_rows j dividers (some y) (suc index) entries in
    let whole =
      entries_of-row j entry index rest
      ∙ ap (◌∷◌ entry) (entries_of-record j dividers (some y) (suc index) entries) in
    elim (Bool-cases (dividers && not (same_year j previous y))) [
      | inl h ↦ rw h whole
      | inr h ↦ rw h whole
    ]

abbrev pub is_expired : EntryStatus → Bool
is_expired expired_status = true
is_expired _ = false

-- The entries that have not expired
abbrev pub unexpired : List WalletEntry → List WalletEntry
unexpired entries = keep (λ entry. not (is_expired entry.status)) entries

abbrev due : List WalletEntry → List WalletEntry
due entries = keep (λ entry. due_status entry.status) entries

abbrev recorded : List WalletEntry → List WalletEntry
recorded entries = keep (λ entry. recorded_status entry.status) entries

split_status :
    (st : EntryStatus) (entry : WalletEntry) (ds rs us : List WalletEntry)
    → Perm (ds ++ rs) us
    → Perm
        ((if due_status st then entry ∷ ds else ds)
          ++ (if recorded_status st then entry ∷ rs else rs))
        (if not (is_expired st) then entry ∷ us else us)
split_status pending_status entry ds rs us h = Perm.cons entry h
split_status confirmed_status entry ds rs us h = Perm.trans (perm_middle ds rs) (Perm.cons entry h)
split_status cancelled_status entry ds rs us h = Perm.trans (perm_middle ds rs) (Perm.cons entry h)
split_status refunded_status entry ds rs us h = Perm.trans (perm_middle ds rs) (Perm.cons entry h)
split_status expired_status entry ds rs us h = h

due-recorded :
    (entries : List WalletEntry) → Perm (due entries ++ recorded entries) (unexpired entries)
due-recorded [] = Perm.rfl
due-recorded (entry ∷ entries) =
    split_status entry.status entry (due entries) (recorded entries) (unexpired entries)
      (due-recorded entries)

-- The rows of the wallet show the entries whose payment is due in their order, and then the confirmed, cancelled and
-- refunded ones as they are sorted, whatever dividers stand between them: every entry of the runner that has not
-- expired exactly once, and no entry that has expired.
pub wallet_rows-Perm :
    (j : Wording) (entries : List WalletEntry)
    → (entries_of (wallet_rows j entries) ≡ due_entries j entries ++ record_of j entries)
      × Perm (entries_of (wallet_rows j entries)) (unexpired entries)
unfolding wallet_rows record_of
wallet_rows-Perm j entries =
    let same =
      entries_of-due (due entries) _
      ∙ ap (◌++◌ (due entries)) (
          entries_of-record j (show_year_dividers j (record_of j entries)) none
            (length (due entries)) (record_of j entries)) in
    (
      same,
      rw same (
          Perm.trans (Perm.append_left (due entries) (sort_by-Perm _ (recorded entries)))
            (due-recorded entries)),
    )

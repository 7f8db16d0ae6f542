-- ===== src/Mobile/Wallet.antt =====
-- mobile/features/registrations/WalletScreen.tsx: the entries of a runner, as payments that are due and as a record by
-- year, and the line about the runner above them. The comparison of texts by `<`, the year of a time and the wording
-- are parameters.
pub mod Record
pub mod Header
mod Examples
use Prim.Native.String
use unity_runn.Prelude.{
  ℕ, suc, ◌+◌, String, Option, none, some, List, [], ◌∷◌, ◌++◌, Bool, true, false, not, ◌&&◌, ◌||◌,
  ◌==◌, ltb, truthy, str_eq, any, keep, length, map, if◌then◌else◌,
}
use unity_runn.Prelude.Sorting.{sort_by}

pub data EntryStatus : Type 0 where
  pending_status confirmed_status cancelled_status refunded_status expired_status : EntryStatus

pub record WalletEntry : Type 0 where
  pub id : String
  pub full_name : String
  pub status : EntryStatus
  pub created_at : String
  pub distance : Option String
  pub category_name : Option String

pub record Wording : Type 0 where
  -- `a < b`
  pub less : String → String → Bool
  -- `new Date(value).getFullYear()`
  pub year : String → ℕ
  pub to_upper_case : String → String
  pub member_since_label : String → String
  pub decimal : ℕ → String

abbrev pub due_status : EntryStatus → Bool
due_status pending_status = true
due_status _ = false

abbrev pub recorded_status : EntryStatus → Bool
recorded_status confirmed_status = true
recorded_status cancelled_status = true
recorded_status refunded_status = true
recorded_status _ = false

abbrev pub is_confirmed : WalletEntry → Bool
is_confirmed entry = elim entry.status [ confirmed_status ↦ true | _ ↦ false ]

abbrev non_empty : Option String → Option String
non_empty none = none
non_empty (some s) = if truthy s then some s else none

abbrev or_option : Option String → Option String → Option String
or_option none o = o
or_option (some s) o = some s

-- `entry.category?.distance || entry.category_name`, left out where it is empty
abbrev pub distance_of : WalletEntry → Option String
distance_of entry = or_option (non_empty entry.distance) (non_empty entry.category_name)

abbrev add_value : Option String → List String → List String
add_value none values = values
add_value (some v) values = if any (λ w. str_eq w v) values then values else v ∷ values

-- The values of a Set
abbrev pub distances : List WalletEntry → List String
distances [] = []
distances (entry ∷ entries) =
    let rest = distances entries in
    if is_confirmed entry then add_value (distance_of entry) rest else rest

pub record HeaderStats : Type 0 where
  pub headline_name : String
  pub member_since : String
  pub distances_raced_label : Option String

pub data WalletRow : Type 0 where
  payment_strip : WalletEntry → WalletRow
  year_divider : ℕ → WalletRow
  ticket_stub ledger_line : WalletEntry → (index : ℕ) → WalletRow

module _ (j : Wording) where
  -- The loop over the entries, with the newest and the oldest so far
  unfoldable pub extremes :
      List WalletEntry → (newest oldest : WalletEntry) → WalletEntry × WalletEntry
  extremes [] newest oldest = (newest, oldest)
  extremes (entry ∷ entries) newest oldest =
      extremes entries (if j.less newest.created_at entry.created_at then entry else newest)
        (if j.less entry.created_at oldest.created_at then entry else oldest)

  abbrev distances_label : ℕ → Option String
  distances_label n =
      if ltb 0 n
      then some (
          String.◌++◌ (j.decimal n)
            (String.◌++◌ " distance" (String.◌++◌ (if n == 1 then "" else "s") " raced")))
      else none

  abbrev pub header_of : (first : WalletEntry) → List WalletEntry → HeaderStats
  header_of first entries =
      let found = extremes entries first first in
      record {
        headline_name = j.to_upper_case found.0.full_name;
        member_since = j.member_since_label found.1.created_at;
        distances_raced_label = distances_label (length (distances entries));
      }

  unfoldable pub compute_wallet_header_stats : List WalletEntry → Option HeaderStats
  compute_wallet_header_stats [] = none
  compute_wallet_header_stats (entry ∷ entries) = some (header_of entry (entry ∷ entries))

  unfoldable pub record_of : List WalletEntry → List WalletEntry
  record_of entries =
      sort_by (λ (a b : WalletEntry). j.less a.created_at b.created_at)
        (keep (λ entry. recorded_status entry.status) entries)

  abbrev years : List WalletEntry → List ℕ
  years [] = []
  years (entry ∷ entries) =
      let rest = years entries in
      let y = j.year entry.created_at in if any (λ x. x == y) rest then rest else y ∷ rest

  abbrev pub show_year_dividers : List WalletEntry → Bool
  show_year_dividers entries = ltb 1 (length (years entries))

  abbrev pub row_of : WalletEntry → (index : ℕ) → WalletRow
  row_of entry index =
      if is_confirmed entry then ticket_stub entry index else ledger_line entry index

  abbrev pub same_year : Option ℕ → ℕ → Bool
  same_year none y = false
  same_year (some x) y = x == y

  -- The rows of the record, from an index on, after an entry of a year
  unfoldable pub record_rows :
      (dividers : Bool) → (previous : Option ℕ) → (index : ℕ) → List WalletEntry → List WalletRow
  record_rows dividers previous index [] = []
  record_rows dividers previous index (entry ∷ entries) =
      let y = j.year entry.created_at in
      let rest = row_of entry index ∷ record_rows dividers (some y) (suc index) entries in
      if dividers && not (same_year previous y) then year_divider y ∷ rest else rest

  abbrev pub due_entries : List WalletEntry → List WalletEntry
  due_entries entries = keep (λ entry. due_status entry.status) entries

  unfoldable pub wallet_rows : List WalletEntry → List WalletRow
  wallet_rows entries =
      let due = due_entries entries in
      let recorded = record_of entries in
      map payment_strip due ++ record_rows (show_year_dividers recorded) none (length due) recorded

-- ===== src/Web/Roster/Current.antt =====
-- frontend/src/pages/admin/registrations/index.tsx: answers to the calls for the list, and the filters on display.
use unity_runn.Prelude.{
  suc, Option, none, some, List, Bool, true, false, ◌==◌, ltb, All, if◌then◌else◌, ◌≡◌, refl, ◌⊎◌,
  inr, arith,
}
use unity_runn.Web.Roster.{Roster, Texts, ListCall, active_filters, SentCall, sent_by}

-- A handler begins a new run of the effect, or changes no filter.
abbrev Keeps : Texts → Roster → Roster → Type 0
Keeps j s t =
    (t.list_round ≡ suc s.list_round)
    ⊎ ((t.list_round ≡ s.list_round) × (active_filters j t ≡ active_filters j s))

same : (j : Texts) (s : Roster) → Keeps j s s
same j s = inr (refl, refl)

-- A call belongs to no later run than the last, and one of the last run carries the filters on display.
abbrev Fits : Texts → Roster → SentCall → Type 0
Fits j s call =
    (ltb s.list_round call.round ≡ false)
    × ((call.round == s.list_round) ≡ true → call.filters ≡ active_filters j s)

abbrev pub IsCurrent : Texts → List SentCall × Roster → Type 0
IsCurrent j (calls, s) = All (Fits j s) calls

started :
    (j : Texts) (b : Bool) (s : Roster) (calls : List SentCall) (t : Roster)
    → All (Fits j s) calls
    → let sent : Option ListCall × Roster =
        if b
        then (some (record { filters = active_filters j s; limit = 200; offset = 0 }), t)
        else (none, s) in
      All (Fits j s) (sent_by sent.0 s.list_round calls)
started j true s calls t h = ((ground arith, λ same_. refl), h)
started j false s calls t h = h

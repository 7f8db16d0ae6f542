-- ===== src/Web/Roster/Reviews.antt =====
-- frontend/src/pages/admin/registrations/index.tsx: the review of a payment.
use unity_runn.Prelude.{
  eq_same, eq_join, String, Option, none, some, List, [], ◌∷◌, Bool, str_eq, if◌then◌else◌, map,
  ◌≡◌, refl, ap, arith,
}
use unity_runn.Exec.{Result, ok, err}
use unity_runn.Web.Roster.{
  ReviewDecision, approve, reject, Registration, Roster, load_payment, start_review, end_review,
  replace_row, reviewing,
}

-- The first row with an id
abbrev pub find_row : String → List Registration → Option Registration
find_row id [] = none
find_row id (r ∷ rs) = if str_eq r.id id then some r else find_row id rs

abbrev put : Bool → Registration → Option Registration → Option Registration
put same updated none = none
put same updated (some r) = if same then some updated else some r

find_row-replace :
    (updated : Registration) (id : String) (rows : List Registration)
    → find_row id (map (replace_row updated) rows)
      ≡ put (str_eq updated.id id) updated (find_row id rows)
find_row-replace updated id [] = refl
find_row-replace updated id (r ∷ rs) =
    ground (
      arith,
      eq_same r.id updated.id id,
      eq_join r.id updated.id id,
      find_row-replace updated id rs,
    )

-- What an answer to a review leaves
abbrev pub Reviewed : Result Registration → Roster → Option String × Roster → Type 0
Reviewed (ok updated) s (call, t) =
    (t.selected_reg ≡ some updated)
    × ((id : String)
        → find_row id t.registrations
          ≡ put (str_eq updated.id id) updated (find_row id s.registrations))
    × (t.selected_payment ≡ none)
    × (call ≡ (if str_eq updated.status "PENDING" then some updated.id else none))
Reviewed (err e) s (call, t) =
    (t.selected_reg ≡ s.selected_reg)
    × (t.registrations ≡ s.registrations)
    × (t.selected_payment ≡ s.selected_payment)
    × (call ≡ none)

end_review-Reviewed :
    (decision : ReviewDecision) (r : Result Registration) (s : Roster)
    → Reviewed r s (end_review decision r s)
      × ((end_review decision r s).1.payment_reviewing ≡ none)
unfolding end_review load_payment
end_review-Reviewed approve (ok updated) s =
    ((refl, (λ id. find_row-replace updated id s.registrations), refl, refl), refl)
end_review-Reviewed reject (ok updated) s =
    ((refl, (λ id. find_row-replace updated id s.registrations), refl, refl), refl)
end_review-Reviewed decision (err e) s = ((refl, refl, refl, refl), refl)

start_review-open :
    (decision : ReviewDecision) (reg : Registration) (s : Roster)
    → s.selected_reg ≡ some reg
    → start_review decision s ≡ (some reg.id, record s { payment_reviewing = some decision })
unfolding start_review
start_review-open decision reg s open_ = ap (λ o. reviewing decision o s) open_

reviewing-Reviewed :
    (decision : ReviewDecision) (reg : Registration) (r : Result Registration) (s : Roster)
    → s.selected_reg ≡ some reg
    → Reviewed r s (end_review decision r (record s { payment_reviewing = some decision }))
reviewing-Reviewed decision reg (ok updated) s open_ =
    (end_review-Reviewed decision (ok updated) (record s { payment_reviewing = some decision })).0
reviewing-Reviewed decision reg (err e) s open_ =
    (end_review-Reviewed decision (err e) (record s { payment_reviewing = some decision })).0

-- A review of the payment of the registration that is open asks for this registration, and ends with no review
-- going on. When the service accepts it, the registration that it sent back is the one that is open and the one
-- that the table shows under its id, every other row stays as it was, and its payment is asked for once more if it
-- is still pending; on an error the rows, the registration and its payment stay.
pub start_review-ends :
    (decision : ReviewDecision) (reg : Registration) (r : Result Registration) (s : Roster)
    → s.selected_reg ≡ some reg
    → let sent = start_review decision s in
      (sent.0 ≡ some reg.id)
      × Reviewed r s (end_review decision r sent.1)
      × ((end_review decision r sent.1).1.payment_reviewing ≡ none)
start_review-ends decision reg r s open_ = rw (start_review-open decision reg s open_) (
  refl,
  reviewing-Reviewed decision reg r s open_,
  (end_review-Reviewed decision r (record s { payment_reviewing = some decision })).1,
)

-- ===== src/Mobile/Entries/Pages.antt =====
-- The list of events is fetched to its end.
use unity_runn.Prelude.{
  ℕ, zero, suc, ◌+◌, ◌<◌, ◌≡◌, ap, ◌∙◌, arith, some, List, [], ◌∷◌, Bool, true, false, is_some, not,
  inl, inr, Option-cases,
}
use unity_runn.Mobile.Entries.{EventPage, next_page, fetch_pages}

-- Whether the last page that was fetched has no next one
abbrev pub at_end : List EventPage → Bool
at_end [] = false
at_end (p ∷ []) = not (is_some (next_page p))
at_end (p ∷ q ∷ ps) = at_end (q ∷ ps)

at_end-cons : (p : EventPage) (ps : List EventPage) → at_end ps ≡ true → at_end (p ∷ ps) ≡ true
at_end-cons p [] h = ground arith
at_end-cons p (q ∷ ps) h = h

next_page-grows :
    (p : EventPage) (next : ℕ) → next_page p ≡ some next → (p.offset < next) × (next < p.total)
unfolding next_page
next_page-grows p next h = ground arith

fetch_pages-next :
    (service : ℕ → EventPage) (fuel offset next : ℕ)
    → next_page (service offset) ≡ some next
    → fetch_pages service (suc fuel) offset ≡ service offset ∷ fetch_pages service fuel next
unfolding fetch_pages
fetch_pages-next service fuel offset next e = ground (arith, e)

-- Where the service answers for the offset that was asked and keeps its total, the list is fetched to its
-- end: after one page more than there are events, at most, there is no next page.
pub fetch_pages-ends :
    (service : ℕ → EventPage) (total fuel offset : ℕ)
    → ((o : ℕ) → (service o).offset ≡ o)
    → ((o : ℕ) → (service o).total ≡ total)
    → total < offset + fuel
    → at_end (fetch_pages service (suc fuel) offset) ≡ true
unfolding fetch_pages
fetch_pages-ends service total zero offset here same enough =
    elim (Option-cases (next_page (service offset))) [
      | inl over ↦ ground (arith, over)
      | inr (next, e) ↦
          let (grows, below) = next_page-grows (service offset) next e in
          absurd (omega (arith, here offset, same offset))
    ]
fetch_pages-ends service total (suc fuel) offset here same enough =
    elim (Option-cases (next_page (service offset))) [
      | inl over ↦ ground (arith, over)
      | inr (next, e) ↦
          let (grows, below) = next_page-grows (service offset) next e in
          ap at_end (fetch_pages-next service (suc fuel) offset next e)
          ∙ (at_end-cons (service offset) (fetch_pages service (suc fuel) next)
              (fetch_pages-ends service total fuel next here same (omega (arith, here offset))))
    ]

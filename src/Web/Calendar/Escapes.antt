-- ===== src/Web/Calendar/Escapes.antt =====
-- frontend/src/lib/eventCalendar.ts: texts in a calendar against the rules of RFC 5545, section 3.3.11.
use unity_runn.Prelude.{
  ℕ, List, [], ◌∷◌, Bool, true, false, not, ◌&&◌, ◌||◌, ◌==◌, if◌then◌else◌, ◌≡◌, refl, ap, ◌∙◌,
  arith,
}
use unity_runn.Web.Calendar.{escape_all, starts_line, escape_newlines, escape_calendar_text}
use unity_runn.Web.Slug.Forms.{every}

-- The escaping of a text in one pass, each character once
unfoldable pub encode : List ℕ → List ℕ
encode [] = []
encode (c ∷ s) =
    let rest = encode s in
    if c == 10
    then 92 ∷ 110 ∷ rest
    else if c == 13 && starts_line s
    then rest
    else if c == 92 || (c == 44 || c == 59)
    then 92 ∷ c ∷ rest
    else c ∷ rest

-- What a reader makes of an escaped text; `marked` tells whether the character before is a backslash that
-- escapes.
unfoldable pub unescape : Bool → List ℕ → List ℕ
unescape marked [] = []
unescape true (c ∷ s) = (if c == 110 || c == 78 then 10 else c) ∷ unescape false s
unescape false (c ∷ s) = let rest = unescape (c == 92) s in if c == 92 then rest else c ∷ rest

-- A text with one line feed for each end of a line
unfoldable pub with_line_feeds : List ℕ → List ℕ
with_line_feeds [] = []
with_line_feeds (c ∷ s) =
    let rest = with_line_feeds s in if c == 13 && starts_line s then rest else c ∷ rest

starts_line-escape_all : (s : List ℕ) → starts_line (escape_all 92 s) ≡ starts_line s
unfolding escape_all
starts_line-escape_all [] = refl
starts_line-escape_all (c ∷ s) = ground arith

pub escape_calendar_text-encode : (s : List ℕ) → escape_calendar_text s ≡ encode s
unfolding escape_calendar_text escape_all escape_newlines encode
escape_calendar_text-encode [] = refl
escape_calendar_text-encode (c ∷ s) =
    ground (arith, escape_calendar_text-encode s, starts_line-escape_all s)

unescape-encode : (s : List ℕ) → unescape false (encode s) ≡ with_line_feeds s
unfolding unescape encode with_line_feeds
unescape-encode [] = refl
unescape-encode (c ∷ s) = ground (arith, unescape-encode s)

-- A reader who follows the rules gets back from an escaped text the text itself, with one line feed for each end
-- of a line.
pub unescape-escape_calendar_text :
    (s : List ℕ) → unescape false (escape_calendar_text s) ≡ with_line_feeds s
unescape-escape_calendar_text s =
    ap (unescape false) (escape_calendar_text-encode s) ∙ unescape-encode s

encode-every : (s : List ℕ) → every (λ c. not (c == 10)) (encode s) ≡ true
unfolding encode
encode-every [] = refl
encode-every (c ∷ s) = ground (arith, encode-every s)

pub escape_calendar_text-every :
    (s : List ℕ) → every (λ c. not (c == 10)) (escape_calendar_text s) ≡ true
escape_calendar_text-every s =
    ap (every (λ c. not (c == 10))) (escape_calendar_text-encode s) ∙ encode-every s

-- ===== src/Mobile/LiveActivity/Content/Laws.antt =====
-- Patches of the content of a live activity.
use unity_runn.Prelude.{ℕ, ◌≡◌, is_some, arith}
use unity_runn.Mobile.LiveActivity.Content.{
  StartInput, UpdateInput, Props, patch?, initial_content, updated_content,
}

-- One patch with the effect of two: what the second one does not give is taken from the first.
abbrev pub merged : UpdateInput → UpdateInput → UpdateInput
merged first second = record {
  race_status = patch? second.race_status first.race_status;
  distance_km = patch? second.distance_km first.distance_km;
  elapsed_seconds = patch? second.elapsed_seconds first.elapsed_seconds;
  pace = patch? second.pace first.pace;
  finish_time = patch? second.finish_time first.finish_time;
}

-- Two patches at one time have the effect of the merged patch.
pub updated_content-merged :
    (c : Props) (p q : UpdateInput) (now : ℕ)
    → updated_content (updated_content c p now) q now ≡ updated_content c (merged p q) now
unfolding updated_content
updated_content-merged c p q now = ground arith

-- A content has a start of its clock exactly if it has elapsed seconds.
abbrev pub IsTimed : Props → Type 0
IsTimed c = is_some c.elapsed_started_at ≡ is_some c.elapsed_seconds

pub initial_content-IsTimed : (i : StartInput) (now : ℕ) → IsTimed (initial_content i now)
unfolding initial_content
initial_content-IsTimed i now = ground arith

-- A patch of a content that has a start of its clock exactly if it has elapsed seconds gives another such
-- content.
pub updated_content-IsTimed :
    (c : Props) (p : UpdateInput) (now : ℕ) → IsTimed c → IsTimed (updated_content c p now)
unfolding updated_content
updated_content-IsTimed c p now h = ground arith

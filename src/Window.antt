-- ===== src/Window.antt =====
-- class TimeWindow of src/optimizer/solver/models.py. Bounds are seconds from midnight.
mod Tests
mod Sorting
pub mod Earliest
use travel_llm_planner.Common.{
  ℕ, ◌+◌, ◌≤◌, max, ltb, leb, ◌==◌, Bool, ◌&&◌, ◌||◌, Option, none, some, List, [], ◌∷◌,
  if◌then◌else◌, last_or, All, arith,
}

pub record Segment : Type 0 where
  pub open_s : ℕ
  pub close_s : ℕ

-- `_segments`
pub record TimeWindow : Type 0 where
  pub segments : List Segment

-- The order of pairs.
abbrev pub segment_le : Segment → Segment → Bool
segment_le a b = ltb a.open_s b.open_s || (a.open_s == b.open_s && leb a.close_s b.close_s)

unfoldable pub insert_segment : Segment → List Segment → List Segment
insert_segment s [] = s ∷ []
insert_segment s (t ∷ ts) = if segment_le s t then s ∷ t ∷ ts else t ∷ insert_segment s ts

-- `sorted(segments)`. The sort is stable, and segments that compare equal are equal.
unfoldable pub sort_segments : List Segment → List Segment
unfolding insert_segment
sort_segments [] = []
sort_segments (s ∷ ss) = insert_segment s (sort_segments ss)

-- `TimeWindow(open_s, close_s)`
unfoldable pub single : ℕ → ℕ → TimeWindow
single open_s close_s = record { segments = record { open_s = open_s; close_s = close_s } ∷ [] }

unfoldable pub from_segments : List Segment → TimeWindow
unfolding sort_segments
from_segments segments = record { segments = sort_segments segments }

abbrev no_segment : Segment
no_segment = record { open_s = 0; close_s = 0 }

-- The end of the last segment. Every window that the program builds has one.
unfoldable pub close_s : TimeWindow → ℕ
close_s w = (last_or no_segment w.segments).close_s

unfoldable pub earliest_in : List Segment → ℕ → ℕ → Option ℕ
earliest_in [] arrival_s visit_s = none
earliest_in (seg ∷ rest) arrival_s visit_s =
    let start = max arrival_s seg.open_s in
    if leb (start + visit_s) seg.close_s then some start else earliest_in rest arrival_s visit_s

unfoldable pub earliest_start : TimeWindow → ℕ → ℕ → Option ℕ
unfolding earliest_in
earliest_start w arrival_s visit_s = earliest_in w.segments arrival_s visit_s

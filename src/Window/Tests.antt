-- ===== src/Window/Tests.antt =====
-- A place with a lunch break, and a visit that has to wait for the afternoon.
use travel_llm_planner.Common.{◌≡◌, refl, ℕ, some, none, List, [], ◌∷◌, ◌⊎◌, ◌≤◌}
use travel_llm_planner.Window.{Segment, from_segments, earliest_start, close_s}
use travel_llm_planner.Window.Earliest.{Fits, IsEarliest, earliest_start-from_segments}

abbrev segment : ℕ → ℕ → Segment
segment o c = record { open_s = o; close_s = c }

abbrev lunch_break : List Segment
lunch_break = segment 46800 64800 ∷ segment 32400 43200 ∷ []

waits_for_afternoon : earliest_start (from_segments lunch_break) 41000 3600 ≡ some 46800
unfolding earliest_start from_segments
waits_for_afternoon = refl

too_late : earliest_start (from_segments lunch_break) 64000 3600 ≡ none
unfolding earliest_start from_segments
too_late = refl

deadline : close_s (from_segments lunch_break) ≡ 64800
unfolding close_s from_segments
deadline = refl

earliest_start-from_segments_example :
    ((s : ℕ) × (earliest_start (from_segments lunch_break) 41000 3600 ≡ some s)
      × IsEarliest lunch_break 41000 3600 s)
    ⊎ (earliest_start (from_segments lunch_break) 41000 3600 ≡ none)
      × ((t : ℕ) → 41000 ≤ t → ¬ Fits lunch_break 3600 t)
earliest_start-from_segments_example = earliest_start-from_segments lunch_break 41000 3600

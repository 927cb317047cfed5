-- ===== src/Hours.antt =====
-- `_parse_time_window` of src/optimizer/solver/service.py: the window of a place on a day, from the
-- preferred hours and the opening hours of the place's document.
pub mod Segments
pub mod Allowed
mod Tests
use travel_llm_planner.Common.{
  ℕ, ◌+◌, ◌*◌, min, max, ltb, leb, ◌==◌, not, Bool, true, false, Option, none, some, or_else, List,
  [], ◌∷◌, if◌then◌else◌,
}
use travel_llm_planner.Window.{Segment, TimeWindow, single, from_segments}

-- A day of the week and a time, any of which the document may leave out.
pub record PeriodTime : Type 0 where
  pub day : Option ℕ
  pub hour : Option ℕ
  pub minute : Option ℕ

-- A period without `open` is one whose opening has no day.
pub record Period : Type 0 where
  pub opening : PeriodTime
  pub closing : Option PeriodTime

-- What the function reads of a place's document.
pub record PlaceHours : Type 0 where
  pub preferred_hour_from : Option ℕ
  pub preferred_hour_to : Option ℕ
  pub periods : List Period

abbrev pub time_s : PeriodTime → ℕ
time_s t = or_else t.hour 0 * 3600 + or_else t.minute 0 * 60

abbrev pub hour_or : Option ℕ → ℕ → ℕ
hour_or none bound = bound
hour_or (some hour) bound = hour * 3600

abbrev pub is_on : ℕ → Option ℕ → Bool
is_on weekday none = false
is_on weekday (some day) = day == weekday

-- Both days are given and differ.
abbrev pub is_past_midnight : Option ℕ → Option ℕ → Bool
is_past_midnight (some open_day) (some close_day) = not (close_day == open_day)
is_past_midnight (some open_day) none = false
is_past_midnight none close_day = false

-- A closing past midnight is taken as the end of the day.
abbrev pub closes_s : PeriodTime → PeriodTime → ℕ
closes_s opening closing =
    if is_past_midnight opening.day closing.day then 24 * 3600 else time_s closing

abbrev pub close_bound : ℕ → PeriodTime → Option PeriodTime → ℕ
close_bound close_s opening none = close_s
close_bound close_s opening (some closing) = min close_s (closes_s opening closing)

abbrev pub seg_close : ℕ → Period → ℕ
seg_close close_s p = close_bound close_s p.opening p.closing

unfoldable pub on_day : ℕ → List Period → List Period
on_day weekday [] = []
on_day weekday (p ∷ ps) =
    let rest = on_day weekday ps in if is_on weekday p.opening.day then p ∷ rest else rest

-- The loop over the day's periods.
unfoldable pub day_segments : ℕ → ℕ → List Period → List Segment
day_segments open_s close_s [] = []
day_segments open_s close_s (p ∷ ps) =
    let rest = day_segments open_s close_s ps in
    if ltb (max open_s (time_s p.opening)) (seg_close close_s p)
    then record { open_s = max open_s (time_s p.opening); close_s = seg_close close_s p } ∷ rest
    else rest

unfoldable pub window_of : List Segment → Option TimeWindow
window_of [] = none
window_of (s ∷ ss) = some (from_segments (s ∷ ss))

unfoldable pub preferred_window : ℕ → ℕ → Option TimeWindow
preferred_window open_s close_s = if leb close_s open_s then none else some (single open_s close_s)

unfoldable pub parse_time_window : PlaceHours → ℕ → ℕ → Option ℕ → Option TimeWindow
unfolding on_day day_segments window_of preferred_window
parse_time_window doc day_start_s day_end_s google_weekday =
    let open_s = hour_or doc.preferred_hour_from day_start_s in
    let close_s = hour_or doc.preferred_hour_to day_end_s in
    elim google_weekday [
      | none ↦ preferred_window open_s close_s
      | some weekday ↦ elim doc.periods [
        | [] ↦ preferred_window open_s close_s
        | p ∷ ps ↦ window_of (day_segments open_s close_s (on_day weekday (p ∷ ps)))
      ]
    ]

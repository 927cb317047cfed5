-- ===== src/Clock.antt =====
-- Wall-clock times and day bounds: `resolve_day_bound_s` and `seconds_to_time` of
-- src/optimizer/solver/models.py. A `datetime.time` without a zone, as `NaiveTime` of
-- src/time_validation.py has it.
mod Tests
pub mod RoundTrip
use travel_llm_planner.Common.{ℕ, ◌+◌, ◌*◌, ◌/◌, ◌%◌, ◌≤◌, ◌<◌, Option, none, some}

pub record Time : Type 0 where
  pub hour : ℕ
  pub minute : ℕ
  pub second : ℕ
  pub microsecond : ℕ

-- The range that the constructor of `datetime.time` enforces.
pub record IsTime (t : Time) : Type 0 where
  pub hours : t.hour < 24
  pub minutes : t.minute < 60
  pub seconds : t.second < 60
  pub microseconds : t.microsecond < 1_000_000

-- Whole seconds; what is left of the time is lost.
abbrev pub since_midnight : Time → ℕ
since_midnight t = t.hour * 3600 + t.minute * 60 + t.second

-- By which times are compared.
abbrev pub micros : Time → ℕ
micros t = since_midnight t * 1_000_000 + t.microsecond

-- An explicit time wins over the hour.
unfoldable pub resolve_day_bound_s : ℕ → Option Time → ℕ
resolve_day_bound_s hour none = hour * 3600
resolve_day_bound_s hour (some t) = t.hour * 3600 + t.minute * 60 + t.second

unfoldable pub seconds_to_time : ℕ → Time
seconds_to_time s = record {
  hour = (s / 3600) % 24;
  minute = (s % 3600) / 60;
  second = (s % 3600) % 60;
  microsecond = 0;
}

-- ===== src/Clock/RoundTrip.antt =====
-- Seconds to a time and back.
use travel_llm_planner.Common.{ℕ, ◌+◌, ◌*◌, ◌/◌, ◌%◌, ◌<◌, ◌≤◌, suc, ◌≡◌, some, arith}
use travel_llm_planner.Clock.{micros, Time, IsTime, resolve_day_bound_s, seconds_to_time}

seconds_to_time-IsTime : (s : ℕ) → IsTime (seconds_to_time s)
unfolding seconds_to_time
seconds_to_time-IsTime s = record {
  hours = omega arith;
  minutes = omega arith;
  seconds = omega arith;
  microseconds = omega arith;
}

-- Reading `seconds_to_time s` back as a day bound gives `s` reduced to one day, whatever the hour
-- beside it says, and the time is a valid one.
pub resolve-seconds_to_time :
    (hour s : ℕ)
    → (resolve_day_bound_s hour (some (seconds_to_time s)) ≡ s % 86400) × IsTime (seconds_to_time s)
unfolding resolve_day_bound_s seconds_to_time
resolve-seconds_to_time hour s = (omega arith, seconds_to_time-IsTime s)

-- The way of a valid time to seconds and back cuts off its microseconds and nothing else; its seconds
-- stay within the day, and are the last full second that is not after the time.
pub seconds_to_time-resolve :
    (hour : ℕ) (t : Time)
    → IsTime t
    → (seconds_to_time (resolve_day_bound_s hour (some t)) ≡ record t { microsecond = 0 })
      × (resolve_day_bound_s hour (some t) < 86400)
      × (resolve_day_bound_s hour (some t) * 1_000_000 ≤ micros t)
      × (micros t < suc (resolve_day_bound_s hour (some t)) * 1_000_000)
unfolding resolve_day_bound_s seconds_to_time
seconds_to_time-resolve hour t v = (
  λ i. record { hour = h i; minute = m i; second = s i; microsecond = 0 },
  omega arith,
  omega arith,
  omega arith,
)
  where
    h : ((t.hour * 3600 + t.minute * 60 + t.second) / 3600) % 24 ≡ t.hour
    h = omega arith

    m : ((t.hour * 3600 + t.minute * 60 + t.second) % 3600) / 60 ≡ t.minute
    m = omega arith

    s : ((t.hour * 3600 + t.minute * 60 + t.second) % 3600) % 60 ≡ t.second
    s = omega arith

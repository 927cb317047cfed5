-- ===== src/Clock/Tests.antt =====
-- The clock functions at concrete inputs.
use travel_llm_planner.Common.{◌≡◌, refl, ◌<◌, ◌≤◌, ◌*◌, suc, some, none, arith}
use travel_llm_planner.Clock.{micros, Time, IsTime, resolve_day_bound_s, seconds_to_time}
use travel_llm_planner.Clock.RoundTrip.{resolve-seconds_to_time, seconds_to_time-resolve}

abbrev half_past_nine : Time
half_past_nine = record { hour = 9; minute = 30; second = 15; microsecond = 500_000 }

midnight_wraps :
    seconds_to_time 86400 ≡ record { hour = 0; minute = 0; second = 0; microsecond = 0 }
unfolding seconds_to_time
midnight_wraps = refl

hour_only : resolve_day_bound_s 9 none ≡ 32400
unfolding resolve_day_bound_s
hour_only = refl

resolve-seconds_to_time_example :
    (resolve_day_bound_s 9 (some (seconds_to_time 86461)) ≡ 61) × IsTime (seconds_to_time 86461)
resolve-seconds_to_time_example = resolve-seconds_to_time 9 86461

seconds_to_time-resolve_example :
    (seconds_to_time (resolve_day_bound_s 0 (some half_past_nine))
      ≡ record half_past_nine { microsecond = 0 })
    × (resolve_day_bound_s 0 (some half_past_nine) < 86400)
    × (resolve_day_bound_s 0 (some half_past_nine) * 1_000_000 ≤ micros half_past_nine)
    × (micros half_past_nine < suc (resolve_day_bound_s 0 (some half_past_nine)) * 1_000_000)
seconds_to_time-resolve_example = seconds_to_time-resolve 0 half_past_nine (omega arith)

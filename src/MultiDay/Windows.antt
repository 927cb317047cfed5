-- ===== src/MultiDay/Windows.antt =====
-- The windows of a transition day, the requests that are made of them, and their budgets.
use travel_llm_planner.Common.{
  ℕ, suc, ◌+◌, ◌-◌, ◌*◌, ◌≤◌, ◌<◌, ◌≡◌, ◌∙◌, inl, inr, true, Option, none, some, arith, leb,
  Bool-cases,
}
use travel_llm_planner.Clock.{Time, IsTime, resolve_day_bound_s, since_midnight}
use travel_llm_planner.Clock.RoundTrip.{resolve-seconds_to_time}
use travel_llm_planner.Accommodations.{AccommodationStay}
use travel_llm_planner.Planner.{TransferBlock, DayConfig, validate_transfer}
use travel_llm_planner.MultiDay.{
  TransitionDayContext, transition_day_context, bound_or, build_transfer_segment,
  resolve_segment_end_bound_fields,
}

-- The time of an optional bound, if there is one, comes after `s`.
abbrev pub NotBefore : Option Time → ℕ → Type 0
NotBefore none s = Unit {0}
NotBefore (some t) s = since_midnight t ≤ s

abbrev pub NotAfter : Option Time → ℕ → Type 0
NotAfter none s = Unit {0}
NotAfter (some t) s = s ≤ since_midnight t

-- What the windows of a transition day keep to, to the second.
pub record IsInside (cfg : DayConfig) (ctx : TransitionDayContext) : Type 0 where
  pub leaves_in_time : ctx.pre_end_s ≤ since_midnight ctx.transfer.departure_time
  pub leaves_by_check_out : NotAfter ctx.origin.check_out_by ctx.pre_end_s
  pub starts_after_arrival : since_midnight ctx.transfer.arrival_time ≤ ctx.post_start_s
  pub starts_after_check_in : NotBefore ctx.destination.check_in_from ctx.post_start_s
  pub inside_day :
      (resolve_day_bound_s cfg.day_start_hour cfg.day_start_time ≤ ctx.pre_start_s)
      × (resolve_day_bound_s cfg.day_start_hour cfg.day_start_time ≤ ctx.post_start_s)
      × (ctx.pre_end_s ≤ resolve_day_bound_s cfg.day_end_hour cfg.day_end_time)
      × (ctx.post_end_s ≤ resolve_day_bound_s cfg.day_end_hour cfg.day_end_time)
  -- The whole minutes of a window, none where it is empty.
  pub pre_budget :
      (ctx.pre_visit_budget_min * 60 ≤ ctx.pre_end_s - ctx.pre_start_s)
      × (ctx.pre_end_s - ctx.pre_start_s < suc ctx.pre_visit_budget_min * 60)
  pub post_budget :
      (ctx.post_visit_budget_min * 60 ≤ ctx.post_end_s - ctx.post_start_s)
      × (ctx.post_end_s - ctx.post_start_s < suc ctx.post_visit_budget_min * 60)

-- The windows also stand on both sides of the transfer, and its duration leads over it.
pub record IsWithin (cfg : DayConfig) (ctx : TransitionDayContext) : Type 0 where
  pub inside : IsInside cfg ctx
  pub apart : ctx.pre_end_s ≤ ctx.post_start_s
  pub apart_by_seconds :
      since_midnight ctx.transfer.departure_time < since_midnight ctx.transfer.arrival_time
      → ctx.pre_end_s < ctx.post_start_s
  pub travel :
      (build_transfer_segment ctx).duration_s + since_midnight ctx.transfer.departure_time
      ≡ since_midnight ctx.transfer.arrival_time

bound_or-NotAfter :
    (bound : Option Time) (default_s s : ℕ) → s ≤ bound_or bound default_s → NotAfter bound s
unfolding bound_or resolve_day_bound_s
bound_or-NotAfter none default_s s le = tt
bound_or-NotAfter (some t) default_s s le = le

bound_or-NotBefore :
    (bound : Option Time) (default_s s : ℕ) → bound_or bound default_s ≤ s → NotBefore bound s
unfolding bound_or resolve_day_bound_s
bound_or-NotBefore none default_s s le = tt
bound_or-NotBefore (some t) default_s s le = le

later :
    (t : TransferBlock)
    → IsTime t.arrival_time
    → validate_transfer t ≡ true
    → since_midnight t.departure_time ≤ since_midnight t.arrival_time
unfolding validate_transfer
later t is_time valid = let sub_second = is_time.microseconds in ground arith

pub transition_day_context-IsInside :
    (transfer : TransferBlock) (origin destination : AccommodationStay) (cfg : DayConfig)
    → IsInside cfg (transition_day_context transfer origin destination cfg)
unfolding transition_day_context resolve_day_bound_s
transition_day_context-IsInside transfer origin destination cfg = record {
  leaves_in_time = omega arith;
  leaves_by_check_out =
      bound_or-NotAfter origin.check_out_by (resolve_day_bound_s 0 (some transfer.departure_time))
        (transition_day_context transfer origin destination cfg).pre_end_s (omega arith);
  starts_after_arrival = omega arith;
  starts_after_check_in =
      bound_or-NotBefore destination.check_in_from
        (resolve_day_bound_s cfg.day_start_hour cfg.day_start_time)
        (transition_day_context transfer origin destination cfg).post_start_s (omega arith);
  inside_day = (omega arith, omega arith, omega arith, omega arith);
  pre_budget = (omega arith, omega arith);
  post_budget = (omega arith, omega arith);
}

-- Take a transfer that its validator accepts and whose arrival is a time of day. Bounds are whole
-- seconds, so that a time stands for its second. The window before the transfer ends no later than
-- the departure, the end of the day and the check-out time, if one is given; the window after it
-- starts no earlier than the second of the arrival, the start of the day and the second of the
-- check-in time, if one is given, and ends no later than the day. The first window ends no later than
-- the second starts, and before it if the departure is in an earlier second than the arrival. Each
-- budget is the whole minutes of its window, 0 where that is empty, and the transfer's duration leads
-- from the second of the departure to that of the arrival.
pub transition_day_context-IsWithin :
    (transfer : TransferBlock) (origin destination : AccommodationStay) (cfg : DayConfig)
    → IsTime transfer.arrival_time
    → validate_transfer transfer ≡ true
    → IsWithin cfg (transition_day_context transfer origin destination cfg)
unfolding transition_day_context build_transfer_segment resolve_day_bound_s
transition_day_context-IsWithin transfer origin destination cfg is_time valid =
    let order = later transfer is_time valid in
    record {
      inside = transition_day_context-IsInside transfer origin destination cfg;
      apart = omega arith;
      apart_by_seconds = λ earlier. omega arith;
      travel = omega arith;
    }

-- An end bound up to midnight survives the way through the hour and time of a request's end.
pub resolve_segment_end_bound_fields-resolve :
    (end_s : ℕ)
    → end_s ≤ 86400
    → resolve_day_bound_s
        (resolve_segment_end_bound_fields end_s).0
        (resolve_segment_end_bound_fields end_s).1
      ≡ end_s
unfolding resolve_segment_end_bound_fields resolve_day_bound_s
resolve_segment_end_bound_fields-resolve end_s le = elim (Bool-cases (leb (24 * 3600) end_s)) [
  | inl whole ↦ rw (whole, resolve_segment_end_bound_fields) (ground arith)
  | inr part ↦
      let (back, valid) = resolve-seconds_to_time 23 end_s in
      let lt : end_s < 86400 = ground arith in
      rw (part, resolve_segment_end_bound_fields) (back ∙ omega arith)
]

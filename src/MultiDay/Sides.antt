-- ===== src/MultiDay/Sides.antt =====
-- The requests that a trip makes of its days are accepted.
use travel_llm_planner.Common.{
  ℕ, ◌*◌, ◌%◌, ◌≤◌, ◌<◌, ◌≡◌, refl, ◌∙◌, inl, inr, Bool, true, false, ◌&&◌, Option, none, some,
  String, List, length, arith, leb, ltb, ◌==◌, Bool-cases, &&-eq-true, le→leb, leb→le,
}
use travel_llm_planner.Clock.{
  Time, IsTime, resolve_day_bound_s, seconds_to_time, since_midnight, micros,
}
use travel_llm_planner.Clock.RoundTrip.{resolve-seconds_to_time}
use travel_llm_planner.Accommodations.{AccommodationStay, DayAccommodationAnchors}
use travel_llm_planner.Planner.{
  DayConfig, MultiDayRequest, validate_day, validate_day_range, validate_day_end_time_semantics,
  both_or_neither,
}
use travel_llm_planner.Service.{OptimizeRequest, validate_optimize_request, end_time_is_sound}
use travel_llm_planner.MultiDay.{TransitionDayContext, resolve_segment_end_bound_fields}
use travel_llm_planner.MultiDay.Windows.{IsInside, resolve_segment_end_bound_fields-resolve}
use travel_llm_planner.MultiDay.Requests.{pre_request, post_request, day_request, first_given}

-- The times of a day, as `datetime.time` holds them.
abbrev pub IsBound : Option Time → Type 0
IsBound none = Unit {0}
IsBound (some t) = IsTime t

-- A day that its validators accept.
pub record IsDay (cfg : DayConfig) : Type 0 where
  pub valid : validate_day cfg ≡ true
  pub starts : IsBound cfg.day_start_time
  pub ends : IsBound cfg.day_end_time

-- Conjunctions, taken apart and put together.
record DayFacts (cfg : DayConfig) : Type 0 where
  start_hour : leb cfg.day_start_hour 23 ≡ true
  end_hour_low : leb 1 cfg.day_end_hour ≡ true
  end_hour_high : leb cfg.day_end_hour 24 ≡ true
  end_time : end_time_is_sound cfg.day_end_hour cfg.day_end_time ≡ true
  range :
      ltb
        (resolve_day_bound_s cfg.day_start_hour cfg.day_start_time)
        (resolve_day_bound_s cfg.day_end_hour cfg.day_end_time)
      ≡ true
  start_place : both_or_neither cfg.start_lat cfg.start_lng ≡ true
  end_place : both_or_neither cfg.end_lat cfg.end_lng ≡ true

same_semantics :
    (hour : ℕ) (t : Option Time) → end_time_is_sound hour t ≡ validate_day_end_time_semantics hour t
unfolding end_time_is_sound validate_day_end_time_semantics
same_semantics hour none = refl
same_semantics hour (some t) = refl

validate_day-DayFacts : (cfg : DayConfig) → validate_day cfg ≡ true → DayFacts cfg
unfolding validate_day validate_day_range
validate_day-DayFacts cfg h =
    let (h₆, g) = &&-eq-true _ _ h in
    let (h₅, f) = &&-eq-true _ _ h₆ in
    let (h₄, e) = &&-eq-true _ _ h₅ in
    let (h₃, d) = &&-eq-true _ _ h₄ in
    let (h₂, c) = &&-eq-true _ _ h₃ in
    let (a, b) = &&-eq-true _ _ h₂ in
    record {
      start_hour = a;
      end_hour_low = b;
      end_hour_high = c;
      end_time = same_semantics cfg.day_end_hour cfg.day_end_time ∙ d;
      range = e;
      start_place = f;
      end_place = g;
    }

lt→ltb : (a b : ℕ) → a < b → ltb a b ≡ true
lt→ltb a b h = ground arith

ltb→lt : (a b : ℕ) → ltb a b ≡ true → a < b
ltb→lt a b h = ground arith

&&-intro : (a b : Bool) → a ≡ true → b ≡ true → (a && b) ≡ true
&&-intro a b h k = rw (h, k) refl

-- What makes a request of a day's own hours acceptable.
accepts :
    (r : OptimizeRequest)
    → 1 ≤ length r.place_ids
    → length r.place_ids ≤ 50
    → leb r.day_start_hour 23 ≡ true
    → leb 1 r.day_end_hour ≡ true
    → leb r.day_end_hour 24 ≡ true
    → end_time_is_sound r.day_end_hour r.day_end_time ≡ true
    → resolve_day_bound_s r.day_start_hour r.day_start_time
      < resolve_day_bound_s r.day_end_hour r.day_end_time
    → both_or_neither r.start_lat r.start_lng ≡ true
    → both_or_neither r.end_lat r.end_lng ≡ true
    → validate_optimize_request r ≡ true
unfolding validate_optimize_request
accepts r some_place few a b c d lt e f =
    &&-intro _ _
      (&&-intro _ _
        (&&-intro _ _
          (&&-intro _ _
            (&&-intro _ _
              (&&-intro _ _ (&&-intro _ _ (&&-intro _ _ (le→leb _ _ some_place) (le→leb _ _ few)) a)
                b)
              c)
            d)
          (lt→ltb _ _ lt))
        e)
      f

day_bound-le :
    (hour : ℕ) (t : Option Time)
    → leb hour 24 ≡ true
    → IsBound t
    → resolve_day_bound_s hour t ≤ 86400
unfolding resolve_day_bound_s
day_bound-le hour none h b = let le = leb→le hour 24 h in omega arith
day_bound-le hour (some t) h b =
    let x = b.hours in let y = b.minutes in let z = b.seconds in omega arith

fields_sound :
    (end_s : ℕ)
    → 1 ≤ end_s
    → end_s ≤ 86400
    → (leb 1 (resolve_segment_end_bound_fields end_s).0 ≡ true)
      × (leb (resolve_segment_end_bound_fields end_s).0 24 ≡ true)
      × (end_time_is_sound
            (resolve_segment_end_bound_fields end_s).0
            (resolve_segment_end_bound_fields end_s).1
          ≡ true)
unfolding resolve_segment_end_bound_fields end_time_is_sound resolve_day_bound_s
fields_sound end_s pos le = elim (Bool-cases (leb (24 * 3600) end_s)) [
  | inl whole ↦ rw (whole, resolve_segment_end_bound_fields) (refl, refl, refl)
  | inr part ↦
      let (back, valid) = resolve-seconds_to_time 23 end_s in
      let lt : end_s < 86400 = ground arith in
      let positive : (micros (seconds_to_time end_s) == 0) ≡ false =
        let k : since_midnight (seconds_to_time end_s) ≡ end_s % 86400 = back in ground arith in
      rw (part, resolve_segment_end_bound_fields) (refl, refl, rw positive refl)
]

module _ (request : MultiDayRequest) (cfg : DayConfig) (day : IsDay cfg) where
  abbrev day_opens : ℕ
  day_opens = resolve_day_bound_s cfg.day_start_hour cfg.day_start_time

  abbrev day_closes : ℕ
  day_closes = resolve_day_bound_s cfg.day_end_hour cfg.day_end_time

  module _ (ctx : TransitionDayContext) (within : IsInside cfg ctx) (pids : List String)
      (some_place : 1 ≤ length pids) (few : length pids ≤ 50) where
    -- For a valid day with times of day as bounds and a context that keeps to the day, the request for
    -- the side before the transfer is accepted where that side has a budget and 1 to 50 places.
    pub pre_request-accepted :
        1 ≤ ctx.pre_visit_budget_min
        → validate_optimize_request (pre_request request cfg ctx pids) ≡ true
    unfolding pre_request
    pre_request-accepted budget =
        let f = validate_day-DayFacts cfg day.valid in
        let (opens, _, closes, _) = within.inside_day in
        let (whole, _) = within.pre_budget in
        let limit : day_closes ≤ 86400 =
          day_bound-le cfg.day_end_hour cfg.day_end_time f.end_hour_high day.ends in
        let le : ctx.pre_end_s ≤ 86400 = omega arith in
        let lt : day_opens < ctx.pre_end_s = omega arith in
        let (low, high, sound) = fields_sound ctx.pre_end_s (omega arith) le in
        accepts (pre_request request cfg ctx pids) some_place few f.start_hour low high sound
          (rw (resolve_segment_end_bound_fields-resolve ctx.pre_end_s le) lt) refl refl

    -- For a valid day with times of day as bounds and a context that keeps to the day, the request for
    -- the side after the transfer is accepted where that side has a budget and 1 to 50 places.
    pub post_request-accepted :
        1 ≤ ctx.post_visit_budget_min
        → validate_optimize_request (post_request request cfg ctx pids) ≡ true
    unfolding post_request resolve_day_bound_s
    post_request-accepted budget =
        let f = validate_day-DayFacts cfg day.valid in
        let (_, opens, _, closes) = within.inside_day in
        let (whole, _) = within.post_budget in
        let limit : day_closes ≤ 86400 =
          day_bound-le cfg.day_end_hour cfg.day_end_time f.end_hour_high day.ends in
        let (back, valid) = resolve-seconds_to_time cfg.day_start_hour ctx.post_start_s in
        let lt : ctx.post_start_s < day_closes = omega arith in
        accepts (post_request request cfg ctx pids) some_place few f.start_hour f.end_hour_low
          f.end_hour_high f.end_time
          (let k : resolve_day_bound_s cfg.day_start_hour (some (seconds_to_time ctx.post_start_s))
                ≡ ctx.post_start_s =
              back ∙ omega arith in
            rw k lt)
          refl refl

  paired-first :
      (lat lng : Option ℕ) (stay : Option (ℕ × AccommodationStay)) (lat' lng' : Option ℕ)
      → both_or_neither lat lng ≡ true
      → both_or_neither lat' lng' ≡ true
      → both_or_neither
          (first_given lat (λ (s : AccommodationStay). s.lat) stay lat')
          (first_given lng (λ (s : AccommodationStay). s.lng) stay lng')
        ≡ true
  paired-first (some a) (some b) stay lat' lng' h k = refl
  paired-first (some a) none stay lat' lng' h k = cc
  paired-first none (some b) stay lat' lng' h k = cc
  paired-first none none (some (i, s)) lat' lng' h k = refl
  paired-first none none none lat' lng' h k = k

  -- The request for a valid day with times of day as bounds is accepted for 1 to 50 places, whichever
  -- stays anchor the day, if the trip's own start and end have both coordinates or neither.
  pub day_request-accepted :
      (anchors : DayAccommodationAnchors) (pids : List String)
      → 1 ≤ length pids
      → length pids ≤ 50
      → both_or_neither request.start_lat request.start_lng ≡ true
      → both_or_neither request.end_lat request.end_lng ≡ true
      → validate_optimize_request (day_request request cfg anchors pids) ≡ true
  unfolding day_request
  day_request-accepted anchors pids some_place few start finish =
      let f = validate_day-DayFacts cfg day.valid in
      accepts (day_request request cfg anchors pids) some_place few f.start_hour f.end_hour_low
        f.end_hour_high f.end_time (let r = f.range in ltb→lt _ _ r)
        (paired-first cfg.start_lat cfg.start_lng _ _ _ f.start_place start)
        (paired-first cfg.end_lat cfg.end_lng _ _ _ f.end_place finish)

-- ===== src/MultiDay/Partition.antt =====
-- `_partition_places` of src/optimizer/solver/multi_day_service.py and its helpers.
-- The dictionaries that are keyed by a day's index, `buckets`, `fill`, `capacity` and those of the
-- transition days, are one list with a record for each day. The distance in kilometres between two
-- points, a float, is the parameter `haversine_km`: the code only compares such distances, and a
-- float that is not negative is ordered as the bits it is stored in.
pub mod Choice
pub mod Packing
pub mod Candidates
pub mod Accounted
pub mod Loops
pub mod Ranked
pub mod Whole
pub mod Budgets
pub mod Within
pub mod Homes
use travel_llm_planner.Common.{
  ℕ, zero, suc, ◌+◌, ◌*◌, ltb, leb, if◌then◌else◌, String, Bool, true, false, Option, none, some,
  List, [], ◌∷◌, ◌++◌, map, get_elem?, Dict,
}
use travel_llm_planner.Common.Raising.{for_each, Raising, raise, ok, ◌>>=◌}
use travel_llm_planner.Places.{PlaceDoc, SkippedPlace, doc_of, visit_min}
use travel_llm_planner.Accommodations.{AccommodationStay}
use travel_llm_planner.Planner.{DaySlot, PlaceDayPreference, DayConfig}
use travel_llm_planner.Service.{Failure}
use travel_llm_planner.MultiDay.{TransitionDayContext}
use travel_llm_planner.MultiDay.Days.{
  sort_ranked, candidate_days, is_pinned, is_flexible, is_auto, those,
}

pub data TransitionSide : Type 0 where
  origin destination no_coordinates : TransitionSide

-- What is kept of one day. The lists of the two sides stay empty on a day without a context.
pub record DayBuckets : Type 0 where
  pub config : DayConfig
  pub context : Option TransitionDayContext
  pub bucket : List String
  pub fill : ℕ
  pub pre : List String
  pub pre_fill : ℕ
  pub post : List String
  pub post_fill : ℕ
  pub pre_solver_skipped : List SkippedPlace

-- The state of the partition, which is also its result.
pub record Partition : Type 0 where
  pub days : List DayBuckets
  pub unassigned : List SkippedPlace

-- An int of either sign, as the difference of a ceiling and what is used of it.
pub record Minutes : Type 0 where
  pub ceiling : ℕ
  pub used : ℕ

-- A day of `classified`, with what `admissible` says of it.
pub record Candidate : Type 0 where
  pub day_index : ℕ
  pub day : DayBuckets
  pub is_admissible : Bool
  pub side : Option TransitionSide

-- `remaining_capacity`, given the day's context.
unfoldable pub remaining_on :
    Option TransitionDayContext → DayBuckets → Option TransitionSide → Minutes
remaining_on none day side = record {
  ceiling = day.config.day_end_hour * 60;
  used = day.config.day_start_hour * 60 + day.fill;
}
remaining_on (some ctx) day (some TransitionSide.origin) = record {
  ceiling = ctx.pre_visit_budget_min;
  used = day.pre_fill;
}
remaining_on (some ctx) day side = record {
  ceiling = ctx.post_visit_budget_min;
  used = day.post_fill;
}

unfoldable pub remaining_capacity : DayBuckets → Option TransitionSide → Minutes
unfolding remaining_on
remaining_capacity day side = remaining_on day.context day side

-- `remaining >= visit_min`
abbrev pub has_room : Minutes → ℕ → Bool
has_room m visit = leb (visit + m.used) m.ceiling

-- `a > b`
abbrev pub exceeds : Minutes → Minutes → Bool
exceeds a b = ltb (b.ceiling + a.used) (a.ceiling + b.used)

-- `rejection_reason`
unfoldable pub rejection_reason : Option TransitionSide → String
rejection_reason none = "CAPACITY_EXCEEDED"
rejection_reason (some TransitionSide.no_coordinates) = "NO_COORDINATES"
rejection_reason (some TransitionSide.origin) = "PRE_TRANSFER_CAPACITY_EXCEEDED"
rejection_reason (some TransitionSide.destination) = "CAPACITY_EXCEEDED"

-- `place_into_bucket`, given the day's context.
unfoldable pub place_on :
    Option TransitionDayContext → Option TransitionSide → DayBuckets → String → ℕ → DayBuckets
place_on none side day place_id visit = record day {
  bucket = day.bucket ++ place_id ∷ [];
  fill = day.fill + visit;
}
place_on (some ctx) (some TransitionSide.origin) day place_id visit = record day {
  pre = day.pre ++ place_id ∷ [];
  pre_fill = day.pre_fill + visit;
}
place_on (some ctx) side day place_id visit = record day {
  post = day.post ++ place_id ∷ [];
  post_fill = day.post_fill + visit;
}

unfoldable pub place_into_bucket : DayBuckets → Option TransitionSide → String → ℕ → DayBuckets
unfolding place_on
place_into_bucket day side place_id visit = place_on day.context side day place_id visit

abbrev remaining_of : Candidate → Minutes
remaining_of c = remaining_capacity c.day c.side

-- `max(..., key=...)` of a list that is not empty: the first of the greatest.
unfoldable pub best_of : Candidate → List Candidate → Candidate
unfolding remaining_capacity
best_of best [] = best
best_of best (c ∷ cs) =
    best_of (if exceeds (remaining_of c) (remaining_of best) then c else best) cs

-- `admissible_candidates`
unfoldable pub admitted : List Candidate → List Candidate
admitted [] = []
admitted (c ∷ cs) = let rest = admitted cs in if c.is_admissible then c ∷ rest else rest

-- `xs[i] = x`
unfoldable pub set_at {ℓ} : {A : Type ℓ} → ℕ → A → List A → List A
set_at i x [] = []
set_at zero x (y ∷ ys) = x ∷ ys
set_at (suc i) x (y ∷ ys) = y ∷ set_at i x ys

abbrev pub skipped_as : String → String → PlaceDoc → SkippedPlace
skipped_as place_id reason doc = record { place_id = place_id; name = doc.name; reason = reason }

-- The end of `pack_unpinned`: the best admissible candidate takes the place, or the place is
-- rejected for the best candidate's reason.
unfoldable pub settle :
    Partition → String → PlaceDoc → List Candidate → List Candidate → Raising Failure Partition
unfolding best_of place_into_bucket set_at rejection_reason
settle st place_id doc (c ∷ cs) classified =
    let best = best_of c cs in
    ok (record st {
      days =
          set_at best.day_index (place_into_bucket best.day best.side place_id (visit_min doc))
            st.days;
    })
settle st place_id doc [] [] = raise Failure.value_error
settle st place_id doc [] (c ∷ cs) = ok (record st {
  unassigned = st.unassigned ++ skipped_as place_id (rejection_reason (best_of c cs).side) doc ∷ [];
})

-- What the loop over `pinned` does with a place of either side.
unfoldable pub pin_on : TransitionSide → DayBuckets → String → PlaceDoc → DayBuckets
unfolding place_into_bucket
pin_on TransitionSide.no_coordinates day place_id doc = record day {
  pre_solver_skipped = day.pre_solver_skipped ++ skipped_as place_id "NO_COORDINATES" doc ∷ [];
}
pin_on side day place_id doc = place_into_bucket day (some side) place_id (visit_min doc)

unfoldable pub admits : TransitionDayContext → DayBuckets → ℕ → TransitionSide → Bool
unfolding remaining_on
admits ctx day visit TransitionSide.no_coordinates = false
admits ctx day visit side = has_room (remaining_on (some ctx) day (some side)) visit

module _ (haversine_km : ℕ → ℕ → ℕ → ℕ → ℕ) where
  -- `_transition_side`
  unfoldable pub transition_side : PlaceDoc → AccommodationStay → AccommodationStay → TransitionSide
  transition_side doc from to = elim doc.lat [
    | none ↦ TransitionSide.no_coordinates
    | some lat ↦ elim doc.lng [
      | none ↦ TransitionSide.no_coordinates
      | some lng ↦
          if ltb (haversine_km lat lng to.lat to.lng) (haversine_km lat lng from.lat from.lng)
          then TransitionSide.destination
          else TransitionSide.origin
    ]
  ]

  abbrev side_of : TransitionDayContext → PlaceDoc → TransitionSide
  side_of ctx doc = transition_side doc ctx.origin ctx.destination

  -- `admissible`, with the day's index and record, given the day's context.
  unfoldable pub candidate_on : Option TransitionDayContext → ℕ → DayBuckets → PlaceDoc → Candidate
  unfolding transition_side admits
  candidate_on none i day doc = record {
    day_index = i;
    day = day;
    is_admissible = true;
    side = none;
  }
  candidate_on (some ctx) i day doc = record {
    day_index = i;
    day = day;
    is_admissible = admits ctx day (visit_min doc) (side_of ctx doc);
    side = some (side_of ctx doc);
  }

  unfoldable pub candidate : ℕ → DayBuckets → PlaceDoc → Candidate
  unfolding candidate_on
  candidate i day doc = candidate_on day.context i day doc

  -- `classified`. A day that is not there raises: at the latest where its capacity is looked up.
  unfoldable pub classify : List DayBuckets → PlaceDoc → List ℕ → Raising Failure (List Candidate)
  unfolding candidate
  classify days doc [] = ok []
  classify days doc (i ∷ is) =
      let rest = classify days doc is in
      elim (get_elem? days i) [
        | none ↦ raise Failure.key_error
        | some day ↦ rest >>= λ cs. ok (candidate i day doc ∷ cs)
      ]

  -- And with any pinned place, on its day.
  unfoldable pub pin : DayBuckets → String → PlaceDoc → DayBuckets
  unfolding place_into_bucket transition_side pin_on
  pin day place_id doc = elim day.context [
    | none ↦ place_into_bucket day none place_id (visit_min doc)
    | some ctx ↦ pin_on (side_of ctx doc) day place_id doc
  ]

  module _ (docs : Dict PlaceDoc) (day_configs : List DayConfig) where
    -- `pack_unpinned`, in the body of the loops over `flexible` and `auto`.
    unfoldable pub pack_unpinned : Partition → PlaceDayPreference → Raising Failure Partition
    unfolding classify admitted settle candidate_days
    pack_unpinned st pref =
        let doc = doc_of docs pref.place_id in
        classify st.days doc (candidate_days day_configs doc pref.day_preferences) >>= λ classified.
        settle st pref.place_id doc (admitted classified) classified

    unfoldable pub pin_first : List DaySlot → Partition → String → Raising Failure Partition
    unfolding pin set_at
    pin_first [] st place_id = raise Failure.index_error
    pin_first (slot ∷ slots) st place_id = elim (get_elem? st.days slot.day_index) [
      | none ↦ raise Failure.key_error
      | some day ↦
          let placed = pin day place_id (doc_of docs place_id) in
          ok (record st { days = set_at slot.day_index placed st.days })
    ]

    -- The body of the loop over `pinned`.
    unfoldable pub place_pinned : Partition → PlaceDayPreference → Raising Failure Partition
    unfolding pin_first
    place_pinned st pref = pin_first pref.day_preferences st pref.place_id

abbrev pub empty_day : DayConfig × Option TransitionDayContext → DayBuckets
empty_day (cfg, ctx) = record {
  config = cfg;
  context = ctx;
  bucket = [];
  fill = 0;
  pre = [];
  pre_fill = 0;
  post = [];
  post_fill = 0;
  pre_solver_skipped = [];
}

abbrev pub configs : List (DayConfig × Option TransitionDayContext) → List DayConfig
configs days = map (λ (d : DayConfig × Option TransitionDayContext). d.0) days

-- `_partition_places`, of the days with their contexts.
unfoldable pub partition_places :
    (ℕ → ℕ → ℕ → ℕ → ℕ)
    → List PlaceDayPreference
    → List (DayConfig × Option TransitionDayContext)
    → Dict PlaceDoc
    → Raising Failure Partition
unfolding place_pinned pack_unpinned those sort_ranked for_each
partition_places haversine_km places days docs =
    for_each (place_pinned haversine_km docs (configs days))
      (record { days = map empty_day days; unassigned = [] }) (those is_pinned places)
    >>= λ pinned.
        for_each (pack_unpinned haversine_km docs (configs days)) pinned
          (sort_ranked docs (those is_flexible places))
        >>= λ flexible.
            for_each (pack_unpinned haversine_km docs (configs days)) flexible
              (sort_ranked docs (those is_auto places))

-- ===== src/MultiDay/Partition/Loops.antt =====
-- The three loops of `_partition_places`: each pass of a body holds one more place.
use travel_llm_planner.Common.{
  ℕ, ◌+◌, ◌<◌, ◌≡◌, refl, ◌∙◌, inl, inr, true, Option, none, some, List, [], ◌∷◌, length, All,
  String, arith, Dict, ◌==◌,
}
use travel_llm_planner.Common.Counting.{occurrences, occurrences-append}
use travel_llm_planner.Common.Raising.{for_each, Raising, ok}
use travel_llm_planner.Places.{PlaceDoc, doc_of, visit_min}
use travel_llm_planner.Planner.{DaySlot, PlaceDayPreference, DayConfig}
use travel_llm_planner.Service.{Failure}
use travel_llm_planner.MultiDay.{TransitionDayContext}
use travel_llm_planner.MultiDay.Partition.{
  DayBuckets, Partition, TransitionSide, set_at, place_into_bucket, skipped_as, pack_unpinned,
  place_pinned, pin, pin_on, pin_first, transition_side,
}
use travel_llm_planner.MultiDay.Days.{is_pinned, slot_indices}
use travel_llm_planner.MultiDay.Partition.Accounted.{
  held, wanted_ids, Adds, AddsTo, place_into_bucket-AddsTo, set_at-Adds, unassigned-Adds,
  skipped_ids-append,
}
use travel_llm_planner.MultiDay.Partition.Choice.{get_elem?-some}
use travel_llm_planner.MultiDay.Partition.Packing.{pack_unpinned_cases, pack_unpinned_total}
use travel_llm_planner.MultiDay.Partition.Candidates.{candidate_days-Below, candidate_days_pos}

-- The body of each loop, on a place whose days are there.
abbrev pub IsGoodStep :
    (Partition → PlaceDayPreference → Raising Failure Partition) → ℕ → PlaceDayPreference → Type 0
IsGoodStep body n p =
    (st : Partition)
    → length st.days ≡ n
    → (st' : Partition) × (body st p ≡ ok st') × Adds st p.place_id st'

-- Each loop holds its own places in addition to those held before.
pub for_each-Adds :
    (body : Partition → PlaceDayPreference → Raising Failure Partition) (n : ℕ)
    (ps : List PlaceDayPreference) (st : Partition)
    → All (IsGoodStep body n) ps
    → length st.days ≡ n
    → (st' : Partition) × (for_each body st ps ≡ ok st')
      × (length st'.days ≡ n)
      × ((x : String)
          → occurrences x (held st') ≡ occurrences x (wanted_ids ps) + occurrences x (held st))
unfolding for_each occurrences
for_each-Adds body n [] st good size = (st, refl, size, λ x. omega arith)
for_each-Adds body n (p ∷ ps) st (step, good) size =
    let (next, done, adds) = step st size in
    let (st', rest, size', more) = for_each-Adds body n ps next good (adds.size ∙ size) in
    (st', rw done rest, size', λ x. let a = more x in let b = adds.more x in omega arith)

module _ (haversine_km : ℕ → ℕ → ℕ → ℕ → ℕ) (docs : Dict PlaceDoc)
    (day_configs : List DayConfig) where
  abbrev pub DaysThere : PlaceDayPreference → Type 0
  DaysThere p = All (λ i. i < length day_configs) (slot_indices p.day_preferences)

  pub pack_unpinned-IsGoodStep :
      (p : PlaceDayPreference)
      → 0 < length day_configs
      → DaysThere p
      → IsGoodStep (pack_unpinned haversine_km docs day_configs) (length day_configs) p
  pack_unpinned-IsGoodStep p pos there st size =
      let doc = doc_of docs p.place_id in
      let (st', done) =
        pack_unpinned_total haversine_km docs day_configs st p
          (rw size (candidate_days-Below day_configs doc p.day_preferences there))
          (candidate_days_pos day_configs doc p.day_preferences pos) in
      elim (pack_unpinned_cases haversine_km docs day_configs st p st' done) [
        | inl t ↦ (
          st',
          done,
          set_at-Adds st st' t.best.day_index t.best.day _ p.place_id t.from.there
              (place_into_bucket-AddsTo t.best.day t.best.side p.place_id (visit_min doc)) t.stays
              t.put,
        )
        | inr l ↦
            (st', done, unassigned-Adds st st' (skipped_as p.place_id l.reason doc) l.stays l.put)
      ]

pin-AddsTo_on :
    (side : TransitionSide) (day : DayBuckets) (place_id : String) (doc : PlaceDoc)
    → AddsTo day place_id (pin_on side day place_id doc)
unfolding pin_on occurrences
pin-AddsTo_on TransitionSide.no_coordinates day place_id doc =
    λ x. simp (occurrences-append, skipped_ids-append) (omega arith)
pin-AddsTo_on TransitionSide.origin day place_id doc =
    place_into_bucket-AddsTo day (some TransitionSide.origin) place_id (visit_min doc)
pin-AddsTo_on TransitionSide.destination day place_id doc =
    place_into_bucket-AddsTo day (some TransitionSide.destination) place_id (visit_min doc)

module _ (haversine_km : ℕ → ℕ → ℕ → ℕ → ℕ) (docs : Dict PlaceDoc)
    (day_configs : List DayConfig) where
  pin-AddsTo :
      (day : DayBuckets) (place_id : String) (doc : PlaceDoc)
      → AddsTo day place_id (pin haversine_km day place_id doc)
  unfolding pin
  pin-AddsTo day place_id doc = go day.context
    where
      go :
          (ctx : Option TransitionDayContext)
          → AddsTo day place_id (elim ctx [
            | none ↦ place_into_bucket day none place_id (visit_min doc)
            | some c ↦
                pin_on (transition_side haversine_km doc c.origin c.destination) day place_id doc
          ])
      go none = place_into_bucket-AddsTo day none place_id (visit_min doc)
      go (some c) =
          pin-AddsTo_on (transition_side haversine_km doc c.origin c.destination) day place_id doc

  pin_first-Adds :
      (slot : DaySlot) (slots : List DaySlot) (st : Partition) (place_id : String)
      → slot.day_index < length st.days
      → (st' : Partition) × (pin_first haversine_km docs day_configs (slot ∷ slots) st place_id
          ≡ ok st')
        × Adds st place_id st'
  unfolding pin_first
  pin_first-Adds slot slots st place_id lt =
      let (day, found) = get_elem?-some st.days slot.day_index lt in
      let placed = pin haversine_km day place_id (doc_of docs place_id) in
      (
        record st { days = set_at slot.day_index placed st.days },
        rw (found, pin_first) refl,
        set_at-Adds st _ slot.day_index day placed place_id found
            (pin-AddsTo day place_id (doc_of docs place_id)) refl refl,
      )

  pin_first-Adds-All :
      (slots : List DaySlot) (st : Partition) (place_id : String)
      → (length slots == 1) ≡ true
      → All (λ i. i < length st.days) (slot_indices slots)
      → (st' : Partition) × (pin_first haversine_km docs day_configs slots st place_id ≡ ok st')
        × Adds st place_id st'
  pin_first-Adds-All [] st place_id one there = absurd (ground arith)
  pin_first-Adds-All (slot ∷ slots) st place_id one (lt, there) =
      pin_first-Adds slot slots st place_id lt

  pub place_pinned-IsGoodStep :
      (p : PlaceDayPreference)
      → is_pinned p ≡ true
      → DaysThere haversine_km docs day_configs p
      → IsGoodStep (place_pinned haversine_km docs day_configs) (length day_configs) p
  unfolding place_pinned
  place_pinned-IsGoodStep p one there st size =
      pin_first-Adds-All p.day_preferences st p.place_id one (rw size there)

-- ===== src/MultiDay/Partition/Whole.antt =====
-- `_partition_places` as a whole: every place of the request is held exactly once.
use travel_llm_planner.Common.{
  ℕ, suc, ◌<◌, ◌≡◌, refl, ap, ◌∙◌, Bool, true, Option, List, [], ◌∷◌, map, length, All, All-map,
  &&-eq-true, arith, Dict, ltb,
}
use travel_llm_planner.Common.Counting.{occurrences, SameItems}
use travel_llm_planner.Common.Raising.{ok}
use travel_llm_planner.Places.{PlaceDoc}
use travel_llm_planner.Planner.{every, validate_day_indices, DaySlot, PlaceDayPreference, DayConfig}
use travel_llm_planner.MultiDay.{TransitionDayContext}
use travel_llm_planner.MultiDay.Partition.{
  Partition, pack_unpinned, place_pinned, partition_places, configs, empty_day,
}
use travel_llm_planner.MultiDay.Days.{
  those, sort_ranked, is_pinned, is_flexible, is_auto, slot_indices,
}
use travel_llm_planner.MultiDay.Partition.Accounted.{placed_ids, held, wanted_ids}
use travel_llm_planner.MultiDay.Partition.Loops.{
  IsGoodStep, for_each-Adds, pack_unpinned-IsGoodStep, place_pinned-IsGoodStep,
}
use travel_llm_planner.MultiDay.Partition.Ranked.{
  those-All, sort_ranked-All, sort_ranked-occurrences, those-occurrences,
}

-- `validate_day_indices`, read off.
abbrev Indexed : ℕ → PlaceDayPreference → Type 0
Indexed n p = All (λ i. i < n) (slot_indices p.day_preferences)

every_slot :
    (n : ℕ) (slots : List DaySlot)
    → every (λ (s : DaySlot). ltb s.day_index n) slots ≡ true
    → All (λ i. i < n) (slot_indices slots)
every_slot n [] h = tt
every_slot n (s ∷ ss) h =
    let (now, later) = &&-eq-true (ltb s.day_index n) _ h in (ground arith, every_slot n ss later)

pub validate_day_indices-All :
    (n : ℕ) (ps : List PlaceDayPreference) → validate_day_indices n ps ≡ true → All (Indexed n) ps
unfolding validate_day_indices
validate_day_indices-All n [] h = tt
validate_day_indices-All n (p ∷ ps) h =
    let (now, later) =
      &&-eq-true (every (λ (s : DaySlot). ltb s.day_index n) p.day_preferences) _ h in
    (every_slot n p.day_preferences now, validate_day_indices-All n ps later)

module _ (haversine_km : ℕ → ℕ → ℕ → ℕ → ℕ) (docs : Dict PlaceDoc)
    (days : List (DayConfig × Option TransitionDayContext)) where
  abbrev unplaced : List (DayConfig × Option TransitionDayContext) → Partition
  unplaced ds = record { days = map empty_day ds; unassigned = [] }

  unplaced_lem :
      (ds : List (DayConfig × Option TransitionDayContext))
      → (length (map empty_day ds) ≡ length (configs ds)) × (placed_ids (map empty_day ds) ≡ [])
  unplaced_lem [] = (refl, refl)
  unplaced_lem (d ∷ ds) = let (e, f) = unplaced_lem ds in (ap suc e, f)

  packs_well :
      (test : PlaceDayPreference → Bool) (places : List PlaceDayPreference)
      → 0 < length (configs days)
      → All (Indexed (length (configs days))) places
      → All
          (IsGoodStep (pack_unpinned haversine_km docs (configs days)) (length (configs days)))
          (sort_ranked docs (those test places))
  packs_well test places pos there =
      All-map (λ p. (test p ≡ true) × Indexed (length (configs days)) p) _
        (λ p (chosen, fine). pack_unpinned-IsGoodStep haversine_km docs (configs days) p pos fine)
        (sort_ranked docs (those test places))
        (sort_ranked-All _ docs (those test places) (those-All _ test places there))

  length-configs :
      (ds : List (DayConfig × Option TransitionDayContext)) → length (configs ds) ≡ length ds
  length-configs [] = refl
  length-configs (d ∷ ds) = ap suc (length-configs ds)

  -- With a day to plan, and day indices that the request's validator accepts, the partition does not
  -- raise; it keeps the number of days, and holds every place, on a day or among the unassigned ones,
  -- exactly as often as the request does.
  pub partition_places-SameItems :
      (places : List PlaceDayPreference)
      → 0 < length days
      → validate_day_indices (length days) places ≡ true
      → (st : Partition) × (partition_places haversine_km places days docs ≡ ok st)
        × (length st.days ≡ length days)
        × SameItems (held st) (wanted_ids places)
  unfolding partition_places occurrences
  partition_places-SameItems places pos valid =
      let cfgs = configs days in
      let (same_length, nothing) = unplaced_lem days in
      let size : length cfgs ≡ length days = length-configs days in
      let there : All (Indexed (length cfgs)) places =
        rw size (validate_day_indices-All (length days) places valid) in
      let pinned_good =
        All-map _ (IsGoodStep (place_pinned haversine_km docs cfgs) (length cfgs))
          (λ p (one, fine). place_pinned-IsGoodStep haversine_km docs cfgs p one fine)
          (those is_pinned places) (those-All (Indexed (length cfgs)) is_pinned places there) in
      let (st₁, done₁, size₁, more₁) =
        for_each-Adds (place_pinned haversine_km docs cfgs) (length cfgs) (those is_pinned places)
          (unplaced days) pinned_good same_length in
      let (st₂, done₂, size₂, more₂) =
        for_each-Adds (pack_unpinned haversine_km docs cfgs) (length cfgs)
          (sort_ranked docs (those is_flexible places)) st₁
          (packs_well is_flexible places (rw size pos) there) size₁ in
      let (st₃, done₃, size₃, more₃) =
        for_each-Adds (pack_unpinned haversine_km docs cfgs) (length cfgs)
          (sort_ranked docs (those is_auto places)) st₂
          (packs_well is_auto places (rw size pos) there) size₂ in
      (
        st₃,
        rw (done₁, done₂) done₃,
        size₃ ∙ size,
        λ x.
            let a = more₁ x in
            let b = more₂ x in
            let c = more₃ x in
            let empty : occurrences x (held (unplaced days)) ≡ 0 = rw nothing refl in
            let flexible = sort_ranked-occurrences docs (those is_flexible places) x in
            let auto = sort_ranked-occurrences docs (those is_auto places) x in
            let whole = those-occurrences places x in omega arith,
      )

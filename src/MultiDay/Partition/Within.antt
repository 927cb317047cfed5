-- ===== src/MultiDay/Partition/Within.antt =====
-- The budgets of the sides hold through the loops of `_partition_places`.
use travel_llm_planner.Common.{
  ℕ, zero, suc, ◌≡◌, refl, sym, ap, subst, ◌∙◌, inl, inr, Option, none, some, List, [], ◌∷◌, map,
  get_elem?, Option-cases, All, String, Dict,
}
use travel_llm_planner.Common.Raising.{for_each, for_each-keeps, Raising, ok, >>=-eq-ok, ok-eq}
use travel_llm_planner.Places.{PlaceDoc, doc_of, visit_min}
use travel_llm_planner.Planner.{DaySlot, PlaceDayPreference, DayConfig}
use travel_llm_planner.Service.{Failure}
use travel_llm_planner.MultiDay.{TransitionDayContext}
use travel_llm_planner.MultiDay.Partition.{
  Candidate, DayBuckets, Partition, TransitionSide, set_at, place_into_bucket, place_on,
  pack_unpinned, transition_side, place_pinned, pin_first, pin, pin_on, partition_places, configs,
  empty_day,
}
use travel_llm_planner.MultiDay.Days.{those, sort_ranked, is_pinned, is_flexible, is_auto}
use travel_llm_planner.MultiDay.Partition.Budgets.{
  IsTallied, Grown, AllGrown, SidesFit, candidate-Grown, place_on-IsTallied, minutes,
}
use travel_llm_planner.MultiDay.Partition.Packing.{pack_unpinned_cases}

module _ (docs : Dict PlaceDoc) where
  AllGrown-refl : (days : List DayBuckets) → All (IsTallied docs) days → AllGrown docs days days
  AllGrown-refl [] all = tt
  AllGrown-refl (day ∷ days) (t, all) = (
    record { same_context = refl; tallied = t; sides = unchanged day.context },
    AllGrown-refl days all,
  )
    where
      unchanged : (ctx : Option TransitionDayContext) → SidesFit docs ctx day day
      unchanged none = tt
      unchanged (some ctx) = (inl refl, inl refl)

  AllGrown-set_at :
      (olds days : List DayBuckets) (i : ℕ) (day day' : DayBuckets)
      → AllGrown docs olds days
      → get_elem? days i ≡ some day
      → ((old : DayBuckets) → Grown docs old day → Grown docs old day')
      → AllGrown docs olds (set_at i day' days)
  unfolding set_at
  AllGrown-set_at [] [] i day day' all there step = tt
  AllGrown-set_at [] (d ∷ days) i day day' all there step = absurd all
  AllGrown-set_at (o ∷ olds) [] i day day' all there step = absurd all
  AllGrown-set_at (o ∷ olds) (d ∷ days) zero day day' (g, all) there step =
      let e : d ≡ day = cc in (step o (subst (Grown docs o) e g), all)
  AllGrown-set_at (o ∷ olds) (d ∷ days) (suc i) day day' (g, all) there step =
      (g, AllGrown-set_at olds days i day day' all there step)

  All-set_at :
      (days : List DayBuckets) (i : ℕ) (day day' : DayBuckets)
      → All (IsTallied docs) days
      → get_elem? days i ≡ some day
      → (IsTallied docs day → IsTallied docs day')
      → All (IsTallied docs) (set_at i day' days)
  unfolding set_at
  All-set_at [] i day day' all there step = tt
  All-set_at (d ∷ days) zero day day' (t, all) there step =
      let e : d ≡ day = cc in (step (subst (IsTallied docs) e t), all)
  All-set_at (d ∷ days) (suc i) day day' (t, all) there step =
      (t, All-set_at days i day day' all there step)

  module _ (haversine_km : ℕ → ℕ → ℕ → ℕ → ℕ) (day_configs : List DayConfig) where
    pack_unpinned-AllGrown :
        (olds : List DayBuckets) (st : Partition) (p : PlaceDayPreference) (st' : Partition)
        → pack_unpinned haversine_km docs day_configs st p ≡ ok st'
        → AllGrown docs olds st.days
        → AllGrown docs olds st'.days
    pack_unpinned-AllGrown olds st p st' done all =
        elim (pack_unpinned_cases haversine_km docs day_configs st p st' done) [
          | inl t ↦ rw t.put (
              AllGrown-set_at olds st.days t.best.day_index t.best.day _ all t.from.there (λ old g.
                let made = t.from.made in
                let side = ap (λ (c : Candidate). c.side) made in
                let fits = sym (ap (λ (c : Candidate). c.is_admissible) made) ∙ t.fits in
                rw side (
                  candidate-Grown docs haversine_km t.best.day_index old t.best.day p.place_id g
                    fits)))
          | inr l ↦ rw l.stays all
        ]

    pin_on-IsTallied :
        (side : TransitionSide) (day : DayBuckets) (id : String)
        → IsTallied docs day
        → IsTallied docs (pin_on side day id (doc_of docs id))
    unfolding pin_on place_into_bucket
    pin_on-IsTallied TransitionSide.no_coordinates day id t = record {
      whole = t.whole;
      before = t.before;
      after = t.after;
    }
    pin_on-IsTallied TransitionSide.origin day id t = place_on-IsTallied docs day.context _ day id t
    pin_on-IsTallied TransitionSide.destination day id t =
        place_on-IsTallied docs day.context _ day id t

    pin-IsTallied :
        (day : DayBuckets) (id : String)
        → IsTallied docs day
        → IsTallied docs (pin haversine_km day id (doc_of docs id))
    unfolding pin place_into_bucket
    pin-IsTallied day id t = go day.context
      where
        go :
            (ctx : Option TransitionDayContext)
            → IsTallied docs (elim ctx [
              | none ↦ place_on day.context none day id (visit_min (doc_of docs id))
              | some c ↦
                  pin_on
                    (transition_side haversine_km (doc_of docs id) c.origin c.destination)
                    day
                    id
                    (doc_of docs id)
            ])
        go none = place_on-IsTallied docs day.context none day id t
        go (some c) = pin_on-IsTallied _ day id t

    pin_first-IsTallied :
        (slots : List DaySlot) (st : Partition) (id : String) (st' : Partition)
        → pin_first haversine_km docs day_configs slots st id ≡ ok st'
        → All (IsTallied docs) st.days
        → All (IsTallied docs) st'.days
    unfolding pin_first
    pin_first-IsTallied [] st id st' h all = cc
    pin_first-IsTallied (slot ∷ slots) st id st' h all =
        elim (Option-cases (get_elem? st.days slot.day_index)) [
          | inl nothing ↦ cc (rw (nothing, pin_first) at h)
          | inr (day, found) ↦
              rw (sym (ok-eq (λ (p : Partition). p.days) (rw (found, pin_first) at h)))
                (All-set_at st.days slot.day_index day _ all found (pin-IsTallied day id))
        ]

    place_pinned-IsTallied :
        (st : Partition) (p : PlaceDayPreference) (st' : Partition)
        → place_pinned haversine_km docs day_configs st p ≡ ok st'
        → All (IsTallied docs) st.days
        → All (IsTallied docs) st'.days
    unfolding place_pinned
    place_pinned-IsTallied st p st' done all =
        pin_first-IsTallied p.day_preferences st p.place_id st' done all

empty_day-IsTallied :
    (docs : Dict PlaceDoc) (days : List (DayConfig × Option TransitionDayContext))
    → All (IsTallied docs) (map empty_day days)
unfolding minutes
empty_day-IsTallied docs [] = tt
empty_day-IsTallied docs (d ∷ days) =
    (record { whole = refl; before = refl; after = refl }, empty_day-IsTallied docs days)

module _ (haversine_km : ℕ → ℕ → ℕ → ℕ → ℕ) (docs : Dict PlaceDoc)
    (days : List (DayConfig × Option TransitionDayContext)) where
  -- The days as the loop over `pinned` leaves them.
  abbrev pub after_pinned : List PlaceDayPreference → Raising Failure Partition
  after_pinned places =
      for_each (place_pinned haversine_km docs (configs days))
        (record { days = map empty_day days; unassigned = [] }) (those is_pinned places)

  -- Where the partition succeeds, the fills of every day are the minutes of the visits put there,
  -- and each side of a transition day is as the pinned places left it, or all its visits fit its
  -- budget.
  pub partition_places-AllGrown :
      (places : List PlaceDayPreference) (st : Partition)
      → partition_places haversine_km places days docs ≡ ok st
      → (pinned : Partition) × (after_pinned places ≡ ok pinned) × AllGrown docs pinned.days st.days
  unfolding partition_places
  partition_places-AllGrown places st h =
      let cfgs = configs days in
      let pack = pack_unpinned haversine_km docs cfgs in
      let (st₁, e₁, h₁) = >>=-eq-ok (after_pinned places) _ h in
      let (st₂, e₂, h₂) =
        >>=-eq-ok (for_each pack st₁ (sort_ranked docs (those is_flexible places))) _ h₁ in
      let tallied =
        for_each-keeps (λ s. All (IsTallied docs) s.days) (place_pinned haversine_km docs cfgs)
          (place_pinned-IsTallied docs haversine_km cfgs) (those is_pinned places) _ st₁ e₁
          (empty_day-IsTallied docs days) in
      let keeps =
        for_each-keeps (λ s. AllGrown docs st₁.days s.days) pack
          (λ s p s'. pack_unpinned-AllGrown docs haversine_km cfgs st₁.days s p s') in
      (
        st₁,
        e₁,
        keeps (sort_ranked docs (those is_auto places)) st₂ st h₂ (
            keeps (sort_ranked docs (those is_flexible places)) st₁ st₂ e₂
              (AllGrown-refl docs st₁.days tallied)),
      )

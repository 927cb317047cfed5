-- ===== src/MultiDay/Partition/Homes.antt =====
-- A day keeps its configuration and context, and its places are where its context says.
use travel_llm_planner.Common.{
  ℕ, zero, suc, ◌≡◌, refl, sym, ap, ◌∙◌, subst, inl, inr, Option, none, some, List, [], ◌∷◌, map,
  get_elem?, String, Dict, Option-cases,
}
use travel_llm_planner.Common.Raising.{ok, >>=-eq-ok, ok-eq, for_each, for_each-keeps}
use travel_llm_planner.Places.{PlaceDoc, doc_of, visit_min}
use travel_llm_planner.Planner.{DaySlot, PlaceDayPreference, DayConfig}
use travel_llm_planner.MultiDay.{TransitionDayContext}
use travel_llm_planner.MultiDay.Days.{sort_ranked, is_pinned, is_flexible, is_auto, those}
use travel_llm_planner.MultiDay.Partition.{
  DayBuckets, Partition, TransitionSide, set_at, place_into_bucket, place_on, pin, pin_on,
  pin_first, place_pinned, pack_unpinned, partition_places, configs, empty_day, transition_side,
}
use travel_llm_planner.MultiDay.Partition.Packing.{pack_unpinned_cases}

-- Without a context only the bucket is used, with one everything but the bucket.
abbrev pub IsSortedOut : Option TransitionDayContext → DayBuckets → Type 0
IsSortedOut none day = (day.pre ≡ []) × (day.post ≡ []) × (day.pre_solver_skipped ≡ [])
IsSortedOut (some ctx) day = day.bucket ≡ []

pub record IsHome (planned : DayConfig × Option TransitionDayContext) (day : DayBuckets)
    : Type 0 where
  pub same_config : day.config ≡ planned.0
  pub same_context : day.context ≡ planned.1
  pub sorted_out : IsSortedOut planned.1 day

abbrev pub AllHomes : List (DayConfig × Option TransitionDayContext) → List DayBuckets → Type 0
AllHomes [] [] = Unit {0}
AllHomes (p ∷ ps) (d ∷ ds) = IsHome p d × AllHomes ps ds
AllHomes [] (d ∷ ds) = ⊥
AllHomes (p ∷ ps) [] = ⊥

AllHomes-set_at :
    (ps : List (DayConfig × Option TransitionDayContext)) (days : List DayBuckets) (i : ℕ)
    (day day' : DayBuckets)
    → AllHomes ps days
    → get_elem? days i ≡ some day
    → ((p : DayConfig × Option TransitionDayContext) → IsHome p day → IsHome p day')
    → AllHomes ps (set_at i day' days)
unfolding set_at
AllHomes-set_at [] [] i day day' all there step = tt
AllHomes-set_at [] (d ∷ days) i day day' all there step = absurd all
AllHomes-set_at (p ∷ ps) [] i day day' all there step = absurd all
AllHomes-set_at (p ∷ ps) (d ∷ days) zero day day' (h, all) there step =
    let e : d ≡ day = cc in (step p (subst (IsHome p) e h), all)
AllHomes-set_at (p ∷ ps) (d ∷ days) (suc i) day day' (h, all) there step =
    (h, AllHomes-set_at ps days i day day' all there step)

-- A place without a side goes to the bucket, so it must be on a day without a context.
abbrev Agrees : Option TransitionDayContext → Option TransitionSide → Type 0
Agrees none side = Unit {0}
Agrees (some ctx) side = (s : TransitionSide) × (side ≡ some s)

place_on-IsHome :
    (cfg : DayConfig) (ctx : Option TransitionDayContext) (side : Option TransitionSide)
    (day : DayBuckets) (id : String) (visit : ℕ)
    → IsHome (cfg, ctx) day
    → IsHome (cfg, ctx) (place_on ctx side day id visit)
unfolding place_on
place_on-IsHome cfg none side day id visit h = record {
  same_config = h.same_config;
  same_context = h.same_context;
  sorted_out = h.sorted_out;
}
place_on-IsHome cfg (some ctx) (some TransitionSide.origin) day id visit h = record {
  same_config = h.same_config;
  same_context = h.same_context;
  sorted_out = h.sorted_out;
}
place_on-IsHome cfg (some ctx) (some TransitionSide.destination) day id visit h = record {
  same_config = h.same_config;
  same_context = h.same_context;
  sorted_out = h.sorted_out;
}
place_on-IsHome cfg (some ctx) (some TransitionSide.no_coordinates) day id visit h = record {
  same_config = h.same_config;
  same_context = h.same_context;
  sorted_out = h.sorted_out;
}
place_on-IsHome cfg (some ctx) none day id visit h = record {
  same_config = h.same_config;
  same_context = h.same_context;
  sorted_out = h.sorted_out;
}

place_into_bucket-IsHome :
    (p : DayConfig × Option TransitionDayContext) (side : Option TransitionSide) (day : DayBuckets)
    (id : String) (visit : ℕ)
    → IsHome p day
    → IsHome p (place_into_bucket day side id visit)
unfolding place_into_bucket
place_into_bucket-IsHome (cfg, ctx) side day id visit h =
    subst (λ c. IsHome (cfg, ctx) (place_on c side day id visit)) (sym h.same_context)
      (place_on-IsHome cfg ctx side day id visit h)

pin_on-IsHome :
    (cfg : DayConfig) (c : TransitionDayContext) (side : TransitionSide) (day : DayBuckets)
    (id : String) (doc : PlaceDoc)
    → IsHome (cfg, some c) day
    → IsHome (cfg, some c) (pin_on side day id doc)
unfolding pin_on
pin_on-IsHome cfg c TransitionSide.no_coordinates day id doc h = record {
  same_config = h.same_config;
  same_context = h.same_context;
  sorted_out = h.sorted_out;
}
pin_on-IsHome cfg c TransitionSide.origin day id doc h =
    place_into_bucket-IsHome (cfg, some c) _ day id _ h
pin_on-IsHome cfg c TransitionSide.destination day id doc h =
    place_into_bucket-IsHome (cfg, some c) _ day id _ h

module _ (haversine_km : ℕ → ℕ → ℕ → ℕ → ℕ) where
  pin-IsHome :
      (p : DayConfig × Option TransitionDayContext) (day : DayBuckets) (id : String)
      (doc : PlaceDoc)
      → IsHome p day
      → IsHome p (pin haversine_km day id doc)
  unfolding pin
  pin-IsHome p day id doc h = go day.context refl
    where
      go :
          (ctx : Option TransitionDayContext)
          → day.context ≡ ctx
          → IsHome p (elim ctx [
            | none ↦ place_into_bucket day none id (visit_min doc)
            | some c ↦ pin_on (transition_side haversine_km doc c.origin c.destination) day id doc
          ])
      go none e = place_into_bucket-IsHome p none day id (visit_min doc) h
      go (some c) e =
          let side = transition_side haversine_km doc c.origin c.destination in
          let known : p ≡ (p.0, some c) = ap (λ k. (p.0, k)) (sym h.same_context ∙ e) in
          subst (λ q. IsHome q (pin_on side day id doc)) (sym known)
            (pin_on-IsHome p.0 c side day id doc (subst (λ q. IsHome q day) known h))

  module _ (docs : Dict PlaceDoc) (days : List (DayConfig × Option TransitionDayContext)) where
    pin_first-AllHomes :
        (slots : List DaySlot) (st : Partition) (id : String) (st' : Partition)
        → pin_first haversine_km docs (configs days) slots st id ≡ ok st'
        → AllHomes days st.days
        → AllHomes days st'.days
    unfolding pin_first
    pin_first-AllHomes [] st id st' h all = cc
    pin_first-AllHomes (slot ∷ slots) st id st' h all =
        elim (Option-cases (get_elem? st.days slot.day_index)) [
          | inl nothing ↦ cc (rw (nothing, pin_first) at h)
          | inr (day, found) ↦
              rw (sym (ok-eq (λ (p : Partition). p.days) (rw (found, pin_first) at h))) (
                AllHomes-set_at days st.days slot.day_index day _ all found
                  (λ p. pin-IsHome p day id (doc_of docs id)))
        ]

    pack_unpinned-AllHomes :
        (st : Partition) (p : PlaceDayPreference) (st' : Partition)
        → pack_unpinned haversine_km docs (configs days) st p ≡ ok st'
        → AllHomes days st.days
        → AllHomes days st'.days
    pack_unpinned-AllHomes st p st' done all =
        elim (pack_unpinned_cases haversine_km docs (configs days) st p st' done) [
          | inl t ↦ rw t.put (
              AllHomes-set_at days st.days t.best.day_index t.best.day _ all t.from.there
                (λ q. place_into_bucket-IsHome q t.best.side t.best.day p.place_id _))
          | inr l ↦ rw l.stays all
        ]

    empty_day-AllHomes :
        (ps : List (DayConfig × Option TransitionDayContext)) → AllHomes ps (map empty_day ps)
    empty_day-AllHomes [] = tt
    empty_day-AllHomes ((cfg, none) ∷ ps) = (
      record { same_config = refl; same_context = refl; sorted_out = (refl, refl, refl) },
      empty_day-AllHomes ps,
    )
    empty_day-AllHomes ((cfg, some ctx) ∷ ps) = (
      record { same_config = refl; same_context = refl; sorted_out = refl },
      empty_day-AllHomes ps,
    )

    -- Where the partition succeeds, it has the days of the trip in their order, each with its
    -- configuration and context; a day without a context has places in its bucket only, a day with one
    -- has none there.
    pub partition_places-AllHomes :
        (places : List PlaceDayPreference) (st : Partition)
        → partition_places haversine_km places days docs ≡ ok st
        → AllHomes days st.days
    unfolding partition_places place_pinned
    partition_places-AllHomes places st h =
        let pack = pack_unpinned haversine_km docs (configs days) in
        let start : Partition = record { days = map empty_day days; unassigned = [] } in
        let pinned = place_pinned haversine_km docs (configs days) in
        let (st₁, e₁, h₁) = >>=-eq-ok (for_each pinned start (those is_pinned places)) _ h in
        let (st₂, e₂, h₂) =
          >>=-eq-ok (for_each pack st₁ (sort_ranked docs (those is_flexible places))) _ h₁ in
        let keeps =
          for_each-keeps (λ (s : Partition). AllHomes days s.days) pack pack_unpinned-AllHomes in
        keeps (sort_ranked docs (those is_auto places)) st₂ st h₂ (
          keeps (sort_ranked docs (those is_flexible places)) st₁ st₂ e₂ (
            for_each-keeps (λ (s : Partition). AllHomes days s.days) pinned
              (λ s p s'. pin_first-AllHomes p.day_preferences s p.place_id s')
              (those is_pinned places) start st₁ e₁ (empty_day-AllHomes days)))

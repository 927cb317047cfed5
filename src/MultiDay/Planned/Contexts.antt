-- ===== src/MultiDay/Planned/Contexts.antt =====
-- The transfer contexts of a request that its validators accept.
use travel_llm_planner.Common.{
  ℕ, ◌≡◌, refl, ap, inl, inr, true, if◌then◌else◌, Option, none, some, List, [], ◌∷◌, All,
  Bool-cases, &&-eq-true, ◌==◌,
}
use travel_llm_planner.Common.Raising.{ok}
use travel_llm_planner.Accommodations.{
  AccommodationStay, DayAccommodationAnchors, resolve_day, is_transition_day,
}
use travel_llm_planner.Planner.{TransferBlock, DayConfig, MultiDayRequest, validate_transfer, every}
use travel_llm_planner.MultiDay.{TransitionDayContext, transfer_on, build_transition_day_context}
use travel_llm_planner.MultiDay.Windows.{IsInside, transition_day_context-IsInside}
use travel_llm_planner.MultiDay.Partition.{configs}
use travel_llm_planner.MultiDay.Trip.{context_of, days_with_contexts}

-- A day's context, if it has one, keeps to the day.
abbrev pub ContextFits : DayConfig → Option TransitionDayContext → Type 0
ContextFits cfg none = Unit {0}
ContextFits cfg (some ctx) = IsInside cfg ctx

abbrev IsSound : Option TransferBlock → Type 0
IsSound none = Unit {0}
IsSound (some t) = validate_transfer t ≡ true

transfer_on-IsSound :
    (ts : List TransferBlock) (day : ℕ) (found : Option TransferBlock)
    → every validate_transfer ts ≡ true
    → IsSound found
    → IsSound (transfer_on ts day found)
unfolding transfer_on
transfer_on-IsSound [] day found valid sound = sound
transfer_on-IsSound (t ∷ ts) day found valid sound =
    let (now, later) = &&-eq-true (validate_transfer t) _ valid in
    transfer_on-IsSound ts day (if t.date == day then some t else found) later
      (elim (Bool-cases (t.date == day)) [ inl here ↦ rw here now | inr other ↦ rw other sound ])

build_total :
    (t : TransferBlock) (start end : Option (ℕ × AccommodationStay)) (cfg : DayConfig)
    → validate_transfer t ≡ true
    → is_transition_day (record { start = start; end = end }) ≡ true
    → (ctx : TransitionDayContext) × (build_transition_day_context t
          (record { start = start; end = end })
          cfg
        ≡ ok ctx)
      × IsInside cfg ctx
unfolding is_transition_day build_transition_day_context
build_total t (some (i, origin)) (some (j, destination)) cfg valid changes =
    (_, refl, transition_day_context-IsInside t origin destination cfg)
build_total t none end cfg valid changes = cc
build_total t (some start) none cfg valid changes = cc

context_of_total :
    (found : Option TransferBlock) (anchors : DayAccommodationAnchors) (cfg : DayConfig)
    → IsSound found
    → (ctx : Option TransitionDayContext) × (context_of found anchors cfg ≡ ok ctx)
      × ContextFits cfg ctx
unfolding context_of
context_of_total none anchors cfg valid = (none, refl, tt)
context_of_total (some t) anchors cfg valid = elim (Bool-cases (is_transition_day anchors)) [
  | inl changes ↦
      let (ctx, built, within) = build_total t anchors.start anchors.end cfg valid changes in
      (some ctx, rw (changes, built) refl, within)
  | inr stays ↦ (none, rw stays refl, tt)
]

-- The contexts of all days, none of which raises.
pub days_with_contexts_total :
    (request : MultiDayRequest) (cfgs : List DayConfig)
    → every validate_transfer request.transfers ≡ true
    → (days : List (DayConfig × Option TransitionDayContext)) × (days_with_contexts request cfgs
        ≡ ok days)
      × (configs days ≡ cfgs)
      × All (λ (d : DayConfig × Option TransitionDayContext). ContextFits d.0 d.1) days
unfolding days_with_contexts
days_with_contexts_total request [] valid = ([], refl, refl, tt)
days_with_contexts_total request (cfg ∷ cfgs) valid =
    let (ctx, made, fits) =
      context_of_total (transfer_on request.transfers cfg.date none)
        (resolve_day request.accommodations cfg.date) cfg
        (transfer_on-IsSound request.transfers cfg.date none valid tt) in
    let (days, done, same_configs, all) = days_with_contexts_total request cfgs valid in
    (
      (cfg, ctx) ∷ days,
      rw (made, done) refl,
      ap (λ (cs : List DayConfig). cfg ∷ cs) same_configs,
      (fits, all),
    )

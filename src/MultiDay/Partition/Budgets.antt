-- ===== src/MultiDay/Partition/Budgets.antt =====
-- The visit budgets of the two sides of a transition day.
use travel_llm_planner.Common.{
  ℕ, ◌+◌, ◌≤◌, ◌≡◌, refl, sym, subst, ◌∙◌, ◌⊎◌, inr, true, Option, none, some, List, [], ◌∷◌, ◌++◌,
  String, arith, Dict,
}
use travel_llm_planner.Places.{PlaceDoc, doc_of, visit_min}
use travel_llm_planner.MultiDay.{TransitionDayContext}
use travel_llm_planner.MultiDay.Partition.{
  DayBuckets, TransitionSide, place_into_bucket, place_on, admits, candidate, candidate_on,
  transition_side,
}

-- The minutes that the visits of these places take.
unfoldable pub minutes : Dict PlaceDoc → List String → ℕ
minutes docs [] = 0
minutes docs (id ∷ ids) = visit_min (doc_of docs id) + minutes docs ids

minutes-append :
    (docs : Dict PlaceDoc) (ids : List String) (id : String)
    → minutes docs (ids ++ id ∷ []) ≡ minutes docs ids + visit_min (doc_of docs id)
unfolding minutes
minutes-append docs [] id = omega arith
minutes-append docs (i ∷ ids) id = omega (arith, minutes-append docs ids id)

module _ (docs : Dict PlaceDoc) where
  -- The fills are the minutes of what was put there.
  pub record IsTallied (day : DayBuckets) : Type 0 where
    pub whole : day.fill ≡ minutes docs day.bucket
    pub before : day.pre_fill ≡ minutes docs day.pre
    pub after : day.post_fill ≡ minutes docs day.post

  -- A side is as it was, or all its visits fit its budget.
  abbrev pub Fits : ℕ → List String → List String → Type 0
  Fits budget old new = (new ≡ old) ⊎ (minutes docs new ≤ budget)

  abbrev pub SidesFit : Option TransitionDayContext → DayBuckets → DayBuckets → Type 0
  SidesFit none old new = Unit {0}
  SidesFit (some ctx) old new =
      Fits ctx.pre_visit_budget_min old.pre new.pre
      × Fits ctx.post_visit_budget_min old.post new.post

  -- What packing makes of a day.
  pub record Grown (old new : DayBuckets) : Type 0 where
    pub same_context : new.context ≡ old.context
    pub tallied : IsTallied new
    pub sides : SidesFit new.context old new

  abbrev pub AllGrown : List DayBuckets → List DayBuckets → Type 0
  AllGrown [] [] = Unit {0}
  AllGrown (o ∷ os) (n ∷ ns) = Grown o n × AllGrown os ns
  AllGrown [] (n ∷ ns) = ⊥
  AllGrown (o ∷ os) [] = ⊥

  pub place_on-IsTallied :
      (ctx : Option TransitionDayContext) (side : Option TransitionSide) (day : DayBuckets)
      (id : String)
      → IsTallied day
      → IsTallied (place_on ctx side day id (visit_min (doc_of docs id)))
  unfolding place_on
  place_on-IsTallied none side day id t = record {
    whole = omega (arith, t.whole, minutes-append docs day.bucket id);
    before = t.before;
    after = t.after;
  }
  place_on-IsTallied (some ctx) (some TransitionSide.origin) day id t = record {
    whole = t.whole;
    before = omega (arith, t.before, minutes-append docs day.pre id);
    after = t.after;
  }
  place_on-IsTallied (some ctx) (some TransitionSide.destination) day id t = record {
    whole = t.whole;
    before = t.before;
    after = omega (arith, t.after, minutes-append docs day.post id);
  }
  place_on-IsTallied (some ctx) (some TransitionSide.no_coordinates) day id t = record {
    whole = t.whole;
    before = t.before;
    after = omega (arith, t.after, minutes-append docs day.post id);
  }
  place_on-IsTallied (some ctx) none day id t = record {
    whole = t.whole;
    before = t.before;
    after = omega (arith, t.after, minutes-append docs day.post id);
  }

  place_on_context :
      (ctx : Option TransitionDayContext) (side : Option TransitionSide) (day : DayBuckets)
      (id : String) (visit : ℕ)
      → (place_on ctx side day id visit).context ≡ day.context
  unfolding place_on
  place_on_context none side day id visit = refl
  place_on_context (some ctx) (some TransitionSide.origin) day id visit = refl
  place_on_context (some ctx) (some TransitionSide.destination) day id visit = refl
  place_on_context (some ctx) (some TransitionSide.no_coordinates) day id visit = refl
  place_on_context (some ctx) none day id visit = refl

  -- An admitted place leaves both sides fitting.
  admits-SidesFit :
      (ctx : TransitionDayContext) (side : TransitionSide) (old day : DayBuckets) (id : String)
      → IsTallied day
      → SidesFit (some ctx) old day
      → admits ctx day (visit_min (doc_of docs id)) side ≡ true
      → SidesFit
          (some ctx)
          old
          (place_on (some ctx) (some side) day id (visit_min (doc_of docs id)))
  unfolding admits place_on
  admits-SidesFit ctx TransitionSide.no_coordinates old day id t fits h = cc
  admits-SidesFit ctx TransitionSide.origin old day id t (pre, post) h =
      (inr (let a = minutes-append docs day.pre id in let b = t.before in ground arith), post)
  admits-SidesFit ctx TransitionSide.destination old day id t (pre, post) h =
      (pre, inr (let a = minutes-append docs day.post id in let b = t.after in ground arith))

  module _ (haversine_km : ℕ → ℕ → ℕ → ℕ → ℕ) where
    candidate_on-SidesFit :
        (ctx : Option TransitionDayContext) (i : ℕ) (old day : DayBuckets) (id : String)
        → IsTallied day
        → SidesFit ctx old day
        → (candidate_on haversine_km ctx i day (doc_of docs id)).is_admissible ≡ true
        → SidesFit ctx old (
            place_on ctx
              (candidate_on haversine_km ctx i day (doc_of docs id)).side
              day
              id
              (visit_min (doc_of docs id)))
    unfolding candidate_on
    candidate_on-SidesFit none i old day id t fits h = tt
    candidate_on-SidesFit (some ctx) i old day id t fits h =
        admits-SidesFit ctx
          (transition_side haversine_km (doc_of docs id) ctx.origin ctx.destination) old day id t
          fits h

    pub candidate-Grown :
        (i : ℕ) (old day : DayBuckets) (id : String)
        → Grown old day
        → (candidate haversine_km i day (doc_of docs id)).is_admissible ≡ true
        → Grown old (
            place_into_bucket day
              (candidate haversine_km i day (doc_of docs id)).side
              id
              (visit_min (doc_of docs id)))
    unfolding candidate place_into_bucket
    candidate-Grown i old day id g h = record {
      same_context = place_on_context day.context _ day id _ ∙ g.same_context;
      tallied = place_on-IsTallied day.context _ day id g.tallied;
      sides =
          subst
            (λ c. SidesFit c old (
              place_on day.context (candidate haversine_km i day (doc_of docs id)).side day id
                (visit_min (doc_of docs id))))
            (sym (place_on_context day.context _ day id _))
            (candidate_on-SidesFit day.context i old day id g.tallied g.sides h);
    }

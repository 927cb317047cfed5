-- ===== src/Service/MustSee.antt =====
-- What `_solve_with_priorities` returns: it loses no place, and a must-see place only if it has to.
use travel_llm_planner.Common.{
  ℕ, ◌+◌, ◌≤◌, ◌≡◌, refl, sym, ap, ◌∙◌, subst, ◌⊎◌, inl, inr, Bool, true, false, Option, none, some,
  String, List, [], ◌∷◌, ◌++◌, arith, Bool-cases, Dict, length, Perm,
}
use travel_llm_planner.Common.Counting.{occurrences, SameItems, occurrences-append}
use travel_llm_planner.Window.{TimeWindow}
use travel_llm_planner.Matrix.{DistanceMatrix}
use travel_llm_planner.Engine.Schedule.{is_feasible}
use travel_llm_planner.Engine.Nearest.{contains, missing}
use travel_llm_planner.Engine.Nearest.Route.{IsFreeAnchor}
use travel_llm_planner.Service.Priorities.{
  Solved, attempt, tiers, weights_of, select, is_must_see, is_not_optional, any_must_see,
  dropped_of, solve_tier, solve_with_priorities,
}
use travel_llm_planner.Service.Counts.{
  occurrences-select, occurrences-missing, contains-occurrences,
}
use travel_llm_planner.Service.Accounts.{IsDistinct, Outside, Accounts}
use travel_llm_planner.Service.Tiers.{
  ends_of, solve_tier-Accounts, solve_tier-IsUsable, solve_tier-le,
}
use travel_llm_planner.Service.Weights.{
  musts, any_must_see-musts, any_must_see-occurrences, musts-select, is_must_see-is_not_optional,
}
use travel_llm_planner.Service.Guarantee.{
  IsSound, Final, tried, AsMany, first_tier-Final, try_tiers-keeps,
}
use travel_llm_planner.Service.Kept.{
  length-select, select_whole, select-select, select-le, anchors-length, Accounts-IsSound,
}

-- A tier, or what the solver drops to get it, has each node.
tier_whole :
    (test : String → Bool) (ids : List String) (x : String)
    → IsDistinct ids
    → occurrences x (select test ids) + occurrences x (missing ids (select test ids))
      ≡ occurrences x ids
tier_whole test ids x distinct =
    let e = occurrences-select test x ids in
    let m = occurrences-missing x ids (select test ids) in
    let (seen, unseen) = contains-occurrences x (select test ids) in
    let once = distinct x in
    elim (Bool-cases (contains (select test ids) x)) [
      | inl hit ↦
          let k = seen hit in
          let gone = rw hit at m in
          elim (Bool-cases (test x)) [
            | inl kept ↦ let f = rw kept at e in omega arith
            | inr not_kept ↦ let f = rw not_kept at e in omega arith
          ]
      | inr miss ↦ let k = unseen miss in let all = rw miss at m in omega arith
    ]

all_whole :
    (ids : List String) (x : String)
    → IsDistinct ids
    → occurrences x ids + occurrences x (missing ids ids) ≡ occurrences x ids
all_whole ids x distinct =
    let m = occurrences-missing x ids ids in
    let (seen, unseen) = contains-occurrences x ids in
    elim (Bool-cases (contains ids x)) [
      | inl hit ↦ let gone = rw hit at m in omega arith
      | inr miss ↦ let k = unseen miss in let all = rw miss at m in omega arith
    ]

module _ (walk : List String → List String) (matrix : DistanceMatrix)
    (time_windows : Dict TimeWindow) (visit_durations_s : Dict ℕ) (day_start_s day_end_s : ℕ)
    (walks : (s : List String) → Perm (walk s) s) (day : day_start_s ≤ day_end_s)
    (start_anchor end_anchor : Option String)
    (free : IsFreeAnchor time_windows visit_durations_s end_anchor) (ids : List String)
    (distinct : IsDistinct ids) (outside : Outside (ends_of start_anchor end_anchor) ids)
    (apart : IsDistinct (ends_of start_anchor end_anchor)) (priorities : Dict String) where
  abbrev solve : List String → List String × List String
  solve =
      solve_tier walk matrix time_windows visit_durations_s day_start_s day_end_s start_anchor
        end_anchor (weights_of priorities ids)

  abbrev solved : Option Solved
  solved =
      solve_with_priorities walk matrix time_windows visit_durations_s day_start_s day_end_s
        start_anchor end_anchor ids priorities

  abbrev must_tier : List String
  must_tier = select (is_must_see priorities) ids

  abbrev wanted_tier : List String
  wanted_tier = select (is_not_optional priorities) ids

  accounted :
      (tier : List String)
      → ((x : String) → occurrences x tier ≤ occurrences x ids)
      → Accounts (ends_of start_anchor end_anchor) tier (solve tier)
  accounted tier le =
      solve_tier-Accounts walk matrix time_windows visit_durations_s day_start_s day_end_s walks day
        start_anchor end_anchor (weights_of priorities ids) tier free
        (λ x. let a = le x in let b = distinct x in omega arith)
        (λ x m. let a = le x in let b = outside x m in omega arith)

  -- Nothing of the request gets lost: what is returned is given up or holds nodes and anchors.
  abbrev pub KeepsAll : Solved → Type 0
  KeepsAll best =
      ((best.route ≡ []) × SameItems (best.solver_skipped ++ dropped_of ids best) ids
        ⊎ SameItems (best.route ++ best.solver_skipped ++ dropped_of ids best)
            (ids ++ ends_of start_anchor end_anchor))
      × ((best.route ≡ [])
          ⊎ (is_feasible best.route matrix time_windows visit_durations_s day_start_s day_end_s
              ≡ true))
      × ((x : String) → occurrences x best.solver_skipped ≤ occurrences x ids)

  with_dropped :
      (tier route skipped : List String)
      → Accounts (ends_of start_anchor end_anchor) tier (route, skipped)
      → ((x : String) → occurrences x tier + occurrences x (missing ids tier) ≡ occurrences x ids)
      → (route ≡ []) × SameItems (skipped ++ missing ids tier) ids
        ⊎ SameItems (route ++ skipped ++ missing ids tier) (ids ++ ends_of start_anchor end_anchor)
  with_dropped tier route skipped (inl (nil, left)) whole = inl (
    nil,
    (λ x.
        let a = left x in
        let b = whole x in let c = occurrences-append x skipped (missing ids tier) in omega arith),
  )
  with_dropped tier route skipped (inr all) whole = inr λ x.
      let a = all x in
      let b = whole x in
      let d = occurrences-append x (route ++ skipped) (missing ids tier) in
      let e = occurrences-append x route skipped in
      let f = occurrences-append x tier (ends_of start_anchor end_anchor) in
      let g = occurrences-append x ids (ends_of start_anchor end_anchor) in omega arith

  -- No must-see place is dropped.
  abbrev DropsNone : Solved → Type 0
  DropsNone s =
      (x : String) → is_must_see priorities x ≡ true → occurrences x (dropped_of ids s) ≡ 0

  attempt-KeepsAll :
      (tier : List String)
      → ((x : String) → occurrences x tier ≤ occurrences x ids)
      → ((x : String) → occurrences x tier + occurrences x (missing ids tier) ≡ occurrences x ids)
      → ((x : String) → is_must_see priorities x ≡ true → occurrences x tier ≡ occurrences x ids)
      → KeepsAll (attempt solve priorities (weights_of priorities ids) tier)
        × DropsNone (attempt solve priorities (weights_of priorities ids) tier)
  unfolding attempt dropped_of
  attempt-KeepsAll tier le whole musts_there = (
    (
      with_dropped tier (solve tier).0 (solve tier).1 (accounted tier le) whole,
      solve_tier-IsUsable walk matrix time_windows visit_durations_s day_start_s day_end_s walks day
          start_anchor end_anchor (weights_of priorities ids) tier free,
      (λ x.
          let a =
            solve_tier-le walk matrix time_windows visit_durations_s day_start_s day_end_s walks day
              start_anchor end_anchor (weights_of priorities ids) tier free
              (λ y. let l = le y in let b = distinct y in omega arith) apart
              (λ y m. let l = le y in let b = outside y m in omega arith) x in
          let l = le x in omega arith),
    ),
    (λ x must_x. let a = whole x in let b = musts_there x must_x in omega arith),
  )

  selected :
      (test : String → Bool)
      → ((n : String) → is_must_see priorities n ≡ true → test n ≡ true)
      → KeepsAll (attempt solve priorities (weights_of priorities ids) (select test ids))
        × DropsNone (attempt solve priorities (weights_of priorities ids) (select test ids))
  selected test keeps =
      attempt-KeepsAll (select test ids) (λ x. select-le test x ids)
        (λ x. tier_whole test ids x distinct)
        (λ x must_x. occurrences-select test x ids ∙ rw (keeps x must_x) refl)

  -- A must-see place that is not left out is on the route.
  on_route :
      (final : Solved) (x : String)
      → KeepsAll final
      → 1 ≤ occurrences x ids
      → occurrences x final.solver_skipped ≡ 0
      → occurrences x (dropped_of ids final) ≡ 0
      → 1 ≤ occurrences x final.route
  on_route final x ((inl (nil, all)), usable, le) there left gone =
      let a = all x in
      let b = occurrences-append x final.solver_skipped (dropped_of ids final) in
      absurd (omega arith)
  on_route final x ((inr all), usable, le) there left gone =
      let a = all x in
      let b = occurrences-append x final.route final.solver_skipped in
      let c = occurrences-append x (final.route ++ final.solver_skipped) (dropped_of ids final) in
      let d = occurrences-append x ids (ends_of start_anchor end_anchor) in omega arith

  module _ (known : (n : String) → is_must_see priorities n ≡ true → contains ids n ≡ true)
      (few : length ids ≤ 50) where
    sound :
        (tier : List String)
        → ((x : String) → occurrences x tier ≤ occurrences x ids)
        → length tier ≤ length ids
        → musts priorities tier ≡ musts priorities ids
        → IsSound solve priorities ids known (tried solve priorities ids known tier)
    sound tier le shorter same_musts =
        Accounts-IsSound priorities ids (ends_of start_anchor end_anchor) known outside solve tier
          (accounted tier le) (anchors-length start_anchor end_anchor) (omega arith) same_musts

    complete_of :
        (tier : List String) (final : Solved)
        → IsSound solve priorities ids known (tried solve priorities ids known tier)
        → IsSound solve priorities ids known final
        → AsMany solve priorities ids known (tried solve priorities ids known tier) final
        → any_must_see priorities (solve tier).1 ≡ false
        → musts priorities final.solver_skipped ≡ 0
    unfolding attempt
    complete_of tier final s s' many complete =
        let none_left = (any_must_see-musts priorities (solve tier).1).0 complete in
        let a = s.whole in let b = s'.whole in omega arith

    none_left :
        (tier : List String) (final : Solved)
        → (tier ≡ ids) ⊎ (tier ≡ wanted_tier) ⊎ (tier ≡ must_tier)
        → IsSound solve priorities ids known (tried solve priorities ids known ids)
        → IsSound solve priorities ids known (tried solve priorities ids known wanted_tier)
        → IsSound solve priorities ids known (tried solve priorities ids known must_tier)
        → Final solve priorities ids known
            (tried solve priorities ids known ids)
            (wanted_tier ∷ must_tier ∷ [])
            final
        → any_must_see priorities (solve tier).1 ≡ false
        → musts priorities final.solver_skipped ≡ 0
    none_left tier final which s₀ s₁ s₂ f complete = elim f.after [
      | inr all_there ↦ all_there
      | inl (many₁, (many₂, _)) ↦ elim which [
        | inl e ↦
            complete_of ids final s₀ f.sound f.before
              (subst (λ t. any_must_see priorities (solve t).1 ≡ false) e complete)
        | inr (inl e) ↦
            complete_of wanted_tier final s₁ f.sound many₁
              (subst (λ t. any_must_see priorities (solve t).1 ≡ false) e complete)
        | inr (inr e) ↦
            complete_of must_tier final s₂ f.sound many₂
              (subst (λ t. any_must_see priorities (solve t).1 ≡ false) e complete)
      ]
    ]

    -- Take at most 50 nodes that differ, two anchors at most that are no nodes and differ, an end
    -- anchor without a window and a visit, must-see priorities for nodes only, and a day that does not
    -- end before it starts; Python walks each set over its members. Then the solver returns. Its
    -- route, the places left out and the places dropped together are the nodes and the anchors, or the
    -- route is empty and the others are the nodes. A route that is not empty is feasible, and nothing
    -- is left out more often than it is a node. If one of the three tiers on its own leaves out no
    -- must-see place, then every must-see place is on the route.
    pub solve_with_priorities-KeepsAll :
        (final : Solved) × (solved ≡ some final)
        × KeepsAll final
        × ((tier : List String)
            → (tier ≡ ids) ⊎ (tier ≡ wanted_tier) ⊎ (tier ≡ must_tier)
            → any_must_see priorities (solve tier).1 ≡ false
            → (x : String) → is_must_see priorities x ≡ true
            → 1 ≤ occurrences x final.route)
    unfolding solve_with_priorities tiers
    solve_with_priorities-KeepsAll =
        let keeps = λ (x : String). select-le (is_not_optional priorities) x ids in
        let keeps' = λ (x : String). select-le (is_must_see priorities) x ids in
        let m₁ =
          musts-select priorities (is_not_optional priorities) ids
            (is_must_see-is_not_optional priorities) in
        let m₂ = musts-select priorities (is_must_see priorities) ids (λ n h. h) in
        let s₀ = sound ids (λ x. omega arith) (omega arith) refl in
        let s₁ = sound wanted_tier keeps (length-select (is_not_optional priorities) ids) m₁ in
        let s₂ = sound must_tier keeps' (length-select (is_must_see priorities) ids) m₂ in
        let nested =
          select-select (is_must_see priorities) (is_not_optional priorities) ids
            (is_must_see-is_not_optional priorities) in
        let (final, done, f) =
          first_tier-Final solve priorities ids known ids (wanted_tier ∷ must_tier ∷ []) s₀
            (s₁, (s₂, tt))
            (
              select_whole (is_not_optional priorities) ids,
              (
                (λ same.
                    sym nested
                    ∙ select_whole (is_must_see priorities) wanted_tier (ap length nested ∙ same)),
                tt,
              ),
            ) in
        let (kept, dropped) =
          try_tiers-keeps solve priorities ids known (λ s. KeepsAll s × DropsNone s) none none
            (ids ∷ wanted_tier ∷ must_tier ∷ []) final done
            (
              attempt-KeepsAll ids (λ x. omega arith) (λ x. all_whole ids x distinct) (λ x h. refl),
              (
                selected (is_not_optional priorities) (is_must_see-is_not_optional priorities),
                (selected (is_must_see priorities) (λ n h. h), tt),
              ),
            )
            (λ b e. cc) in
        (
          final,
          done,
          kept,
          λ tier which complete x must_x.
              on_route final x kept ((contains-occurrences x ids).0 (known x must_x))
                (any_must_see-occurrences priorities final.solver_skipped x
                  ((any_must_see-musts priorities final.solver_skipped).1
                    (none_left tier final which s₀ s₁ s₂ f complete))
                  must_x)
                (dropped x must_x),
        )

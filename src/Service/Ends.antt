-- ===== src/Service/Ends.antt =====
-- The anchors of a request, its nodes, and how the parts of an answer add up.
use travel_llm_planner.Common.{
  ℕ, ◌+◌, ◌≤◌, ◌≡◌, refl, sym, ap, subst, ◌⊎◌, inl, inr, Bool, true, false, Option, none, some,
  String, List, [], ◌∷◌, ◌++◌, arith, same, same→eq, Bool-cases, Dict, if◌then◌else◌, length, Perm,
}
use travel_llm_planner.Common.Counting.{occurrences, SameItems, occurrences-append}
use travel_llm_planner.Clock.{resolve_day_bound_s}
use travel_llm_planner.Window.{TimeWindow}
use travel_llm_planner.Matrix.{DistanceMatrix}
use travel_llm_planner.Places.{skipped_ids, PlaceDoc}
use travel_llm_planner.Engine.Schedule.{is_feasible}
use travel_llm_planner.Engine.TwoOpt.{two_opt}
use travel_llm_planner.Engine.TwoOpt.Reversal.{perm-length}
use travel_llm_planner.Engine.TwoOpt.Result.{two_opt-Improved}
use travel_llm_planner.Engine.Nearest.Route.{IsFreeAnchor}
use travel_llm_planner.Service.{OptimizeRequest}
use travel_llm_planner.Service.Eligible.{Eligible, eligible}
use travel_llm_planner.Service.Priorities.{Solved, dropped_of}
use travel_llm_planner.Service.Accounts.{IsDistinct, Outside}
use travel_llm_planner.Service.Tiers.{ends_of, missing-le}
use travel_llm_planner.Service.Route.{node_ids, start_anchor_id, end_anchor_id}
use travel_llm_planner.Service.Filtered.{
  IsNode, eligible-occurrences, eligible-IsNode, eligible-IsStranger,
}
use travel_llm_planner.Service.Stops.{skips}

nil_of_perm : (xs : List String) → Perm xs [] → xs ≡ []
nil_of_perm [] p = refl
nil_of_perm (x ∷ xs) p = let e = perm-length p in absurd (omega arith)

pub dropped_of-le :
    (x : String) (ids : List String) (best : Solved)
    → occurrences x (dropped_of ids best) ≤ occurrences x ids
unfolding dropped_of
dropped_of-le x ids best = missing-le x ids best.candidates

-- 2-opt leaves a usable route usable.
pub two_opt-usable :
    (matrix : DistanceMatrix) (time_windows : Dict TimeWindow) (visit_durations_s : Dict ℕ)
    (s d : ℕ) (route : List String) (n : ℕ) (pin_end : Bool)
    → (route ≡ []) ⊎ (is_feasible route matrix time_windows visit_durations_s s d ≡ true)
    → (two_opt matrix time_windows visit_durations_s s d route n pin_end ≡ [])
      ⊎ (is_feasible
            (two_opt matrix time_windows visit_durations_s s d route n pin_end)
            matrix
            time_windows
            visit_durations_s
            s
            d
          ≡ true)
two_opt-usable m tw vd s d route n pin_end usable =
    let better = two_opt-Improved m tw vd s d route n pin_end in
    elim usable [
      | inl nil ↦ inl (
          nil_of_perm _
            (subst (λ r. Perm (two_opt m tw vd s d route n pin_end) r) nil better.same_nodes))
      | inr fine ↦ elim better.better [
        | inl same_route ↦ inr (subst (λ r. is_feasible r m tw vd s d ≡ true) (sym same_route) fine)
        | inr (shorter, also_fine) ↦ inr also_fine
      ]
    ]

-- The identifiers of the request's places, none of which is an anchor's.
pub record IsPlaceList (ids : List String) : Type 0 where
  pub distinct : IsDistinct ids
  pub few : length ids ≤ 50
  pub no_start : occurrences start_anchor_id ids ≡ 0
  pub no_end : occurrences end_anchor_id ids ≡ 0

-- The anchors that `optimize_route` may use.
abbrev pub IsAnchorOf : String → Option String → Type 0
IsAnchorOf id anchor = (anchor ≡ none) ⊎ (anchor ≡ some id)

-- The anchors are two, as far as they are used, and the loop over the stops passes over them alone.
pub ends-skips :
    (start_id end_id : Option String)
    → IsAnchorOf start_anchor_id start_id
    → IsAnchorOf end_anchor_id end_id
    → (docs : Dict PlaceDoc) (e : Eligible) (x : String)
    → occurrences x (ends_of start_id end_id) ≡ (if skips start_id end_id docs e x then 1 else 0)
unfolding occurrences
ends-skips start_id end_id (inl e) (inl f) docs el x = rw (e, f) refl
ends-skips start_id end_id (inl e) (inr f) docs el x = rw (e, f) (ground arith)
ends-skips start_id end_id (inr e) (inl f) docs el x = rw (e, f) (ground arith)
ends-skips start_id end_id (inr e) (inr f) docs el x =
    rw (e, f)
      (elim (Bool-cases (same x end_anchor_id)) [
        | inl hit ↦
            let other : same x start_anchor_id ≡ false =
              subst (λ k. same k start_anchor_id ≡ false) (sym (same→eq x end_anchor_id hit))
                refl in
            rw (hit, other) (omega arith)
        | inr miss ↦ rw miss (ground arith)
      ])

pub ends-Outside :
    (start_id end_id : Option String) (ids : List String)
    → IsAnchorOf start_anchor_id start_id
    → IsAnchorOf end_anchor_id end_id
    → IsPlaceList ids
    → Outside (ends_of start_id end_id) ids
unfolding occurrences
ends-Outside start_id end_id ids is_start is_end places x m =
    elim (Bool-cases (same x start_anchor_id)) [
      | inl hit ↦
          subst (λ k. occurrences k ids ≡ 0) (sym (same→eq x start_anchor_id hit)) places.no_start
      | inr miss ↦ elim (Bool-cases (same x end_anchor_id)) [
        | inl hit ↦
            subst (λ k. occurrences k ids ≡ 0) (sym (same→eq x end_anchor_id hit)) places.no_end
        | inr also ↦ absurd (elim is_start [
          | inl e ↦ elim is_end [
            | inl f ↦ let k = rw (e, f) at m in omega (arith, k)
            | inr f ↦ let k = rw (e, f, also) at m in omega (arith, k)
          ]
          | inr e ↦ elim is_end [
            | inl f ↦ let k = rw (e, f, miss) at m in omega (arith, k)
            | inr f ↦ let k = rw (e, f, miss, also) at m in omega (arith, k)
          ]
        ])
      ]
    ]

module _ (walk : List String → List String) (walks : (s : List String) → Perm (walk s) s)
    (request : OptimizeRequest) (docs : Dict PlaceDoc) (weekday : Option ℕ) where
  abbrev pub opens : ℕ
  opens = resolve_day_bound_s request.day_start_hour request.day_start_time

  abbrev pub closes : ℕ
  closes = resolve_day_bound_s request.day_end_hour request.day_end_time

  abbrev pub e : Eligible
  e = eligible docs opens closes weekday request.place_ids

  abbrev pub nodes : List String
  nodes = node_ids e.coords

  pub node_le : (x : String) → occurrences x nodes ≤ occurrences x request.place_ids
  node_le x =
      let o = eligible-occurrences docs opens closes weekday x request.place_ids in omega arith

  pub node : (x : String) → 1 ≤ occurrences x nodes → IsNode docs e x
  node x m = eligible-IsNode docs opens closes weekday x request.place_ids m

  pub free_end :
      (end_id : Option String)
      → IsAnchorOf end_anchor_id end_id
      → IsPlaceList request.place_ids
      → IsFreeAnchor e.time_windows e.visit_durations_s end_id
  free_end end_id (inl f) places = rw f tt
  free_end end_id (inr f) places =
      let st =
        eligible-IsStranger docs opens closes weekday end_anchor_id request.place_ids
          places.no_end in
      rw f (st.no_window, st.no_visit)

  -- A stop that is no anchor is a node.
  pub stop_node :
      (start_id end_id : Option String) (route skipped dropped : List String) (x : String)
      → (route ≡ []) ⊎ SameItems (route ++ skipped ++ dropped) (nodes ++ ends_of start_id end_id)
      → occurrences x (ends_of start_id end_id) ≡ 0
      → 1 ≤ occurrences x route
      → 1 ≤ occurrences x nodes
  unfolding occurrences
  stop_node start_id end_id route skipped dropped x (inl nil) free m =
      let k = ap (occurrences x) nil in absurd (omega arith)
  stop_node start_id end_id route skipped dropped x (inr all) free m =
      let a = all x in
      let b = occurrences-append x (route ++ skipped) dropped in
      let c = occurrences-append x route skipped in
      let d = occurrences-append x nodes (ends_of start_id end_id) in omega arith

  -- The numbers of the steps and the skipped places add up.
  pub adds_up :
      (x : String) (b : Bool) (route solver_skipped dropped ends : List String) (steps skipped : ℕ)
      → (route ≡ []) × SameItems (solver_skipped ++ dropped) nodes
        ⊎ SameItems (route ++ solver_skipped ++ dropped) (nodes ++ ends)
      → occurrences x ends ≡ (if b then 1 else 0)
      → (1 ≤ occurrences x ends → occurrences x request.place_ids ≡ 0)
      → occurrences x solver_skipped ≤ occurrences x nodes
      → occurrences x dropped ≤ occurrences x nodes
      → steps ≡ (if b then 0 else occurrences x route)
      → skipped
        ≡ occurrences x (skipped_ids e.skipped)
          + occurrences x dropped
          + occurrences x solver_skipped
      → steps + skipped ≡ occurrences x request.place_ids
  unfolding occurrences
  adds_up x true route solver_skipped dropped ends steps skipped kept ending out le le' s k =
      let none_there = out (omega arith) in
      let o = eligible-occurrences docs opens closes weekday x request.place_ids in omega arith
  adds_up x false route solver_skipped dropped ends steps skipped (inl (nil, all)) ending out le le'
        s k =
      let a = all x in
      let b = occurrences-append x solver_skipped dropped in
      let c = ap (occurrences x) nil in
      let o = eligible-occurrences docs opens closes weekday x request.place_ids in omega arith
  adds_up x false route solver_skipped dropped ends steps skipped (inr all) ending out le le' s k =
      let a = all x in
      let b = occurrences-append x (route ++ solver_skipped) dropped in
      let c = occurrences-append x route solver_skipped in
      let d = occurrences-append x nodes ends in
      let o = eligible-occurrences docs opens closes weekday x request.place_ids in omega arith

-- ===== src/Service/Accounts.antt =====
-- One attempt of the solver accounts for every place of its tier.
use mathlib.Core.List.{append-nil}
use travel_llm_planner.Common.{
  ℕ, zero, suc, ◌+◌, ◌≤◌, ◌≡◌, refl, sym, ap, ◌∙◌, subst, ◌⊎◌, inl, inr, Option, none, some, String,
  List, [], ◌∷◌, ◌++◌, arith, same, same→eq, same_refl, Bool-cases, Option-cases, Dict, lookup,
  Perm, ltb, last_or, if◌then◌else◌,
}
use travel_llm_planner.Common.Counting.{
  occurrences, SameItems, one_if_same, occurrences-append, occurrences-perm,
}
use travel_llm_planner.Window.{TimeWindow}
use travel_llm_planner.Matrix.{DistanceMatrix, get}
use travel_llm_planner.Engine.Schedule.{visit_s}
use travel_llm_planner.Engine.Nearest.{
  Attempt, State, discard, to_set, contains, missing, attempts, nn_from_start, nearest_neighbor,
  first_start, close_route,
}
use travel_llm_planner.Engine.Nearest.Route.{
  anchors, IsFreeAnchor, IsAttempt, nn_from_start-IsAttempt,
}
use travel_llm_planner.Engine.Nearest.Winner.{improve_cases}
use travel_llm_planner.Service.Counts.{
  occurrences-discard, occurrences-to_set, occurrences-missing, contains-occurrences,
}

-- No identifier stands there twice.
abbrev pub IsDistinct : List String → Type 0
IsDistinct nodes = (x : String) → occurrences x nodes ≤ 1

-- The anchors are no nodes.
abbrev pub Outside : List String → List String → Type 0
Outside ends nodes = (x : String) → 1 ≤ occurrences x ends → occurrences x nodes ≡ 0

-- The attempt is given up with all nodes left out; or route and left-out nodes together are the nodes
-- and the anchors.
abbrev pub Accounts : List String → List String → List String × List String → Type 0
Accounts ends nodes result =
    (result.0 ≡ []) × SameItems result.1 nodes ⊎ SameItems (result.0 ++ result.1) (nodes ++ ends)

occurrences-others :
    (x start : String) (nodes : List String)
    → IsDistinct nodes
    → occurrences x (start ∷ discard start (to_set nodes))
      ≡ (if same x start then 1 else occurrences x nodes)
unfolding occurrences
occurrences-others x start nodes distinct =
    let gone = occurrences-discard x start (to_set nodes) in
    let set = occurrences-to_set x nodes in
    let once = distinct x in
    elim (Bool-cases (same x start)) [
      | inl hit ↦ let e = rw hit at gone in rw hit (omega (arith, e))
      | inr miss ↦ let e = rw miss at gone in rw miss (omega (arith, e, set, once))
    ]

all_there :
    (x start : String) (nodes : List String)
    → IsDistinct nodes
    → 1 ≤ occurrences start nodes
    → (if same x start then 1 else occurrences x nodes) ≡ occurrences x nodes
all_there x start nodes distinct member = elim (Bool-cases (same x start)) [
  | inl hit ↦
      let e = ap (λ n. occurrences n nodes) (same→eq x start hit) in
      let once = distinct start in rw hit (omega arith)
  | inr miss ↦ rw miss refl
]

at_most_one : (a b : ℕ) → a ≤ 1 → b ≤ 1 → (1 ≤ b → a ≡ 0) → a + b ≤ 1
at_most_one a zero le le' apart = omega arith
at_most_one a (suc b) le le' apart = let e = apart (omega arith) in omega arith

module _ (walk : List String → List String) (matrix : DistanceMatrix)
    (time_windows : Dict TimeWindow) (visit_durations_s : Dict ℕ) (day_start_s day_end_s : ℕ)
    (end_anchor : Option String) where
  abbrev from : String → List String → List String × List String
  from = nn_from_start walk matrix time_windows visit_durations_s day_start_s day_end_s end_anchor

  -- A route that is not given up ends in the anchor.
  abbrev Closed : List String → Type 0
  Closed route = (route ≡ []) ⊎ (front : List String) × (route ≡ front ++ anchors end_anchor)

  close_route-Closed :
      (anchor : Option String) (start : String) (nodes : List String) (st : State)
      → ((close_route walk matrix day_end_s anchor start nodes st).0 ≡ [])
        ⊎ (front : List String) × ((close_route walk matrix day_end_s anchor start nodes st).0
            ≡ front ++ anchors anchor)
  unfolding close_route
  close_route-Closed none start nodes st = inr (st.route, rw append-nil refl)
  close_route-Closed (some a) start nodes st =
      elim (Option-cases (get matrix (last_or start st.route) a)) [
        | inl nothing ↦ rw (nothing, close_route) (inl refl)
        | inr (entry, found) ↦ elim (Bool-cases (ltb day_end_s (st.current_s + entry.duration_s))) [
          | inl late ↦ rw (found, late, close_route) (inl refl)
          | inr timely ↦ rw (found, timely, close_route) (inr (st.route, refl))
        ]
      ]

  pub nn_from_start-Closed : (start : String) (nodes : List String) → Closed (from start nodes).0
  unfolding nn_from_start
  nn_from_start-Closed start nodes =
      elim (Option-cases
        (first_start day_start_s (lookup start time_windows) (visit_s visit_durations_s start))) [
          | inl never ↦ rw (never, nn_from_start) (inl refl)
          | inr (begin, found) ↦
              elim (Bool-cases (ltb day_end_s (begin + visit_s visit_durations_s start))) [
                | inl late ↦ rw (found, late, nn_from_start) (inl refl)
                | inr timely ↦
                    rw (found, timely, nn_from_start) (close_route-Closed end_anchor start nodes _)
              ]
        ]

  module _ (walks : (s : List String) → Perm (walk s) s) (day : day_start_s ≤ day_end_s)
      (free : IsFreeAnchor time_windows visit_durations_s end_anchor) where
    IsAttempt-of :
        (start : String) (nodes : List String)
        → IsAttempt walk matrix time_windows visit_durations_s day_start_s day_end_s end_anchor
            end_anchor start nodes
            (from start nodes)
    IsAttempt-of start nodes =
        nn_from_start-IsAttempt walk matrix time_windows visit_durations_s day_start_s day_end_s
          end_anchor walks day start nodes free

    -- From a start anchor, which is no node.
    pub anchored-Accounts :
        (start : String) (nodes : List String)
        → IsDistinct nodes
        → occurrences start nodes ≡ 0
        → Accounts (start ∷ anchors end_anchor) nodes (from start nodes)
    unfolding occurrences
    anchored-Accounts start nodes distinct outside = elim (IsAttempt-of start nodes) [
      | inl (e, f) ↦ inl (e, (λ x. ap (occurrences x) f))
      | inr (rest, headed, fine, same_nodes) ↦ inr λ x.
          let whole = occurrences-perm x same_nodes in
          let split =
            occurrences-append x (start ∷ discard start (to_set nodes)) (anchors end_anchor) in
          let others = occurrences-others x start nodes distinct in
          let sum = occurrences-append x nodes (start ∷ anchors end_anchor) in
          elim (Bool-cases (same x start)) [
            | inl hit ↦
                let e = rw hit at others in
                let k : one_if_same x start ≡ 1 = rw hit refl in
                let none_there : occurrences x nodes ≡ 0 =
                  ap (λ n. occurrences n nodes) (same→eq x start hit) ∙ outside in
                omega arith
            | inr miss ↦
                let e = rw miss at others in
                let k : one_if_same x start ≡ 0 = rw miss refl in omega arith
          ]
    ]

    -- A route that `nearest_neighbor` may keep: none, or one of the attempts from a node.
    abbrev Tried : List String → List String → Type 0
    Tried nodes route =
        (route ≡ [])
        ⊎ (start : String) × (1 ≤ occurrences start nodes) × (route ≡ (from start nodes).0)

    module _ (weights : Option (Dict ℕ)) where
      attempts-Tried :
          (nodes starts : List String) (best : Attempt)
          → ((x : String) → 1 ≤ occurrences x starts → 1 ≤ occurrences x nodes)
          → Tried nodes best.route
          → Tried nodes
              (attempts walk matrix time_windows visit_durations_s day_start_s day_end_s end_anchor
                weights nodes starts best).route
      unfolding attempts occurrences
      attempts-Tried nodes [] best within tried = tried
      attempts-Tried nodes (s ∷ ss) best within tried =
          attempts-Tried nodes ss _ (λ x later. within x (omega arith))
            (elim (improve_cases walk matrix time_windows visit_durations_s day_start_s day_end_s
              end_anchor weights (from s nodes).0 best) [
                | inl new ↦ inr (s, within s (let e = same_refl s in rw e (omega arith)), new)
                | inr old ↦ subst (Tried nodes) (sym old) tried
              ])

      given_up :
          (nodes route : List String)
          → route ≡ []
          → Accounts (anchors end_anchor) nodes (route, missing nodes route)
      unfolding contains
      given_up nodes route nil =
          subst (λ r. Accounts (anchors end_anchor) nodes (r, missing nodes r)) (sym nil)
            (inl (refl, (λ x. occurrences-missing x nodes [])))

      anchors-le : (x : String) (anchor : Option String) → occurrences x (anchors anchor) ≤ 1
      unfolding occurrences
      anchors-le x none = omega arith
      anchors-le x (some a) = ground arith

      -- What is missing from a kept route, with the route, is the nodes and the anchor.
      Tried-Accounts :
          (nodes route : List String)
          → IsDistinct nodes
          → Outside (anchors end_anchor) nodes
          → Tried nodes route
          → Accounts (anchors end_anchor) nodes (route, missing nodes route)
      Tried-Accounts nodes route distinct outside (inl e) = given_up nodes route e
      Tried-Accounts nodes route distinct outside (inr (start, member, made)) =
          elim (IsAttempt-of start nodes) [
            | inl (e, f) ↦ given_up nodes route (made ∙ e)
            | inr (rest, headed, fine, same_nodes) ↦ elim (nn_from_start-Closed start nodes) [
              | inl e ↦ given_up nodes route (made ∙ e)
              | inr (front, closed) ↦ inr λ x.
                  let whole =
                    sym (occurrences-append x (from start nodes).0 (from start nodes).1)
                    ∙ occurrences-perm x same_nodes
                    ∙ occurrences-append x (start ∷ discard start (to_set nodes))
                        (anchors end_anchor) in
                  let kept = ap (occurrences x) made in
                  let ending =
                    ap (occurrences x) (made ∙ closed)
                    ∙ occurrences-append x front (anchors end_anchor) in
                  let left = occurrences-append x route (missing nodes route) in
                  let right = occurrences-append x nodes (anchors end_anchor) in
                  let left_out = occurrences-missing x nodes route in
                  let (seen, unseen) = contains-occurrences x route in
                  let there : (if same x start then 1 else occurrences x nodes)
                      ≡ occurrences x nodes =
                    all_there x start nodes distinct member in
                  let others = occurrences-others x start nodes distinct ∙ there in
                  let few = anchors-le x end_anchor in
                  let once = distinct x in
                  let apart : occurrences x nodes + occurrences x (anchors end_anchor) ≤ 1 =
                    at_most_one _ _ once few (outside x) in
                  elim (Bool-cases (contains route x)) [
                    | inl hit ↦ let e = rw hit at left_out in let k = seen hit in omega arith
                    | inr miss ↦ let e = rw miss at left_out in let k = unseen miss in omega arith
                  ]
            ]
          ]

      -- `nearest_neighbor`
      pub nearest-Accounts :
          (nodes : List String)
          → IsDistinct nodes
          → Outside (anchors end_anchor) nodes
          → Accounts (anchors end_anchor) nodes (
              nearest_neighbor walk matrix time_windows visit_durations_s day_start_s day_end_s
                end_anchor weights nodes)
      unfolding nearest_neighbor
      nearest-Accounts nodes distinct outside =
          Tried-Accounts nodes _ distinct outside
            (attempts-Tried nodes nodes _ (λ x m. m) (inl refl))

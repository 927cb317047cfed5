-- ===== src/Service/Weights.antt =====
-- Priority weights: with fewer than a thousand stops, a route of at least the weight visits at least
-- as many must-see places.
use travel_llm_planner.Common.{
  ℕ, ◌+◌, ◌*◌, ◌≤◌, ◌<◌, ◌≡◌, refl, ap, subst, inl, inr, Bool, true, false, none, some, or_else,
  String, List, [], ◌∷◌, arith, same, same→eq, Bool-cases, Dict, lookup, length, if◌then◌else◌,
}
use travel_llm_planner.Common.Counting.{occurrences, sum_by}
use travel_llm_planner.Engine.Nearest.{contains}
use travel_llm_planner.Service.Priorities.{
  weight_of, weights_of, priority_in, is_must_see, is_not_optional, total_weight, any_must_see,
  select,
}

-- 1 for a must-see place.
abbrev pub must : Dict String → String → ℕ
must priorities n = if is_must_see priorities n then 1 else 0

-- How many must-see places the list holds.
abbrev pub musts : Dict String → List String → ℕ
musts priorities = sum_by (must priorities)

pub length-sum_by : (xs : List String) → length xs ≡ sum_by (λ _. 1) xs
unfolding sum_by
length-sum_by [] = refl
length-sum_by (x ∷ xs) = omega (arith, length-sum_by xs)

weight_of-bounds :
    (priority : String)
    → ((if same priority "must_see" then 1 else 0) * 1_000_000 ≤ weight_of priority)
      × (weight_of priority ≤ (if same priority "must_see" then 1 else 0) * 1_000_000 + 1_000)
unfolding weight_of
weight_of-bounds priority = elim (Bool-cases (same priority "must_see")) [
  | inl hit ↦ rw hit (omega arith, omega arith)
  | inr miss ↦ elim (Bool-cases (same priority "optional")) [
    | inl low ↦ rw (miss, low) (omega arith, omega arith)
    | inr high ↦ rw (miss, high) (omega arith, omega arith)
  ]
]

lookup-weights_of :
    (priorities : Dict String) (n : String) (ids : List String)
    → lookup n (weights_of priorities ids)
      ≡ (if contains ids n then some (weight_of (priority_in priorities n)) else none)
unfolding weights_of contains lookup
lookup-weights_of priorities n [] = refl
lookup-weights_of priorities n (i ∷ ids) = elim (Bool-cases (same i n)) [
  | inl hit ↦ rw hit (ap (λ k. some (weight_of (priority_in priorities k))) (same→eq i n hit))
  | inr miss ↦ rw miss (lookup-weights_of priorities n ids)
]

module _ (priorities : Dict String) (ids : List String)
    (known : (n : String) → is_must_see priorities n ≡ true → contains ids n ≡ true) where
  node_weight : String → ℕ
  node_weight n = or_else (lookup n (weights_of priorities ids)) 0

  node_weight-bounds :
      (n : String)
      → (must priorities n * 1_000_000 ≤ node_weight n)
        × (node_weight n ≤ must priorities n * 1_000_000 + 1_000)
  unfolding node_weight
  node_weight-bounds n = elim (Bool-cases (contains ids n)) [
    | inl hit ↦
        rw (lookup-weights_of priorities n ids)
          (rw hit (weight_of-bounds (priority_in priorities n)))
    | inr miss ↦ rw (lookup-weights_of priorities n ids) (
        rw miss (elim (Bool-cases (is_must_see priorities n)) [
          | inl yet ↦ absurd (cc (known n yet))
          | inr never ↦ rw never (omega arith, omega arith)
        ]))
  ]

  total_weight-bounds :
      (route : List String)
      → (musts priorities route * 1_000_000 ≤ total_weight (weights_of priorities ids) route)
        × (total_weight (weights_of priorities ids) route
            ≤ musts priorities route * 1_000_000 + length route * 1_000)
  unfolding total_weight sum_by node_weight
  total_weight-bounds [] = (omega arith, omega arith)
  total_weight-bounds (n ∷ ns) =
      let (low, high) = total_weight-bounds ns in
      let (lo, hi) = node_weight-bounds n in (omega arith, omega arith)

  -- More weight means no fewer must-see places.
  pub musts-le :
      (route better : List String)
      → length better < 1_000
      → total_weight (weights_of priorities ids) route
        ≤ total_weight (weights_of priorities ids) better
      → musts priorities route ≤ musts priorities better
  musts-le route better short le =
      let (low, high) = total_weight-bounds route in
      let (low', high') = total_weight-bounds better in omega arith

module _ (priorities : Dict String) where
  -- Nothing is left out that must be seen, exactly when the count is 0.
  pub any_must_see-musts :
      (ns : List String)
      → (any_must_see priorities ns ≡ false → musts priorities ns ≡ 0)
        × (musts priorities ns ≡ 0 → any_must_see priorities ns ≡ false)
  unfolding any_must_see sum_by
  any_must_see-musts [] = ((λ h. refl), (λ h. refl))
  any_must_see-musts (n ∷ ns) =
      let (ih, ih') = any_must_see-musts ns in
      elim (Bool-cases (is_must_see priorities n)) [
        | inl hit ↦ rw hit ((λ h. cc), (λ h. absurd (omega arith)))
        | inr miss ↦ rw miss ((λ h. omega (arith, ih h)), (λ h. ih' (omega arith)))
      ]

  pub any_must_see-occurrences :
      (ns : List String) (x : String)
      → any_must_see priorities ns ≡ false
      → is_must_see priorities x ≡ true
      → occurrences x ns ≡ 0
  unfolding any_must_see occurrences
  any_must_see-occurrences [] x h m = refl
  any_must_see-occurrences (n ∷ ns) x h m = elim (Bool-cases (same x n)) [
    | inl hit ↦
        let e : is_must_see priorities n ≡ true =
          subst (λ k. is_must_see priorities k ≡ true) (same→eq x n hit) m in
        cc (rw e at h)
    | inr miss ↦ rw miss (omega (arith, any_must_see-occurrences ns x (ground arith) m))
  ]

  -- A selection that keeps all must-see places has as many.
  pub musts-select :
      (test : String → Bool) (ns : List String)
      → ((n : String) → is_must_see priorities n ≡ true → test n ≡ true)
      → musts priorities (select test ns) ≡ musts priorities ns
  unfolding select sum_by
  musts-select test [] keeps = refl
  musts-select test (n ∷ ns) keeps =
      let ih = musts-select test ns keeps in
      elim (Bool-cases (test n)) [
        | inl kept ↦ rw (kept, select) (ap (λ k. must priorities n + k) ih)
        | inr gone ↦ elim (Bool-cases (is_must_see priorities n)) [
          | inl yet ↦ absurd (cc (keeps n yet))
          | inr never ↦ rw (gone, select) (rw never (omega arith))
        ]
      ]

  pub is_must_see-is_not_optional :
      (n : String) → is_must_see priorities n ≡ true → is_not_optional priorities n ≡ true
  is_must_see-is_not_optional n h =
      let e = same→eq (priority_in priorities n) "must_see" h in rw e refl

-- ===== src/Service/Guarantee.antt =====
-- The tiers of `_solve_with_priorities`: which attempt is kept, and what it leaves out.
use travel_llm_planner.Common.{
  ℕ, ◌+◌, ◌≤◌, ◌<◌, ◌≡◌, refl, ap, subst, ◌⊎◌, inl, inr, Bool, true, false, Option, none, some,
  String, List, [], ◌∷◌, arith, Bool-cases, Dict, length, All, ltb, ◌==◌, if◌then◌else◌,
}
use travel_llm_planner.Engine.Nearest.{contains}
use travel_llm_planner.Service.Priorities.{
  Solved, attempt, try_tiers, keep_better, removes_nothing, weights_of, total_weight, is_must_see,
  any_must_see,
}
use travel_llm_planner.Service.Weights.{musts, musts-le, any_must_see-musts}

keep_better-P_of :
    (P : Solved → Type 0) (b : Bool) (best new : Solved)
    → P best
    → P new
    → P (if b then new else best)
keep_better-P_of P true best new p q = q
keep_better-P_of P false best new p q = p

keep_better-P :
    {P : Solved → Type 0} (best : Option Solved) (new : Solved)
    → P new
    → ((b : Solved) → best ≡ some b → P b)
    → P (keep_better best new)
unfolding keep_better
keep_better-P none new p kept = p
keep_better-P {P} (some best) new p kept =
    keep_better-P_of P (ltb best.score new.score) best new (kept best refl) p

module _ (solve : List String → List String × List String) (priorities : Dict String)
    (ids : List String)
    (known : (n : String) → is_must_see priorities n ≡ true → contains ids n ≡ true) where
  abbrev pub tried : List String → Solved
  tried = attempt solve priorities (weights_of priorities ids)

  abbrev pub loop : Option ℕ → Option Solved → List (List String) → Option Solved
  loop = try_tiers solve priorities (weights_of priorities ids)

  -- An attempt: its score is its weight, it is short, and it has all must-see places, on the route or
  -- left out.
  pub record IsSound (s : Solved) : Type 0 where
    pub scored : s.score ≡ total_weight (weights_of priorities ids) s.route
    pub short : length s.route < 1_000
    pub whole : musts priorities s.route + musts priorities s.solver_skipped ≡ musts priorities ids

  abbrev pub AsMany : Solved → Solved → Type 0
  AsMany s best = musts priorities s.route ≤ musts priorities best.route

  keep_better-AsMany :
      (best new : Solved)
      → IsSound best
      → IsSound new
      → IsSound (keep_better (some best) new)
        × AsMany best (keep_better (some best) new)
        × AsMany new (keep_better (some best) new)
  unfolding keep_better
  keep_better-AsMany best new b n = elim (Bool-cases (ltb best.score new.score)) [
    | inl more ↦
        let le : best.score ≤ new.score = ground arith in
        rw (more, keep_better)
          (
            n,
            musts-le priorities ids known best.route new.route n.short
                (let e = b.scored in let f = n.scored in omega arith),
            (omega arith),
          )
    | inr less ↦
        let le : new.score ≤ best.score = ground arith in
        rw (less, keep_better)
          (
            b,
            (omega arith),
            musts-le priorities ids known new.route best.route b.short
                (let e = b.scored in let f = n.scored in omega arith),
          )
  ]

  -- Each tier that is as long as the one before it is the same.
  abbrev pub Shrinking : List String → List (List String) → Type 0
  Shrinking previous [] = Unit {0}
  Shrinking previous (tier ∷ rest) =
      (length tier ≡ length previous → tier ≡ previous) × Shrinking tier rest

  -- The end of the loop: the kept attempt has as many must-see places as any attempt, or all of them.
  pub record Final (best : Solved) (rest : List (List String)) (final : Solved) : Type 0 where
    pub sound : IsSound final
    pub before : AsMany best final
    pub after :
        All (λ tier. AsMany (tried tier) final) rest ⊎ (musts priorities final.solver_skipped ≡ 0)

  with_tier :
      (tier : List String) (rest : List (List String)) (final : Solved)
      → AsMany (tried tier) final
      → All (λ t. AsMany (tried t) final) rest ⊎ (musts priorities final.solver_skipped ≡ 0)
      → All (λ t. AsMany (tried t) final) (tier ∷ rest)
        ⊎ (musts priorities final.solver_skipped ≡ 0)
  with_tier tier rest final many (inl others) = inl (many, others)
  with_tier tier rest final many (inr none_left) = inr none_left

  try_tiers-Final :
      (previous : List String) (best : Solved) (rest : List (List String))
      → IsSound best
      → AsMany (tried previous) best
      → All (λ tier. IsSound (tried tier)) rest
      → Shrinking previous rest
      → (final : Solved) × (loop (some (length previous)) (some best) rest ≡ some final)
        × Final best rest final
  unfolding try_tiers
  try_tiers-Final previous best [] sound many all shrinking =
      (best, refl, record { sound = sound; before = omega arith; after = inl tt })
  try_tiers-Final previous best (tier ∷ rest) sound many (fine, all) (same_tier, shrinking) =
      let (better, more, also) = keep_better-AsMany best (tried tier) sound fine in
      elim (Bool-cases (length tier == length previous)) [
        | inl equal ↦
            let e : tier ≡ previous = same_tier (ground arith) in
            let (final, done, f) =
              try_tiers-Final previous best rest sound many all
                (subst (λ t. Shrinking t rest) e shrinking) in
            (
              final,
              rw (equal, try_tiers) done,
              record {
                sound = f.sound;
                before = f.before;
                after =
                    with_tier tier rest final
                      (let m = ap (λ t. musts priorities (tried t).route) e in
                        let b = f.before in omega arith)
                      f.after;
              },
            )
        | inr fewer ↦ elim (Bool-cases (any_must_see priorities (tried tier).solver_skipped)) [
          | inl left_out ↦
              let (final, done, f) =
                try_tiers-Final tier (keep_better (some best) (tried tier)) rest better also all
                  shrinking in
              (
                final,
                rw (fewer, left_out, try_tiers) done,
                record {
                  sound = f.sound;
                  before = let b = f.before in omega arith;
                  after = with_tier tier rest final (let b = f.before in omega arith) f.after;
                },
              )
          | inr complete ↦ (
            keep_better (some best) (tried tier),
            rw (fewer, complete, try_tiers) refl,
            record {
              sound = better;
              before = more;
              after = inr (
                  let none_left =
                    (any_must_see-musts priorities (tried tier).solver_skipped).0 complete in
                  let a = fine.whole in let b = better.whole in omega arith);
            },
          )
        ]
      ]

  -- With the first tier, which always runs.
  pub first_tier-Final :
      (tier : List String) (rest : List (List String))
      → IsSound (tried tier)
      → All (λ t. IsSound (tried t)) rest
      → Shrinking tier rest
      → (final : Solved) × (loop none none (tier ∷ rest) ≡ some final)
        × Final (tried tier) rest final
  unfolding try_tiers keep_better
  first_tier-Final tier rest sound all shrinking =
      elim (Bool-cases (any_must_see priorities (tried tier).solver_skipped)) [
        | inl left_out ↦
            let (final, done, f) =
              try_tiers-Final tier (tried tier) rest sound (omega arith) all shrinking in
            (final, rw (left_out, try_tiers) done, f)
        | inr complete ↦ (
          tried tier,
          rw (complete, try_tiers) refl,
          record {
            sound = sound;
            before = omega arith;
            after = inr ((any_must_see-musts priorities (tried tier).solver_skipped).0 complete);
          },
        )
      ]

  module _ (P : Solved → Type 0) where
    -- What every attempt has, the kept one has.
    pub try_tiers-keeps :
        (previous : Option ℕ) (best : Option Solved) (rest : List (List String)) (final : Solved)
        → loop previous best rest ≡ some final
        → All (λ tier. P (tried tier)) rest
        → ((b : Solved) → best ≡ some b → P b)
        → P final
    unfolding try_tiers
    try_tiers-keeps previous best [] final done all kept = kept final done
    try_tiers-keeps previous best (tier ∷ rest) final done (p, all) kept =
        let better : P (keep_better best (tried tier)) = keep_better-P best (tried tier) p kept in
        elim (Bool-cases (removes_nothing previous (length tier))) [
          | inl equal ↦
              try_tiers-keeps previous best rest final (rw (equal, try_tiers) at done) all kept
          | inr fewer ↦ elim (Bool-cases (any_must_see priorities (tried tier).solver_skipped)) [
            | inl left_out ↦
                try_tiers-keeps (some (length tier)) (some (keep_better best (tried tier))) rest
                  final (rw (fewer, left_out, try_tiers) at done) all
                  (λ b e. let same : keep_better best (tried tier) ≡ b = cc in subst P same better)
            | inr complete ↦
                let stop = rw (fewer, complete, try_tiers) at done in
                let same : keep_better best (tried tier) ≡ final = cc in subst P same better
          ]
        ]

-- ===== src/Service/Kept.antt =====
-- Tiers as selections of the nodes, and attempts at them as the loop over the tiers needs them.
use travel_llm_planner.Common.{
  ◌≤◌, ◌≡◌, refl, ap, inl, inr, Bool, true, same_refl, Option, none, some, String, List, [], ◌∷◌,
  ◌++◌, arith, Bool-cases, Dict, length,
}
use travel_llm_planner.Common.Counting.{occurrences, sum_by, sum_by-append, sum_by-SameItems}
use travel_llm_planner.Engine.Nearest.{contains}
use travel_llm_planner.Service.Priorities.{attempt, select, is_must_see}
use travel_llm_planner.Service.Counts.{occurrences-select, contains-occurrences}
use travel_llm_planner.Service.Accounts.{Outside, Accounts}
use travel_llm_planner.Service.Tiers.{ends_of}
use travel_llm_planner.Service.Weights.{musts, must, length-sum_by}
use travel_llm_planner.Service.Guarantee.{IsSound, tried}

pub length-select : (test : String → Bool) (ns : List String) → length (select test ns) ≤ length ns
unfolding select
length-select test [] = omega arith
length-select test (n ∷ ns) =
    let ih = length-select test ns in
    elim (Bool-cases (test n)) [
      | inl kept ↦ rw (kept, select) (omega (arith, ih))
      | inr gone ↦ rw (gone, select) (omega (arith, ih))
    ]

-- A selection as long as the list is the list.
pub select_whole :
    (test : String → Bool) (ns : List String)
    → length (select test ns) ≡ length ns
    → select test ns ≡ ns
unfolding select
select_whole test [] same = refl
select_whole test (n ∷ ns) same = elim (Bool-cases (test n)) [
  | inl kept ↦
      rw (kept, select)
        (ap (λ k. n ∷ k)
          (select_whole test ns (let e = rw (kept, select) at same in omega (arith, e))))
  | inr gone ↦
      let e = rw (gone, select) at same in
      let le = length-select test ns in absurd (omega (arith, e))
]

pub select-select :
    (strict loose : String → Bool) (ns : List String)
    → ((n : String) → strict n ≡ true → loose n ≡ true)
    → select strict (select loose ns) ≡ select strict ns
unfolding select
select-select strict loose [] within = refl
select-select strict loose (n ∷ ns) within =
    let ih = select-select strict loose ns within in
    elim (Bool-cases (loose n)) [
      | inl kept ↦ elim (Bool-cases (strict n)) [
        | inl both ↦ rw (kept, both, select) (ap (λ k. n ∷ k) ih)
        | inr one ↦ rw (kept, one, select) ih
      ]
      | inr gone ↦ elim (Bool-cases (strict n)) [
        | inl both ↦ absurd (cc (within n both))
        | inr one ↦ rw (gone, one, select) ih
      ]
    ]

pub select-le :
    (test : String → Bool) (x : String) (ns : List String)
    → occurrences x (select test ns) ≤ occurrences x ns
select-le test x ns =
    let e = occurrences-select test x ns in
    elim (Bool-cases (test x)) [
      | inl kept ↦ let k = rw kept at e in omega arith
      | inr gone ↦ let k = rw gone at e in omega arith
    ]

pub anchors-length : (a b : Option String) → length (ends_of a b) ≤ 2
anchors-length none none = omega arith
anchors-length none (some y) = omega arith
anchors-length (some x) none = omega arith
anchors-length (some x) (some y) = omega arith

module _ (priorities : Dict String) (ids ends : List String)
    (known : (n : String) → is_must_see priorities n ≡ true → contains ids n ≡ true)
    (outside : Outside ends ids) where
  musts-outside :
      (xs : List String)
      → ((x : String) → 1 ≤ occurrences x xs → occurrences x ids ≡ 0)
      → musts priorities xs ≡ 0
  unfolding sum_by occurrences
  musts-outside [] out = refl
  musts-outside (x ∷ xs) out =
      let ih = musts-outside xs (λ z m. out z (omega arith)) in
      elim (Bool-cases (is_must_see priorities x)) [
        | inl yet ↦
            let there = (contains-occurrences x ids).0 (known x yet) in
            let gone = out x (let e = same_refl x in rw e (omega arith)) in absurd (omega arith)
        | inr never ↦ rw never (omega (arith, ih))
      ]

  pub Accounts-IsSound :
      (solve : List String → List String × List String) (tier : List String)
      → Accounts ends tier (solve tier)
      → length ends ≤ 2
      → length tier ≤ 50
      → musts priorities tier ≡ musts priorities ids
      → IsSound solve priorities ids known (tried solve priorities ids known tier)
  unfolding sum_by attempt
  Accounts-IsSound solve tier (inl (nil, left)) two few same_musts = record {
    scored = refl;
    short = rw nil (omega arith);
    whole =
        rw nil
          (let e = sum_by-SameItems (must priorities) (solve tier).1 tier left in omega (arith, e));
  }
  Accounts-IsSound solve tier (inr all) two few same_musts =
      let r = (solve tier).0 in
      let s = (solve tier).1 in
      let count = sum_by-SameItems (λ _. 1) (r ++ s) (tier ++ ends) all in
      let split = sum_by-append (λ _. 1) r s in
      let split' = sum_by-append (λ _. 1) tier ends in
      let l₁ = length-sum_by r in
      let l₂ = length-sum_by tier in
      let l₃ = length-sum_by ends in
      let m = sum_by-SameItems (must priorities) (r ++ s) (tier ++ ends) all in
      let m₁ = sum_by-append (must priorities) r s in
      let m₂ = sum_by-append (must priorities) tier ends in
      let m₃ = musts-outside ends outside in
      record { scored = refl; short = omega arith; whole = omega arith }

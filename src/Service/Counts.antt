-- ===== src/Service/Counts.antt =====
-- The sets and selections of the solver, by how often they hold an identifier.
use travel_llm_planner.Common.{
  ℕ, ◌+◌, ◌≤◌, min, ◌≡◌, refl, sym, ap, ◌∙◌, subst, inl, inr, Bool, true, false, String, List, [],
  ◌∷◌, arith, same, same→eq, same_false→ne, Bool-cases, if◌then◌else◌, not, &&-eq-true,
}
use travel_llm_planner.Common.Counting.{occurrences, one_if_same}
use travel_llm_planner.Planner.{is_among_ids, are_unique_ids}
use travel_llm_planner.Engine.Nearest.{discard, to_set, contains, missing}
use travel_llm_planner.Service.Priorities.{select}

pub same_comm : (x y : String) → same x y ≡ same y x
same_comm x y = elim (Bool-cases (same x y)) [
  | inl hit ↦ let e = same→eq x y hit in rw e refl
  | inr miss ↦ elim (Bool-cases (same y x)) [
    | inl hit ↦ absurd (same_false→ne x y miss (sym (same→eq y x hit)))
    | inr also ↦ miss ∙ sym also
  ]
]

pub occurrences-discard :
    (x y : String) (ys : List String)
    → occurrences x (discard y ys) ≡ (if same x y then 0 else occurrences x ys)
unfolding discard occurrences
occurrences-discard x y [] = ground arith
occurrences-discard x y (z ∷ zs) =
    let ih = occurrences-discard x y zs in
    elim (Bool-cases (same z y)) [
      | inl hit ↦ let e = same→eq z y hit in rw (hit, discard) (rw e (rw ih (ground arith)))
      | inr miss ↦ elim (Bool-cases (same x y)) [
        | inl found ↦
            let other : same x z ≡ false =
              subst (λ k. same k z ≡ false) (sym (same→eq x y found)) (same_comm y z ∙ miss) in
            rw (miss, discard) (rw (found, other) (omega (arith, rw found at ih)))
        | inr apart ↦ rw (miss, discard) (rw apart (ap (λ n. one_if_same x z + n) (rw apart at ih)))
      ]
    ]

pub occurrences-to_set :
    (x : String) (ys : List String) → occurrences x (to_set ys) ≡ min 1 (occurrences x ys)
unfolding to_set occurrences
occurrences-to_set x [] = refl
occurrences-to_set x (y ∷ ys) =
    let ih = occurrences-to_set x ys in
    let gone = occurrences-discard x y (to_set ys) in
    elim (Bool-cases (same x y)) [
      | inl hit ↦ let e = rw hit at gone in rw hit (omega (arith, e))
      | inr miss ↦ let e = rw miss at gone in rw miss (omega (arith, e, ih))
    ]

pub contains-occurrences :
    (x : String) (ys : List String)
    → (contains ys x ≡ true → 1 ≤ occurrences x ys) × (contains ys x ≡ false → occurrences x ys ≡ 0)
unfolding contains occurrences
contains-occurrences x [] = ((λ h. cc), (λ h. refl))
contains-occurrences x (y ∷ ys) =
    let (ih, ih') = contains-occurrences x ys in
    elim (Bool-cases (same x y)) [
      | inl hit ↦
          let e : same y x ≡ true = same_comm y x ∙ hit in
          rw (hit, e) ((λ h. omega arith), (λ h. cc))
      | inr miss ↦
          let e : same y x ≡ false = same_comm y x ∙ miss in
          rw (miss, e) ((λ h. omega (arith, ih h)), (λ h. omega (arith, ih' h)))
    ]

drop_zero : (b : Bool) (n : ℕ) → (if b then 0 else 0 + n) ≡ (if b then 0 else n)
drop_zero true n = refl
drop_zero false n = omega arith

pub occurrences-missing :
    (x : String) (ys visited : List String)
    → occurrences x (missing ys visited) ≡ (if contains visited x then 0 else occurrences x ys)
unfolding missing occurrences
occurrences-missing x [] visited = ground arith
occurrences-missing x (y ∷ ys) visited =
    let ih = occurrences-missing x ys visited in
    elim (Bool-cases (same x y)) [
      | inl hit ↦
          let e : contains visited y ≡ contains visited x =
            ap (contains visited) (sym (same→eq x y hit)) in
          elim (Bool-cases (contains visited x)) [
            | inl old ↦ rw (e ∙ old, missing) (rw old (rw old at ih))
            | inr new ↦
                rw (e ∙ new, missing) (rw new (ap (λ n. one_if_same x y + n) (rw new at ih)))
          ]
      | inr miss ↦
          let e : (if contains visited x then 0 else one_if_same x y + occurrences x ys)
              ≡ occurrences x (missing ys visited) =
            rw miss (drop_zero (contains visited x) (occurrences x ys) ∙ sym ih) in
          elim (Bool-cases (contains visited y)) [
            | inl old ↦ rw (old, missing) (sym e)
            | inr new ↦
                let none_here : one_if_same x y ≡ 0 = rw miss refl in
                rw (new, missing) (omega (arith, none_here, e))
          ]
    ]

if_cons-occurrences :
    (x y : String) (b : Bool) (ys : List String)
    → occurrences x (if b then y ∷ ys else ys)
      ≡ (if b then one_if_same x y else 0) + occurrences x ys
unfolding occurrences
if_cons-occurrences x y true ys = refl
if_cons-occurrences x y false ys = omega arith

pub occurrences-select :
    (test : String → Bool) (x : String) (ys : List String)
    → occurrences x (select test ys) ≡ (if test x then occurrences x ys else 0)
unfolding select occurrences
occurrences-select test x [] = ground arith
occurrences-select test x (y ∷ ys) =
    let ih = occurrences-select test x ys in
    if_cons-occurrences x y (test y) (select test ys) ∙ (elim (Bool-cases (same x y)) [
      | inl hit ↦
          let e : test y ≡ test x = ap test (sym (same→eq x y hit)) in rw e (ground (arith, ih))
      | inr miss ↦ rw miss (ground (arith, ih))
    ])

not_true→false : (b : Bool) → not b ≡ true → b ≡ false
not_true→false true h = cc
not_true→false false h = refl

among-occurrences :
    (x : String) (ids : List String) → is_among_ids x ids ≡ false → occurrences x ids ≡ 0
unfolding is_among_ids occurrences
among-occurrences x [] h = refl
among-occurrences x (i ∷ is) h = elim (Bool-cases (same x i)) [
  | inl hit ↦ cc (rw hit at h)
  | inr miss ↦ let later = among-occurrences x is (rw miss at h) in rw miss (omega arith)
]

-- A list that passes the test for duplicates has none.
pub are_unique_ids-once :
    (ids : List String) → are_unique_ids ids ≡ true → (x : String) → occurrences x ids ≤ 1
unfolding are_unique_ids occurrences
are_unique_ids-once [] h x = omega arith
are_unique_ids-once (i ∷ is) h x =
    let (fresh, rest) = &&-eq-true _ _ h in
    let once = are_unique_ids-once is rest x in
    elim (Bool-cases (same x i)) [
      | inl hit ↦
          let e = same→eq x i hit in
          let gone = among-occurrences i is (not_true→false _ fresh) in
          let k : occurrences x is ≡ 0 = ap (λ y. occurrences y is) e ∙ gone in rw hit (omega arith)
      | inr miss ↦ rw miss (omega arith)
    ]

-- ===== src/Common/Counting.antt =====
-- How often an identifier stands in a list: a list seen without its order.
use Prim.Native.Nat.{ℕ, ◌+◌, ◌≤◌}
use Prim.Native.String.{String}
use mathlib.Core.Path.{◌≡◌, refl, ap, ◌∙◌}
use mathlib.Core.List.{List, [], ◌∷◌, ◌++◌, Perm, Permᴰ}
use mathlib.Core.Logic.{∥∥₁_elim}
use native.Mathlib.Nat.{ℕ_set}
use native.Mathlib.Omega.{arith}
use mathlib.Core.Logic.{inl, inr}
use travel_llm_planner.Common.Tests.{same, same→eq, same_refl, Bool-cases, if◌then◌else◌}

-- 1 where the two identifiers are the same.
abbrev pub one_if_same : String → String → ℕ
one_if_same x y = if same x y then 1 else 0

unfoldable pub occurrences : String → List String → ℕ
occurrences x [] = 0
occurrences x (y ∷ ys) = one_if_same x y + occurrences x ys

-- Both lists hold the same identifiers, each as often.
abbrev pub SameItems : List String → List String → Type 0
SameItems xs ys = (x : String) → occurrences x xs ≡ occurrences x ys

pub occurrences-append :
    (x : String) (ys zs : List String)
    → occurrences x (ys ++ zs) ≡ occurrences x ys + occurrences x zs
unfolding occurrences
occurrences-append x [] zs = omega arith
occurrences-append x (y ∷ ys) zs = omega (arith, occurrences-append x ys zs)

Permᴰ-occurrences :
    (x : String) {ys zs : List String} → Permᴰ ys zs → occurrences x ys ≡ occurrences x zs
unfolding occurrences
Permᴰ-occurrences x Permᴰ.nil = refl
Permᴰ-occurrences x (Permᴰ.cons e p) = omega (arith, ap (one_if_same x) e, Permᴰ-occurrences x p)
Permᴰ-occurrences x (Permᴰ.swap e f) = omega (arith, ap (one_if_same x) e, ap (one_if_same x) f)
Permᴰ-occurrences x (Permᴰ.trans p q) = Permᴰ-occurrences x p ∙ Permᴰ-occurrences x q

pub occurrences-perm :
    (x : String) {ys zs : List String} → Perm ys zs → occurrences x ys ≡ occurrences x zs
occurrences-perm x p = ∥∥₁_elim p (ℕ_set _ _) (Permᴰ-occurrences x)

-- The sum of a number for each identifier.
unfoldable pub sum_by : (String → ℕ) → List String → ℕ
sum_by f [] = 0
sum_by f (x ∷ xs) = f x + sum_by f xs

pub sum_by-append :
    (f : String → ℕ) (xs ys : List String) → sum_by f (xs ++ ys) ≡ sum_by f xs + sum_by f ys
unfolding sum_by
sum_by-append f [] ys = omega arith
sum_by-append f (x ∷ xs) ys = omega (arith, sum_by-append f xs ys)

without : String → List String → List String
without x [] = []
without x (y ∷ ys) = if same x y then ys else y ∷ without x ys

sum_by-without :
    (f : String → ℕ) (x : String) (ys : List String)
    → 1 ≤ occurrences x ys
    → sum_by f ys ≡ f x + sum_by f (without x ys)
unfolding sum_by occurrences without
sum_by-without f x [] h = absurd (omega arith)
sum_by-without f x (y ∷ ys) h = elim (Bool-cases (same x y)) [
  | inl hit ↦ let e = ap f (same→eq x y hit) in rw (hit, without) (omega (arith, e))
  | inr miss ↦
      let ih = sum_by-without f x ys (let k = rw miss at h in omega arith) in
      rw (miss, without) (omega (arith, ih))
]

occurrences-without :
    (x z : String) (ys : List String)
    → 1 ≤ occurrences x ys
    → occurrences z ys ≡ one_if_same z x + occurrences z (without x ys)
unfolding occurrences without
occurrences-without x z [] h = absurd (omega arith)
occurrences-without x z (y ∷ ys) h = elim (Bool-cases (same x y)) [
  | inl hit ↦ let e = ap (one_if_same z) (same→eq x y hit) in rw (hit, without) (omega (arith, e))
  | inr miss ↦
      let ih = occurrences-without x z ys (let k = rw miss at h in omega arith) in
      rw (miss, without) (omega (arith, ih))
]

empty_of_none : (ys : List String) → ((x : String) → 0 ≡ occurrences x ys) → [] ≡ ys
unfolding occurrences
empty_of_none [] h = refl
empty_of_none (y ∷ ys) h = let e = h y in let s = same_refl y in absurd (ground arith)

-- Lists of the same items have the same sums.
pub sum_by-SameItems :
    (f : String → ℕ) (xs ys : List String) → SameItems xs ys → sum_by f xs ≡ sum_by f ys
unfolding sum_by occurrences
sum_by-SameItems f [] ys h = ap (sum_by f) (empty_of_none ys h)
sum_by-SameItems f (x ∷ xs) ys h =
    let here : 1 ≤ occurrences x ys = let e = h x in let s = same_refl x in ground arith in
    let rest : SameItems xs (without x ys) =
      λ z. let e = h z in let o = occurrences-without x z ys here in omega arith in
    let ih = sum_by-SameItems f xs (without x ys) rest in
    let o = sum_by-without f x ys here in omega arith

-- ===== src/Engine/TwoOpt/Reversal.antt =====
-- Reversing a segment moves no node in or out of the route, nor its two ends.
use mathlib.Core.List.Perm
use mathlib.Core.List.{reverse_perm, append_assoc, Permᴰ}
use mathlib.Core.Logic.{∥∥₁_elim}
use native.Mathlib.Nat.{ℕ_set}
use travel_llm_planner.Common.{
  ℕ, suc, ◌+◌, ◌-◌, ◌≤◌, ◌<◌, ◌≡◌, refl, sym, subst, ◌∙◌, ap, String, List, [], ◌∷◌, ◌++◌, Perm,
  reverse, take, drop, length, last_or, last_or-drop, last_or-append_cons, drop-drop,
  take-append-drop, arith,
}
use travel_llm_planner.Engine.TwoOpt.{reversal}

pub reversal-perm : (i j : ℕ) (route : List String) → i ≤ j → Perm (reversal i j route) route
unfolding reversal
reversal-perm i j route h =
    subst (λ r. Perm (reversal i j route) r) whole
      (Perm.append_left (take (suc i) route)
        (Perm.append_right (drop (suc j) route) (reverse_perm _)))
  where
    same : suc j ≡ suc i + (suc j - suc i)
    same = omega arith

    behind : drop (suc j) route ≡ drop (suc j - suc i) (drop (suc i) route)
    behind = ap (λ k. drop k route) same ∙ sym (drop-drop (suc j - suc i) (suc i) route)

    whole :
        take (suc i) route ++ (take (suc j - suc i) (drop (suc i) route) ++ drop (suc j) route)
        ≡ route
    whole = rw behind (rw take-append-drop (take-append-drop (suc i) route))

-- The first node, or `d` for an empty route.
abbrev pub first_or : String → List String → String
first_or d [] = d
first_or d (x ∷ xs) = x

pub first_or-reversal :
    (d : String) (i j : ℕ) (route : List String)
    → 0 < length route
    → first_or d (reversal i j route) ≡ first_or d route
unfolding reversal
first_or-reversal d i j [] h = elim h [ ]
first_or-reversal d i j (x ∷ xs) h = refl

-- A segment that ends before the last node leaves the last node in place.
pub last_or-reversal :
    (d : String) (i j : ℕ) (route : List String)
    → suc j < length route
    → last_or d (reversal i j route) ≡ last_or d route
unfolding reversal
last_or-reversal d i j route h =
    let (y, ys, tail, last) = last_or-drop d (suc j) route h in
    rw tail (
      ap (last_or d) (
        sym (
          append_assoc (take (suc i) route) (reverse (take (suc j - suc i) (drop (suc i) route)))
            (y ∷ ys)))
      ∙ last_or-append_cons d y
          (take (suc i) route ++ reverse (take (suc j - suc i) (drop (suc i) route))) ys
      ∙ last)

Permᴰ-length : {xs ys : List String} → Permᴰ xs ys → length xs ≡ length ys
Permᴰ-length Permᴰ.nil = refl
Permᴰ-length (Permᴰ.cons e p) = ap suc (Permᴰ-length p)
Permᴰ-length (Permᴰ.swap e f) = refl
Permᴰ-length (Permᴰ.trans p q) = Permᴰ-length p ∙ Permᴰ-length q

pub perm-length : {xs ys : List String} → Perm xs ys → length xs ≡ length ys
perm-length p = ∥∥₁_elim p (ℕ_set _ _) Permᴰ-length

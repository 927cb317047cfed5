-- ===== src/Engine/Nearest/Sets.antt =====
-- Python sets as lists: no repetitions, and taking a member out.
use mathlib.Core.List.{
  Mem, Nodup, mem-cons, mem-cons_self, mem-cons_of_mem, not-mem-nil, Mem-prop, Nodup-cons,
  Nodup-nil,
}
use mathlib.Core.List.Perm
use mathlib.Core.Logic.Or
use travel_llm_planner.Common.{
  ◌≤◌, ◌<◌, ◌≡◌, ◌≢◌, refl, sym, ◌∙◌, false, String, List, [], ◌∷◌, Perm, inl, inr, same, same→eq,
  same_false→ne, Bool-cases, length, arith,
}
use travel_llm_planner.Engine.Nearest.{discard, to_set}

mem_tail : (x z : String) (zs : List String) → same z x ≡ false → Mem x (z ∷ zs) → Mem x zs
mem_tail x z zs miss m =
    Or.elim Mem-prop (mem-cons.0 m) (λ e. absurd (same_false→ne z x miss (sym e))) (λ later. later)

mem-discard : (x y : String) (xs : List String) → Mem y (discard x xs) → Mem y xs × (y ≢ x)
unfolding discard
mem-discard x y [] m = absurd (not-mem-nil m)
mem-discard x y (z ∷ zs) m = elim (Bool-cases (same z x)) [
  | inl hit ↦ let (old, ne) = mem-discard x y zs (rw hit at m) in (mem-cons_of_mem z old, ne)
  | inr miss ↦
      let ne : z ≢ x = same_false→ne z x miss in
      Or.elim (hlevel Mem-prop) (mem-cons.0 (rw miss at m))
        (λ e. (rw e mem-cons_self, λ h. ne (sym e ∙ h)))
        (λ old. let (within, other) = mem-discard x y zs old in (mem-cons_of_mem z within, other))
]

discard_absent : (x : String) (xs : List String) → ¬ Mem x xs → discard x xs ≡ xs
unfolding discard
discard_absent x [] absent = refl
discard_absent x (z ∷ zs) absent = elim (Bool-cases (same z x)) [
  | inl hit ↦ absurd (absent (rw (same→eq z x hit) mem-cons_self))
  | inr miss ↦ rw miss (rw (discard_absent x zs (λ m. absent (mem-cons_of_mem z m))))
]

pub discard-Nodup : (x : String) (xs : List String) → Nodup xs → Nodup (discard x xs)
unfolding discard
discard-Nodup x [] d = d
discard-Nodup x (z ∷ zs) d =
    let (fresh, rest) = Nodup-cons.0 d in
    elim (Bool-cases (same z x)) [
      | inl hit ↦ rw hit (discard-Nodup x zs rest)
      | inr miss ↦
          rw miss (Nodup-cons.1 (λ m. fresh (mem-discard x z zs m).0, discard-Nodup x zs rest))
    ]

pub to_set-Nodup : (xs : List String) → Nodup (to_set xs)
unfolding to_set
to_set-Nodup [] = Nodup-nil
to_set-Nodup (x ∷ xs) =
    Nodup-cons.1 (λ m. (mem-discard x x (to_set xs) m).1 refl, discard-Nodup x _ (to_set-Nodup xs))

-- A member taken out is the only thing that goes.
pub discard-perm :
    (x : String) (xs : List String) → Nodup xs → Mem x xs → Perm (x ∷ discard x xs) xs
unfolding discard
discard-perm x [] d m = absurd (not-mem-nil m)
discard-perm x (z ∷ zs) d m =
    let (fresh, rest) = Nodup-cons.0 d in
    elim (Bool-cases (same z x)) [
      | inl hit ↦
          let e = same→eq z x hit in rw (hit, e) (rw (discard_absent x zs (rw e at fresh)) Perm.rfl)
      | inr miss ↦ rw miss (
          Perm.trans (Perm.swap z x (discard x zs))
            (Perm.cons z (discard-perm x zs rest (mem_tail x z zs miss m))))
    ]

length-discard-le : (x : String) (xs : List String) → length (discard x xs) ≤ length xs
unfolding discard
length-discard-le x [] = omega arith
length-discard-le x (z ∷ zs) = ground (arith, length-discard-le x zs)

pub length-discard_lt :
    (x : String) (xs : List String) → Mem x xs → length (discard x xs) < length xs
unfolding discard
length-discard_lt x [] m = absurd (not-mem-nil m)
length-discard_lt x (z ∷ zs) m = elim (Bool-cases (same z x)) [
  | inl hit ↦ rw hit (omega (arith, length-discard-le x zs))
  | inr miss ↦ rw miss (omega (arith, length-discard_lt x zs (mem_tail x z zs miss m)))
]

-- A set without repetitions is unchanged by `set`.
pub to_set-eq_of_Nodup : (xs : List String) → Nodup xs → to_set xs ≡ xs
unfolding to_set
to_set-eq_of_Nodup [] d = refl
to_set-eq_of_Nodup (x ∷ xs) d =
    let (fresh, rest) = Nodup-cons.0 d in
    rw (to_set-eq_of_Nodup xs rest) (rw (discard_absent x xs fresh))

-- ===== src/Editing/Distinct.antt =====
-- The stays in order of check-in keep their number and differ in their positions.
use travel_llm_planner.Common.{
  ℕ, zero, suc, ◌≡◌, ◌≢◌, ◌≤◌, ◌<◌, refl, ap, sym, ◌∙◌, leb, some, List, [], ◌∷◌, length, get_elem?,
  All, All-map, Bool-cases, arith, inl, inr,
}
use travel_llm_planner.Accommodations.{AccommodationStay}
use travel_llm_planner.Editing.Reconcile.{
  Placed, enumerate, insert_placed, sort_placed, sorted_positions,
}
use travel_llm_planner.Editing.Selectors.{All-insert_placed, All-sort_placed}

abbrev pub Differs : Placed → Placed → Type 0
Differs p q = q.0 ≢ p.0

abbrev pub AllDiffer : List Placed → Type 0
AllDiffer [] = Unit {0}
AllDiffer (p ∷ ps) = All (Differs p) ps × AllDiffer ps

pub Differs-symm : (p q : Placed) → Differs p q → Differs q p
Differs-symm p q h = λ e. h (sym e)

insert-AllDiffer :
    (p : Placed) (ps : List Placed)
    → All (Differs p) ps
    → AllDiffer ps
    → AllDiffer (insert_placed p ps)
unfolding insert_placed
insert-AllDiffer (i, s) [] far rest = (tt, tt)
insert-AllDiffer (i, s) ((j, t) ∷ ps) (near, far) (next, rest) =
    elim (Bool-cases (leb s.check_in_date t.check_in_date)) [
      | inl first ↦ rw first ((near, far), (next, rest))
      | inr later ↦ rw later (
        All-insert_placed (Differs (j, t)) (i, s) ps (Differs-symm (i, s) (j, t) near) next,
        insert-AllDiffer (i, s) ps far rest,
      )
    ]

sort-AllDiffer : (ps : List Placed) → AllDiffer ps → AllDiffer (sort_placed ps)
unfolding sort_placed
sort-AllDiffer [] h = tt
sort-AllDiffer (p ∷ ps) (far, rest) =
    insert-AllDiffer p (sort_placed ps) (All-sort_placed (Differs p) ps far)
      (sort-AllDiffer ps rest)

enumerate_from :
    (k : ℕ) (ss : List AccommodationStay) → All (λ (p : Placed). k ≤ p.0) (enumerate k ss)
enumerate_from k [] = tt
enumerate_from k (s ∷ ss) = (
  omega arith,
  All-map (λ (p : Placed). suc k ≤ p.0) (λ (p : Placed). k ≤ p.0) (λ p h. omega arith)
      (enumerate (suc k) ss) (enumerate_from (suc k) ss),
)

enumerate-AllDiffer : (k : ℕ) (ss : List AccommodationStay) → AllDiffer (enumerate k ss)
enumerate-AllDiffer k [] = tt
enumerate-AllDiffer k (s ∷ ss) = (
  All-map (λ (p : Placed). suc k ≤ p.0) (Differs (k, s)) (λ p h e. omega arith)
      (enumerate (suc k) ss) (enumerate_from (suc k) ss),
  enumerate-AllDiffer (suc k) ss,
)

pub sorted_positions-AllDiffer :
    (stays : List AccommodationStay) → AllDiffer (sorted_positions stays)
unfolding sorted_positions
sorted_positions-AllDiffer stays = sort-AllDiffer (enumerate 0 stays) (enumerate-AllDiffer 0 stays)

length-insert_placed :
    (p : Placed) (ps : List Placed) → length (insert_placed p ps) ≡ suc (length ps)
unfolding insert_placed
length-insert_placed (i, s) [] = refl
length-insert_placed (i, s) ((j, t) ∷ ps) =
    elim (Bool-cases (leb s.check_in_date t.check_in_date)) [
      | inl first ↦ rw first refl
      | inr later ↦ rw later (ap suc (length-insert_placed (i, s) ps))
    ]

length-sort_placed : (ps : List Placed) → length (sort_placed ps) ≡ length ps
unfolding sort_placed
length-sort_placed [] = refl
length-sort_placed (p ∷ ps) =
    length-insert_placed p (sort_placed ps) ∙ ap suc (length-sort_placed ps)

length-enumerate : (k : ℕ) (ss : List AccommodationStay) → length (enumerate k ss) ≡ length ss
length-enumerate k [] = refl
length-enumerate k (s ∷ ss) = ap suc (length-enumerate (suc k) ss)

pub get_elem?-lt :
    (ps : List Placed) (k : ℕ) → k < length ps → (p : Placed) × (get_elem? ps k ≡ some p)
get_elem?-lt [] k h = absurd (omega arith)
get_elem?-lt (p ∷ ps) zero h = (p, refl)
get_elem?-lt (p ∷ ps) (suc k) h = get_elem?-lt ps k (omega arith)

pub length-sorted_positions :
    (stays : List AccommodationStay) → length (sorted_positions stays) ≡ length stays
unfolding sorted_positions
length-sorted_positions stays = length-sort_placed (enumerate 0 stays) ∙ length-enumerate 0 stays

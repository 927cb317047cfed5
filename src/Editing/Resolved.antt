-- ===== src/Editing/Resolved.antt =====
-- A batch whose selectors are in range and differ is resolved.
use travel_llm_planner.Common.{
  ℕ, zero, suc, ◌≡◌, ◌≢◌, ◌<◌, refl, ap, sym, false, some, List, [], ◌∷◌, length, get_elem?, All,
  All-map, arith,
}
use travel_llm_planner.Accommodations.{AccommodationStay}
use travel_llm_planner.Planner.{is_among}
use travel_llm_planner.Editing.{
  ok, AccommodationOp, add_accommodation, update_accommodation, remove_accommodation,
}
use travel_llm_planner.Editing.Reconcile.{
  Placed, sorted_positions, ResolvedOp, adds, updates, removes, resolve_selector, resolve_from,
  resolve_accommodation_selectors,
}
use travel_llm_planner.Editing.Claims.{selectors, AllDistinct}
use travel_llm_planner.Editing.Distinct.{
  Differs, AllDiffer, Differs-symm, sorted_positions-AllDiffer, get_elem?-lt,
  length-sorted_positions,
}

differ_there :
    (p : Placed) (ps : List Placed) (k : ℕ) {q : Placed}
    → All (Differs p) ps
    → get_elem? ps k ≡ some q
    → Differs p q
differ_there p [] k far e = cc
differ_there p (r ∷ ps) zero {q} (near, far) e = let found : q ≡ r = cc in rw found near
differ_there p (r ∷ ps) (suc k) (near, far) e = differ_there p ps k far e

differ_at :
    (ps : List Placed) (j k : ℕ) {p q : Placed}
    → AllDiffer ps
    → get_elem? ps j ≡ some p
    → get_elem? ps k ≡ some q
    → j ≢ k
    → Differs p q
differ_at [] j k h ej ek ne = cc
differ_at (r ∷ rs) zero zero h ej ek ne = absurd (ne refl)
differ_at (r ∷ rs) zero (suc k) {p} {q} (far, h) ej ek ne =
    let found : p ≡ r = cc in rw found (differ_there r rs k far ek)
differ_at (r ∷ rs) (suc j) zero {p} {q} (far, h) ej ek ne =
    let found : q ≡ r = cc in rw found (Differs-symm r p (differ_there r rs j far ej))
differ_at (r ∷ rs) (suc j) (suc k) (far, h) ej ek ne = differ_at rs j k h ej ek (λ e. ne (ap suc e))

-- The claimed positions are those of the selectors used so far.
abbrev Claimed : List Placed → List ℕ → List ℕ → Type 0
Claimed ps [] [] = Unit {0}
Claimed ps (k ∷ ks) (i ∷ is) =
    ((s : AccommodationStay) × (get_elem? ps k ≡ some (i, s))) × Claimed ps ks is
Claimed ps [] (i ∷ is) = ⊥
Claimed ps (k ∷ ks) [] = ⊥

unclaimed :
    (ps : List Placed) (used claimed : List ℕ) (k i : ℕ) (s : AccommodationStay)
    → AllDiffer ps
    → Claimed ps used claimed
    → All (λ u. u ≢ k) used
    → get_elem? ps k ≡ some (i, s)
    → is_among i claimed ≡ false
unfolding is_among
unclaimed ps [] [] k i s differ claims others at = refl
unclaimed ps (u ∷ us) (c ∷ cs) k i s differ ((t, at_u), claims) (other, others) at =
    let apart = differ_at ps u k differ at_u at other in
    let rest = unclaimed ps us cs k i s differ claims others at in ground (arith, apart, rest)
unclaimed ps [] (c ∷ cs) k i s differ claims others at = elim claims [ ]
unclaimed ps (u ∷ us) [] k i s differ claims others at = elim claims [ ]

-- The selector differs from those used so far.
abbrev IsUnused : List ℕ → ℕ → Type 0
IsUnused used k = All (λ u. u ≢ k) used

resolve_selector_total :
    (ps : List Placed) (used claimed : List ℕ) (k : ℕ)
    → AllDiffer ps
    → Claimed ps used claimed
    → k < length ps
    → IsUnused used k
    → (i : ℕ) × (s : AccommodationStay) × (get_elem? ps k ≡ some (i, s))
      × (resolve_selector ps claimed k ≡ ok i)
unfolding resolve_selector
resolve_selector_total ps used claimed k differ claims within unused =
    let ((i, s), at) = get_elem?-lt ps k within in
    let free = unclaimed ps used claimed k i s differ claims unused at in
    (i, s, at, rw (at, resolve_selector) (rw free refl))

IsUnused-cons :
    (k : ℕ) (used ks : List ℕ)
    → All (λ j. j ≢ k) ks
    → All (IsUnused used) ks
    → All (IsUnused (k ∷ used)) ks
IsUnused-cons k used [] far all = tt
IsUnused-cons k used (j ∷ js) (near, far) (h, all) =
    ((λ e. near (sym e), h), IsUnused-cons k used js far all)

resolve_from_total :
    (ps : List Placed) (used claimed : List ℕ) (ops : List AccommodationOp)
    → AllDiffer ps
    → Claimed ps used claimed
    → All (λ k. k < length ps) (selectors ops)
    → AllDistinct (selectors ops)
    → All (IsUnused used) (selectors ops)
    → (resolved : List ResolvedOp) × (resolve_from ps claimed ops ≡ ok resolved)
unfolding resolve_from
resolve_from_total ps used claimed [] differ claims within distinct unused = ([], refl)
resolve_from_total ps used claimed (add_accommodation s ∷ ops) differ claims within distinct
      unused =
    let (rest, e) = resolve_from_total ps used claimed ops differ claims within distinct unused in
    (adds s ∷ rest, rw e refl)
resolve_from_total ps used claimed (update_accommodation op ∷ ops) differ claims (first, within)
      (far, distinct) (free, unused) =
    let k = op.stay_index in
    let (i, s, at, picked) = resolve_selector_total ps used claimed k differ claims first free in
    let (rest, e) =
      resolve_from_total ps (k ∷ used) (i ∷ claimed) ops differ ((s, at), claims) within distinct
        (IsUnused-cons k used (selectors ops) far unused) in
    (updates i op ∷ rest, rw picked (rw e refl))
resolve_from_total ps used claimed (remove_accommodation k ∷ ops) differ claims (first, within)
      (far, distinct) (free, unused) =
    let (i, s, at, picked) = resolve_selector_total ps used claimed k differ claims first free in
    let (rest, e) =
      resolve_from_total ps (k ∷ used) (i ∷ claimed) ops differ ((s, at), claims) within distinct
        (IsUnused-cons k used (selectors ops) far unused) in
    (removes i ∷ rest, rw picked (rw e refl))

All-IsUnused : (ks : List ℕ) → All (IsUnused []) ks
All-IsUnused [] = tt
All-IsUnused (k ∷ ks) = (tt, All-IsUnused ks)

-- Where the selectors of a batch are below the number of stays and differ from each other, they are
-- resolved: no error is raised.
pub resolve_accommodation_selectors_total :
    (stays : List AccommodationStay) (ops : List AccommodationOp)
    → All (λ k. k < length stays) (selectors ops)
    → AllDistinct (selectors ops)
    → (resolved : List ResolvedOp) × (resolve_accommodation_selectors stays ops ≡ ok resolved)
unfolding resolve_accommodation_selectors
resolve_accommodation_selectors_total stays ops within distinct =
    let size = length-sorted_positions stays in
    resolve_from_total (sorted_positions stays) [] [] ops (sorted_positions-AllDiffer stays) tt
      (All-map (λ k. k < length stays) (λ k. k < length (sorted_positions stays))
        (λ k h. omega arith) (selectors ops) within)
      distinct (All-IsUnused (selectors ops))

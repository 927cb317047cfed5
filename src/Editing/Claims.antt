-- ===== src/Editing/Claims.antt =====
-- The positions that the accommodation operations of a batch claim.
use travel_llm_planner.Common.{
  ℕ, ◌≡◌, ◌≢◌, sym, false, some, List, [], ◌∷◌, get_elem?, All, All-map, Bool-cases, Option-cases,
  arith, inl, inr,
}
use travel_llm_planner.Accommodations.{AccommodationStay, sort_stays}
use travel_llm_planner.Planner.{is_among}
use travel_llm_planner.Editing.{
  ok, >>=-eq-ok, AccommodationOp, add_accommodation, update_accommodation, remove_accommodation,
}
use travel_llm_planner.Editing.Reconcile.{
  sorted_positions, ResolvedOp, adds, updates, removes, resolve_selector, resolve_from,
  resolve_accommodation_selectors,
}
use travel_llm_planner.Editing.Selectors.{sorted_positions-at}

-- The positions that the resolved updates and removals aim at.
abbrev pub targets : List ResolvedOp → List ℕ
targets [] = []
targets (adds s ∷ ops) = targets ops
targets (updates i op ∷ ops) = i ∷ targets ops
targets (removes i ∷ ops) = i ∷ targets ops

-- The selectors of the updates and removals.
abbrev pub selectors : List AccommodationOp → List ℕ
selectors [] = []
selectors (add_accommodation s ∷ ops) = selectors ops
selectors (update_accommodation op ∷ ops) = op.stay_index ∷ selectors ops
selectors (remove_accommodation k ∷ ops) = k ∷ selectors ops

abbrev pub AllDistinct : List ℕ → Type 0
AllDistinct [] = Unit {0}
AllDistinct (i ∷ is) = All (λ j. j ≢ i) is × AllDistinct is

-- The selector picks the stay at the position: it stands at the selector in order of check-in.
abbrev pub Picks : List AccommodationStay → ℕ → ℕ → Type 0
Picks stays selector i =
    (s : AccommodationStay) × (get_elem? stays i ≡ some s)
    × (get_elem? (sort_stays stays) selector ≡ some s)

-- Each selector picks the position beside it.
abbrev pub AllPick : List AccommodationStay → List ℕ → List ℕ → Type 0
AllPick stays [] [] = Unit {0}
AllPick stays (k ∷ ks) (i ∷ is) = Picks stays k i × AllPick stays ks is
AllPick stays [] (i ∷ is) = ⊥
AllPick stays (k ∷ ks) [] = ⊥

resolve_selector-Picks :
    (stays : List AccommodationStay) (claimed : List ℕ) (k : ℕ) {i : ℕ}
    → resolve_selector (sorted_positions stays) claimed k ≡ ok i
    → Picks stays k i × (is_among i claimed ≡ false)
unfolding resolve_selector
resolve_selector-Picks stays claimed k {i} e =
    elim (Option-cases (get_elem? (sorted_positions stays) k)) [
      | inl missing ↦ let failed = rw (missing, resolve_selector) at e in cc
      | inr ((j, s), found) ↦ elim (Bool-cases (is_among j claimed)) [
        | inl taken ↦ let failed = rw (found, resolve_selector, taken) at e in cc
        | inr free ↦
            let done = rw (found, resolve_selector, free) at e in
            let same_one : j ≡ i = cc in
            let (at, ordered) = sorted_positions-at stays k found in
            rw (sym same_one) ((s, at, ordered), free)
      ]
    ]

-- The positions are claimed once, and none of them was claimed before.
abbrev Claims : List AccommodationStay → List ℕ → List ℕ → List ResolvedOp → Type 0
Claims stays claimed ks resolved =
    AllPick stays ks (targets resolved)
    × AllDistinct (targets resolved)
    × All (λ i. is_among i claimed ≡ false) (targets resolved)

not_claimed-ne : (i j : ℕ) (claimed : List ℕ) → is_among j (i ∷ claimed) ≡ false → j ≢ i
unfolding is_among
not_claimed-ne i j claimed h e = ground (arith, h, e)

not_claimed-tail :
    (i j : ℕ) (claimed : List ℕ) → is_among j (i ∷ claimed) ≡ false → is_among j claimed ≡ false
unfolding is_among
not_claimed-tail i j claimed h = ground (arith, h)

claim :
    (stays : List AccommodationStay) (claimed : List ℕ) (i k : ℕ) (is ks : List ℕ)
    → Picks stays k i × (is_among i claimed ≡ false)
    → AllPick stays ks is × AllDistinct is × All (λ j. is_among j (i ∷ claimed) ≡ false) is
    → AllPick stays (k ∷ ks) (i ∷ is)
      × AllDistinct (i ∷ is)
      × All (λ j. is_among j claimed ≡ false) (i ∷ is)
claim stays claimed i k is ks (picks, free) (all_pick, distinct, all_free) = (
  (picks, all_pick),
  (
    All-map (λ j. is_among j (i ∷ claimed) ≡ false) (λ j. j ≢ i)
        (λ j h. not_claimed-ne i j claimed h) is all_free,
    distinct,
  ),
  (
    free,
    All-map (λ j. is_among j (i ∷ claimed) ≡ false) (λ j. is_among j claimed ≡ false)
        (λ j h. not_claimed-tail i j claimed h) is all_free,
  ),
)

resolve_from-Claims :
    (stays : List AccommodationStay) (claimed : List ℕ) (ops : List AccommodationOp)
    {resolved : List ResolvedOp}
    → resolve_from (sorted_positions stays) claimed ops ≡ ok resolved
    → Claims stays claimed (selectors ops) resolved
unfolding resolve_from
resolve_from-Claims stays claimed [] {resolved} e =
    let same_one : [] ≡ resolved = cc in rw (sym same_one) (tt, tt, tt)
resolve_from-Claims stays claimed (add_accommodation s ∷ ops) {resolved} e =
    let (rest, later, done) = >>=-eq-ok (resolve_from (sorted_positions stays) claimed ops) _ e in
    let same_one : adds s ∷ rest ≡ resolved = cc in
    rw (sym same_one) (resolve_from-Claims stays claimed ops later)
resolve_from-Claims stays claimed (update_accommodation op ∷ ops) {resolved} e =
    let positions = sorted_positions stays in
    let (i, picked, more) = >>=-eq-ok (resolve_selector positions claimed op.stay_index) _ e in
    let (rest, later, done) = >>=-eq-ok (resolve_from positions (i ∷ claimed) ops) _ more in
    let same_one : updates i op ∷ rest ≡ resolved = cc in
    rw (sym same_one) (
      claim stays claimed i op.stay_index (targets rest) (selectors ops)
        (resolve_selector-Picks stays claimed op.stay_index picked)
        (resolve_from-Claims stays (i ∷ claimed) ops later))
resolve_from-Claims stays claimed (remove_accommodation k ∷ ops) {resolved} e =
    let positions = sorted_positions stays in
    let (i, picked, more) = >>=-eq-ok (resolve_selector positions claimed k) _ e in
    let (rest, later, done) = >>=-eq-ok (resolve_from positions (i ∷ claimed) ops) _ more in
    let same_one : removes i ∷ rest ≡ resolved = cc in
    rw (sym same_one) (
      claim stays claimed i k (targets rest) (selectors ops)
        (resolve_selector-Picks stays claimed k picked)
        (resolve_from-Claims stays (i ∷ claimed) ops later))

-- Where the selectors of a batch are resolved, each picks the stay that stands at that place in order
-- of check-in before the batch, whatever else the batch does, and no stay is picked twice.
pub resolve_accommodation_selectors-AllPick :
    (stays : List AccommodationStay) (ops : List AccommodationOp) {resolved : List ResolvedOp}
    → resolve_accommodation_selectors stays ops ≡ ok resolved
    → AllPick stays (selectors ops) (targets resolved) × AllDistinct (targets resolved)
unfolding resolve_accommodation_selectors
resolve_accommodation_selectors-AllPick stays ops e =
    let (picks, distinct, free) = resolve_from-Claims stays [] ops e in (picks, distinct)

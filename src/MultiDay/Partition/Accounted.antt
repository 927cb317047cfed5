-- ===== src/MultiDay/Partition/Accounted.antt =====
-- Every place of the request ends in exactly one bucket or list of skipped places.
use travel_llm_planner.Common.{
  ℕ, zero, suc, ◌+◌, ◌≡◌, refl, ap, ◌∙◌, Option, none, some, List, [], ◌∷◌, ◌++◌, map, length,
  get_elem?, String, arith,
}
use travel_llm_planner.Common.Counting.{occurrences, occurrences-append, one_if_same}
use travel_llm_planner.Places.{skipped_ids, SkippedPlace}
use travel_llm_planner.Planner.{PlaceDayPreference}
use travel_llm_planner.MultiDay.{TransitionDayContext}
use travel_llm_planner.MultiDay.Partition.{
  DayBuckets, Partition, TransitionSide, set_at, place_into_bucket, place_on,
}

abbrev pub ids_of : DayBuckets → List String
ids_of day = day.bucket ++ day.pre ++ day.post ++ skipped_ids day.pre_solver_skipped

abbrev pub placed_ids : List DayBuckets → List String
placed_ids [] = []
placed_ids (day ∷ days) = ids_of day ++ placed_ids days

-- The identifiers in the buckets of all days, and those of the places that no day takes.
abbrev pub held : Partition → List String
held st = placed_ids st.days ++ skipped_ids st.unassigned

abbrev pub wanted_ids : List PlaceDayPreference → List String
wanted_ids ps = map (λ (p : PlaceDayPreference). p.place_id) ps

-- One more place is held, and no day is lost.
pub record Adds (st : Partition) (place_id : String) (st' : Partition) : Type 0 where
  pub size : length st'.days ≡ length st.days
  pub more :
      (x : String) → occurrences x (held st') ≡ one_if_same x place_id + occurrences x (held st)

abbrev pub AddsTo : DayBuckets → String → DayBuckets → Type 0
AddsTo day place_id day' =
    (x : String) → occurrences x (ids_of day') ≡ one_if_same x place_id + occurrences x (ids_of day)

pub occurrences-add :
    (x y : String) (xs : List String)
    → occurrences x (xs ++ y ∷ []) ≡ one_if_same x y + occurrences x xs
unfolding occurrences
occurrences-add x y xs = occurrences-append x xs (y ∷ []) ∙ omega arith

place_on-AddsTo :
    (ctx : Option TransitionDayContext) (side : Option TransitionSide) (day : DayBuckets)
    (place_id : String) (visit : ℕ)
    → AddsTo day place_id (place_on ctx side day place_id visit)
unfolding place_on occurrences
place_on-AddsTo none side day place_id visit x = simp occurrences-append (omega arith)
place_on-AddsTo (some ctx) (some TransitionSide.origin) day place_id visit x =
    simp occurrences-append (omega arith)
place_on-AddsTo (some ctx) (some TransitionSide.destination) day place_id visit x =
    simp occurrences-append (omega arith)
place_on-AddsTo (some ctx) (some TransitionSide.no_coordinates) day place_id visit x =
    simp occurrences-append (omega arith)
place_on-AddsTo (some ctx) none day place_id visit x = simp occurrences-append (omega arith)

pub place_into_bucket-AddsTo :
    (day : DayBuckets) (side : Option TransitionSide) (place_id : String) (visit : ℕ)
    → AddsTo day place_id (place_into_bucket day side place_id visit)
unfolding place_into_bucket
place_into_bucket-AddsTo day side place_id visit =
    place_on-AddsTo day.context side day place_id visit

pub placed_ids-set_at :
    (days : List DayBuckets) (i : ℕ) (day day' : DayBuckets) (place_id x : String)
    → get_elem? days i ≡ some day
    → AddsTo day place_id day'
    → occurrences x (placed_ids (set_at i day' days))
      ≡ one_if_same x place_id + occurrences x (placed_ids days)
unfolding set_at
placed_ids-set_at [] i day day' place_id x there adds = cc
placed_ids-set_at (d ∷ days) zero day day' place_id x there adds =
    let e : d ≡ day = cc in
    let now = ap (λ k. occurrences x (ids_of k)) e in
    let more = adds x in
    let left = occurrences-append x (ids_of day') (placed_ids days) in
    let right = occurrences-append x (ids_of d) (placed_ids days) in omega arith
placed_ids-set_at (d ∷ days) (suc i) day day' place_id x there adds =
    let ih = placed_ids-set_at days i day day' place_id x there adds in
    let left = occurrences-append x (ids_of d) (placed_ids (set_at i day' days)) in
    let right = occurrences-append x (ids_of d) (placed_ids days) in omega arith

length-set_at :
    (i : ℕ) (day : DayBuckets) (days : List DayBuckets) → length (set_at i day days) ≡ length days
unfolding set_at
length-set_at i day [] = refl
length-set_at zero day (d ∷ days) = refl
length-set_at (suc i) day (d ∷ days) = ap suc (length-set_at i day days)

pub set_at-Adds :
    (st st' : Partition) (i : ℕ) (day day' : DayBuckets) (place_id : String)
    → get_elem? st.days i ≡ some day
    → AddsTo day place_id day'
    → st'.unassigned ≡ st.unassigned
    → st'.days ≡ set_at i day' st.days
    → Adds st place_id st'
set_at-Adds st st' i day day' place_id there adds stays put = record {
  size = ap length put ∙ length-set_at i day' st.days;
  more = λ x.
      let more = placed_ids-set_at st.days i day day' place_id x there adds in
      let left = occurrences-append x (placed_ids st'.days) (skipped_ids st'.unassigned) in
      let right = occurrences-append x (placed_ids st.days) (skipped_ids st.unassigned) in
      let same_left = ap (λ k. occurrences x (skipped_ids k)) stays in
      let same_days = ap (λ k. occurrences x (placed_ids k)) put in omega arith;
}

pub skipped_ids-append :
    (xs : List SkippedPlace) (s : SkippedPlace)
    → skipped_ids (xs ++ s ∷ []) ≡ skipped_ids xs ++ s.place_id ∷ []
skipped_ids-append [] s = refl
skipped_ids-append (x ∷ xs) s = ap (λ k. x.place_id ∷ k) (skipped_ids-append xs s)

pub unassigned-Adds :
    (st st' : Partition) (s : SkippedPlace)
    → st'.days ≡ st.days
    → st'.unassigned ≡ st.unassigned ++ s ∷ []
    → Adds st s.place_id st'
unassigned-Adds st st' s stays put = record {
  size = ap length stays;
  more = λ x.
      let left = occurrences-append x (placed_ids st'.days) (skipped_ids st'.unassigned) in
      let right = occurrences-append x (placed_ids st.days) (skipped_ids st.unassigned) in
      let same_days = ap (λ k. occurrences x (placed_ids k)) stays in
      let skipped =
        ap (λ k. occurrences x (skipped_ids k)) put
        ∙ ap (occurrences x) (skipped_ids-append st.unassigned s)
        ∙ occurrences-add x s.place_id (skipped_ids st.unassigned) in
      omega arith;
}

-- ===== src/MultiDay/Partition/Packing.antt =====
-- One place of the loops over `flexible` and `auto`: a candidate day takes it, or none does.
use travel_llm_planner.Common.{
  ℕ, ◌<◌, ◌≡◌, refl, sym, ◌⊎◌, inl, inr, true, false, some, List, [], ◌∷◌, ◌++◌, length, get_elem?,
  All, All-map, String, arith, Dict,
}
use travel_llm_planner.Common.Raising.{Raising, ok, >>=-eq-ok, ok-eq}
use travel_llm_planner.Places.{PlaceDoc, doc_of, visit_min}
use travel_llm_planner.Planner.{PlaceDayPreference, DayConfig, is_among}
use travel_llm_planner.Service.{Failure}
use travel_llm_planner.MultiDay.Partition.{
  DayBuckets, Partition, Candidate, candidate, classify, admitted, best_of, settle, pack_unpinned,
  set_at, place_into_bucket, skipped_as, rejection_reason,
}
use travel_llm_planner.MultiDay.Days.{candidate_days}
use travel_llm_planner.MultiDay.Partition.Choice.{
  room, AtMost, best_of-All, admitted-All, admitted-All_back, best_of-AtMost, is_false, IsFrom,
  classify-IsFrom, classify_complete, classify_total,
}

module _ (haversine_km : ℕ → ℕ → ℕ → ℕ → ℕ) (docs : Dict PlaceDoc)
    (day_configs : List DayConfig) where
  abbrev packed : Partition → PlaceDayPreference → Raising Failure Partition
  packed = pack_unpinned haversine_km docs day_configs

  abbrev wanted : PlaceDayPreference → List ℕ
  wanted pref = candidate_days day_configs (doc_of docs pref.place_id) pref.day_preferences

  -- The candidate that this day makes for the place.
  abbrev pub offer : PlaceDayPreference → ℕ → DayBuckets → Candidate
  offer pref i day = candidate haversine_km i day (doc_of docs pref.place_id)

  -- What packing a place comes to: a candidate day that is admissible takes it, and no other
  -- admissible candidate has more room left.
  pub record Taken (st : Partition) (pref : PlaceDayPreference) (st' : Partition) : Type 0 where
    pub best : Candidate
    pub from : IsFrom haversine_km st.days (doc_of docs pref.place_id) (wanted pref) best
    pub fits : best.is_admissible ≡ true
    pub roomiest :
        (i : ℕ) (day : DayBuckets)
        → get_elem? st.days i ≡ some day
        → is_among i (wanted pref) ≡ true
        → (offer pref i day).is_admissible ≡ true
        → AtMost (room (offer pref i day)) (room best)
    pub stays : st'.unassigned ≡ st.unassigned
    pub put :
        st'.days
        ≡ set_at best.day_index
            (place_into_bucket best.day best.side pref.place_id
              (visit_min (doc_of docs pref.place_id)))
            st.days

  -- Or no candidate is admissible, and it is left out.
  pub record LeftOut (st : Partition) (pref : PlaceDayPreference) (st' : Partition) : Type 0 where
    pub reason : String
    pub full :
        (i : ℕ) (day : DayBuckets)
        → get_elem? st.days i ≡ some day
        → is_among i (wanted pref) ≡ true
        → (offer pref i day).is_admissible ≡ false
    pub stays : st'.days ≡ st.days
    pub put :
        st'.unassigned
        ≡ st.unassigned ++ skipped_as pref.place_id reason (doc_of docs pref.place_id) ∷ []

  abbrev classified : Partition → PlaceDayPreference → Raising Failure (List Candidate)
  classified st pref = classify haversine_km st.days (doc_of docs pref.place_id) (wanted pref)

  settle_lem :
      (st : Partition) (pref : PlaceDayPreference) (good cs : List Candidate) (st' : Partition)
      → classified st pref ≡ ok cs
      → admitted cs ≡ good
      → settle st pref.place_id (doc_of docs pref.place_id) good cs ≡ ok st'
      → Taken st pref st' ⊎ LeftOut st pref st'
  unfolding settle
  settle_lem st pref (c ∷ good) cs st' e f h =
      let all =
        admitted-All _ cs
          (classify-IsFrom haversine_km st.days (doc_of docs pref.place_id) (wanted pref) cs e) in
      let (p, ps) = rw f at all in
      let (from, fits) = best_of-All _ c good p ps in
      let most : All (λ a. AtMost (room a) (room (best_of c good))) (admitted cs) =
        rw f (best_of-AtMost c good) in
      inl (record {
        best = best_of c good;
        from = from;
        fits = fits;
        roomiest =
            classify_complete haversine_km st.days (doc_of docs pref.place_id) _ (wanted pref) cs e
              (admitted-All_back _ cs most);
        stays = sym (ok-eq (λ (p : Partition). p.unassigned) h);
        put = sym (ok-eq (λ (p : Partition). p.days) h);
      })
  settle_lem st pref [] [] st' e f h = cc
  settle_lem st pref [] (c ∷ cs) st' e f h =
      let none_fits : All (λ a. a.is_admissible ≡ true → ⊥) (c ∷ cs) =
        admitted-All_back (λ a. ⊥) (c ∷ cs) (rw f tt) in
      inr (record {
        reason = rejection_reason (best_of c cs).side;
        full =
            classify_complete haversine_km st.days (doc_of docs pref.place_id) _ (wanted pref) _ e (
              All-map _ _ (λ a (never : a.is_admissible ≡ true → ⊥). is_false a.is_admissible never)
                (c ∷ cs) none_fits);
        stays = sym (ok-eq (λ (p : Partition). p.days) h);
        put = sym (ok-eq (λ (p : Partition). p.unassigned) h);
      })

  -- Where packing a place does not raise, a candidate day that is admissible takes it, with no less
  -- room left than any other admissible candidate; or no candidate day is admissible, and the place
  -- joins the unassigned ones.
  pub pack_unpinned_cases :
      (st : Partition) (pref : PlaceDayPreference) (st' : Partition)
      → packed st pref ≡ ok st'
      → Taken st pref st' ⊎ LeftOut st pref st'
  unfolding pack_unpinned
  pack_unpinned_cases st pref st' h =
      let (cs, e, h') = >>=-eq-ok (classified st pref) _ h in
      settle_lem st pref (admitted cs) cs st' e refl h'

  settle_total :
      (st : Partition) (place_id : String) (doc : PlaceDoc) (good cs : List Candidate)
      → 0 < length cs
      → (st' : Partition) × (settle st place_id doc good cs ≡ ok st')
  unfolding settle
  settle_total st place_id doc (c ∷ good) cs pos = (_, refl)
  settle_total st place_id doc [] [] pos = absurd (omega arith)
  settle_total st place_id doc [] (c ∷ cs) pos = (_, refl)

  -- A place with some candidate day, all of them there, never raises.
  pub pack_unpinned_total :
      (st : Partition) (pref : PlaceDayPreference)
      → All (λ i. i < length st.days) (wanted pref)
      → 0 < length (wanted pref)
      → (st' : Partition) × (packed st pref ≡ ok st')
  unfolding pack_unpinned
  pack_unpinned_total st pref all pos =
      let (cs, e, same) =
        classify_total haversine_km st.days (doc_of docs pref.place_id) (wanted pref) all in
      let (st', done) =
        settle_total st pref.place_id (doc_of docs pref.place_id) (admitted cs) cs (omega arith) in
      (st', rw e done)

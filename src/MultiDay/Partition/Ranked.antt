-- ===== src/MultiDay/Partition/Ranked.antt =====
-- The places sorted out by their number of slots and sorted by rank: none is lost or added.
use travel_llm_planner.Common.{
  ℕ, suc, ◌+◌, ◌≡◌, refl, ◌∙◌, Bool, true, false, List, [], ◌∷◌, length, All, String, arith, Dict,
  if◌then◌else◌, leb, ◌==◌, ltb,
}
use travel_llm_planner.Common.Counting.{occurrences, one_if_same}
use travel_llm_planner.Places.{PlaceDoc}
use travel_llm_planner.Planner.{DaySlot, PlaceDayPreference}
use travel_llm_planner.MultiDay.Days.{
  those, sort_ranked, insert_ranked, is_pinned, is_flexible, is_auto, priority_rank,
}
use travel_llm_planner.MultiDay.Partition.Accounted.{wanted_ids}

module _ (Q : PlaceDayPreference → Type 0) where
  pub those-All :
      (test : PlaceDayPreference → Bool) (ps : List PlaceDayPreference)
      → All Q ps
      → All (λ p. (test p ≡ true) × Q p) (those test ps)
  unfolding those
  those-All test [] all = tt
  those-All test (p ∷ ps) (q, all) = kept (test p) refl (those-All test ps all)
    where
      kept :
          (b : Bool)
          → test p ≡ b
          → All (λ p. (test p ≡ true) × Q p) (those test ps)
          → All (λ p. (test p ≡ true) × Q p) (if b then p ∷ those test ps else those test ps)
      kept true e rest = ((e, q), rest)
      kept false e rest = rest

  insert_ranked-All :
      (docs : Dict PlaceDoc) (p : PlaceDayPreference) (ps : List PlaceDayPreference)
      → Q p
      → All Q ps
      → All Q (insert_ranked docs p ps)
  unfolding insert_ranked
  insert_ranked-All docs p [] q all = (q, tt)
  insert_ranked-All docs p (r ∷ rs) q (t, all) =
      chosen (leb (priority_rank docs p.place_id) (priority_rank docs r.place_id))
        (insert_ranked-All docs p rs q all)
    where
      chosen :
          (b : Bool)
          → All Q (insert_ranked docs p rs)
          → All Q (if b then p ∷ r ∷ rs else r ∷ insert_ranked docs p rs)
      chosen true rest = (q, (t, all))
      chosen false rest = (t, rest)

  pub sort_ranked-All :
      (docs : Dict PlaceDoc) (ps : List PlaceDayPreference) → All Q ps → All Q (sort_ranked docs ps)
  unfolding sort_ranked
  sort_ranked-All docs [] all = tt
  sort_ranked-All docs (p ∷ ps) (q, all) =
      insert_ranked-All docs p (sort_ranked docs ps) q (sort_ranked-All docs ps all)

insert_ranked-occurrences :
    (docs : Dict PlaceDoc) (p : PlaceDayPreference) (ps : List PlaceDayPreference) (x : String)
    → occurrences x (wanted_ids (insert_ranked docs p ps))
      ≡ one_if_same x p.place_id + occurrences x (wanted_ids ps)
unfolding insert_ranked occurrences
insert_ranked-occurrences docs p [] x = refl
insert_ranked-occurrences docs p (r ∷ rs) x =
    chosen (leb (priority_rank docs p.place_id) (priority_rank docs r.place_id))
      (insert_ranked-occurrences docs p rs x)
  where
    chosen :
        (b : Bool)
        → occurrences x (wanted_ids (insert_ranked docs p rs))
          ≡ one_if_same x p.place_id + occurrences x (wanted_ids rs)
        → occurrences x (wanted_ids (if b then p ∷ r ∷ rs else r ∷ insert_ranked docs p rs))
          ≡ one_if_same x p.place_id + occurrences x (wanted_ids (r ∷ rs))
    chosen true ih = refl
    chosen false ih = omega (arith, ih)

pub sort_ranked-occurrences :
    (docs : Dict PlaceDoc) (ps : List PlaceDayPreference) (x : String)
    → occurrences x (wanted_ids (sort_ranked docs ps)) ≡ occurrences x (wanted_ids ps)
unfolding sort_ranked occurrences
sort_ranked-occurrences docs [] x = refl
sort_ranked-occurrences docs (p ∷ ps) x =
    let ih = sort_ranked-occurrences docs ps x in
    insert_ranked-occurrences docs p (sort_ranked docs ps) x ∙ omega arith

-- Each place has one slot, several, or none.
pub those-occurrences :
    (ps : List PlaceDayPreference) (x : String)
    → occurrences x (wanted_ids (those is_pinned ps))
        + occurrences x (wanted_ids (those is_flexible ps))
        + occurrences x (wanted_ids (those is_auto ps))
      ≡ occurrences x (wanted_ids ps)
unfolding those occurrences
those-occurrences [] x = refl
those-occurrences (p ∷ ps) x = let ih = those-occurrences ps x in by_slots p.day_preferences ih
  where
    tally : (PlaceDayPreference → Bool) → List DaySlot → Bool → ℕ
    tally test slots b = occurrences x (wanted_ids (if b then p ∷ those test ps else those test ps))

    by_slots :
        (slots : List DaySlot)
        → occurrences x (wanted_ids (those is_pinned ps))
            + occurrences x (wanted_ids (those is_flexible ps))
            + occurrences x (wanted_ids (those is_auto ps))
          ≡ occurrences x (wanted_ids ps)
        → tally is_pinned slots (length slots == 1)
            + tally is_flexible slots (ltb 1 (length slots))
            + tally is_auto slots (length slots == 0)
          ≡ one_if_same x p.place_id + occurrences x (wanted_ids ps)
    by_slots [] ih = omega (arith, ih)
    by_slots (s ∷ []) ih = omega (arith, ih)
    by_slots (s ∷ t ∷ ss) ih =
        let one : (suc (suc (length ss)) == 1) ≡ false = ground arith in
        let several : ltb 1 (suc (suc (length ss))) ≡ true = ground arith in
        let zero : (suc (suc (length ss)) == 0) ≡ false = ground arith in
        rw (one, several, zero) (omega (arith, ih))

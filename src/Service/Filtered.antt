-- ===== src/Service/Filtered.antt =====
-- The first loop of `optimize_route` loses no place, and what it keeps can be looked up.
use travel_llm_planner.Common.{
  ℕ, suc, ◌+◌, ◌≤◌, ◌≡◌, refl, sym, ap, ◌∙◌, subst, inl, inr, true, false, Option, none, some,
  String, List, [], ◌∷◌, ◌++◌, arith, same, same→eq, same_refl, Bool-cases, Dict, lookup, length,
}
use travel_llm_planner.Common.Counting.{occurrences, one_if_same, occurrences-append}
use travel_llm_planner.Common.Raising.{ok}
use travel_llm_planner.Window.{TimeWindow}
use travel_llm_planner.Places.{skipped_ids, PlaceDoc, SkippedPlace, priority_of}
use travel_llm_planner.Service.Eligible.{
  Coord, Verdict, Eligible, eligible, enter, judge, judge_place, judge_window, skipping,
}
use travel_llm_planner.Service.Priorities.{is_must_see}
use travel_llm_planner.Service.Counts.{same_comm}
use travel_llm_planner.Engine.Nearest.{contains}
use travel_llm_planner.Service.Route.{node_ids, priorities_of, skip_all}

-- What stands under a node's identifier.
pub record IsNode (docs : Dict PlaceDoc) (e : Eligible) (x : String) : Type 0 where
  pub doc : PlaceDoc
  pub visit : ℕ
  pub found : lookup x docs ≡ some doc
  pub timed : lookup x e.visit_durations_s ≡ some visit

-- And what does not stand under any other.
pub record IsStranger (e : Eligible) (x : String) : Type 0 where
  pub no_window : lookup x e.time_windows ≡ none
  pub no_visit : lookup x e.visit_durations_s ≡ none

-- The verdict on a place is about this place, which has a document if it is kept.
abbrev About : String → Option PlaceDoc → Verdict → Type 0
About id found (Verdict.skip s) = s.place_id ≡ id
About id found (Verdict.keep c tw visit) = (c.place_id ≡ id) × (doc : PlaceDoc) × (found ≡ some doc)

judge_window-About :
    (id : String) (doc : PlaceDoc) (lat lng : ℕ) (window : Option TimeWindow)
    → About id (some doc) (judge_window id doc lat lng window)
unfolding judge_window
judge_window-About id doc lat lng none = refl
judge_window-About id doc lat lng (some tw) = (refl, doc, refl)

judge_place-About :
    (id : String) (doc : PlaceDoc) (lat lng : Option ℕ) (window : Option TimeWindow)
    → About id (some doc) (judge_place id doc lat lng window)
unfolding judge_place
judge_place-About id doc (some lat) (some lng) window = judge_window-About id doc lat lng window
judge_place-About id doc none lng window = refl
judge_place-About id doc (some lat) none window = refl

judge-About :
    (id : String) (found : Option PlaceDoc) (s e : ℕ) (weekday : Option ℕ)
    → About id found (judge id found s e weekday)
unfolding judge
judge-About id none s e weekday = refl
judge-About id (some doc) s e weekday = judge_place-About id doc doc.lat doc.lng _

enter-occurrences :
    (x id : String) (found : Option PlaceDoc) (v : Verdict) (e : Eligible)
    → About id found v
    → occurrences x (node_ids (enter v e).coords) + occurrences x (skipped_ids (enter v e).skipped)
      ≡ one_if_same x id
        + (occurrences x (node_ids e.coords) + occurrences x (skipped_ids e.skipped))
unfolding enter occurrences
enter-occurrences x id found (Verdict.skip s) e about =
    let a = ap (one_if_same x) about in omega arith
enter-occurrences x id found (Verdict.keep c tw visit) e (about, doc, there) =
    let a = ap (one_if_same x) about in omega arith

module _ (docs : Dict PlaceDoc) (s d : ℕ) (weekday : Option ℕ) where
  abbrev filtered : List String → Eligible
  filtered = eligible docs s d weekday

  -- Every place is kept or skipped, exactly once.
  pub eligible-occurrences :
      (x : String) (ids : List String)
      → occurrences x (node_ids (filtered ids).coords)
          + occurrences x (skipped_ids (filtered ids).skipped)
        ≡ occurrences x ids
  unfolding eligible occurrences
  eligible-occurrences x [] = refl
  eligible-occurrences x (id ∷ ids) =
      let ih = eligible-occurrences x ids in
      let v = judge id (lookup id docs) s d weekday in
      let step =
        enter-occurrences x id (lookup id docs) v (filtered ids)
          (judge-About id (lookup id docs) s d weekday) in
      step ∙ omega (arith, ih)

  enter-length :
      (v : Verdict) (e : Eligible)
      → length (node_ids (enter v e).coords) ≤ suc (length (node_ids e.coords))
  unfolding enter
  enter-length (Verdict.skip k) e = omega arith
  enter-length (Verdict.keep c tw visit) e = omega arith

  pub eligible-length : (ids : List String) → length (node_ids (filtered ids).coords) ≤ length ids
  unfolding eligible
  eligible-length [] = omega arith
  eligible-length (id ∷ ids) =
      let ih = eligible-length ids in
      let step = enter-length (judge id (lookup id docs) s d weekday) (filtered ids) in omega arith

  enter-IsNode :
      (x id : String) (v : Verdict) (e : Eligible)
      → About id (lookup id docs) v
      → (1 ≤ occurrences x (node_ids e.coords) → IsNode docs e x)
      → 1 ≤ occurrences x (node_ids (enter v e).coords)
      → IsNode docs (enter v e) x
  unfolding enter occurrences lookup
  enter-IsNode x id (Verdict.skip k) e about ih h =
      let n = ih h in record { doc = n.doc; visit = n.visit; found = n.found; timed = n.timed }
  enter-IsNode x id (Verdict.keep c tw visit) e (about, doc, there) ih h =
      elim (Bool-cases (same c.place_id x)) [
        | inl hit ↦ record {
          doc = doc;
          visit = visit;
          found =
              subst (λ k. lookup k docs ≡ some doc) (sym about ∙ same→eq c.place_id x hit) there;
          timed = rw hit refl;
        }
        | inr miss ↦
            let other : same x c.place_id ≡ false = same_comm x c.place_id ∙ miss in
            let n = ih (let k = rw other at h in omega (arith, k)) in
            record { doc = n.doc; visit = n.visit; found = n.found; timed = rw miss n.timed }
      ]

  pub eligible-IsNode :
      (x : String) (ids : List String)
      → 1 ≤ occurrences x (node_ids (filtered ids).coords)
      → IsNode docs (filtered ids) x
  unfolding eligible occurrences
  eligible-IsNode x [] h = absurd (omega arith)
  eligible-IsNode x (id ∷ ids) h =
      enter-IsNode x id (judge id (lookup id docs) s d weekday) (filtered ids)
        (judge-About id (lookup id docs) s d weekday) (eligible-IsNode x ids) h

  enter-IsStranger :
      (x id : String) (v : Verdict) (e : Eligible)
      → About id (lookup id docs) v
      → same id x ≡ false
      → IsStranger e x
      → IsStranger (enter v e) x
  unfolding enter lookup
  enter-IsStranger x id (Verdict.skip k) e about other st = record {
    no_window = st.no_window;
    no_visit = st.no_visit;
  }
  enter-IsStranger x id (Verdict.keep c tw visit) e (about, doc, there) other st =
      let miss : same c.place_id x ≡ false = rw about other in
      record { no_window = rw miss st.no_window; no_visit = rw miss st.no_visit }

  pub eligible-IsStranger :
      (x : String) (ids : List String) → occurrences x ids ≡ 0 → IsStranger (filtered ids) x
  unfolding eligible occurrences lookup
  eligible-IsStranger x [] h = record { no_window = refl; no_visit = refl }
  eligible-IsStranger x (id ∷ ids) h =
      let other : same x id ≡ false = ground arith in
      enter-IsStranger x id (judge id (lookup id docs) s d weekday) (filtered ids)
        (judge-About id (lookup id docs) s d weekday) (same_comm id x ∙ other)
        (eligible-IsStranger x ids (omega arith))

-- The priorities of nodes that have documents.
pub priorities_of_total :
    (docs : Dict PlaceDoc) (cs : List Coord)
    → ((x : String)
        → 1 ≤ occurrences x (node_ids cs)
        → (doc : PlaceDoc) × (lookup x docs ≡ some doc))
    → (ps : Dict String) × (priorities_of docs cs ≡ ok ps)
      × ((n : String) → is_must_see ps n ≡ true → contains (node_ids cs) n ≡ true)
unfolding priorities_of occurrences contains lookup
priorities_of_total docs [] there = ([], refl, (λ n h. cc))
priorities_of_total docs (c ∷ cs) there =
    let (doc, found) = there c.place_id (let e = same_refl c.place_id in rw e (omega arith)) in
    let (ps, done, known) = priorities_of_total docs cs (λ x m. there x (omega arith)) in
    (
      (c.place_id, priority_of doc) ∷ ps,
      rw (found, done) refl,
      λ n h. elim (Bool-cases (same c.place_id n)) [
        | inl hit ↦ rw hit refl
        | inr miss ↦ rw miss (known n (rw miss at h))
      ],
    )

skipped_ids-append :
    (xs : List SkippedPlace) (s : SkippedPlace)
    → skipped_ids (xs ++ s ∷ []) ≡ skipped_ids xs ++ s.place_id ∷ []
skipped_ids-append [] s = refl
skipped_ids-append (x ∷ xs) s = ap (λ k. x.place_id ∷ k) (skipped_ids-append xs s)

-- The loops that append to `skipped`, for places that have documents.
pub skip_all_total :
    (docs : Dict PlaceDoc) (reason : String → String) (ids : List String)
    (skipped : List SkippedPlace)
    → ((x : String) → 1 ≤ occurrences x ids → (doc : PlaceDoc) × (lookup x docs ≡ some doc))
    → (out : List SkippedPlace) × (skip_all docs reason skipped ids ≡ ok out)
      × ((x : String)
          → occurrences x (skipped_ids out)
            ≡ occurrences x (skipped_ids skipped) + occurrences x ids)
unfolding skip_all occurrences
skip_all_total docs reason [] skipped there = (skipped, refl, λ x. omega arith)
skip_all_total docs reason (id ∷ ids) skipped there =
    let (doc, found) = there id (let e = same_refl id in rw e (omega arith)) in
    let next = skipping id doc.name (reason id) in
    let (out, done, counts) =
      skip_all_total docs reason ids (skipped ++ next ∷ []) (λ x m. there x (omega arith)) in
    (
      out,
      rw found done,
      λ x.
          let a = counts x in
          let b =
            ap (occurrences x) (skipped_ids-append skipped next)
            ∙ occurrences-append x (skipped_ids skipped) (id ∷ []) in
          omega arith,
    )

-- ===== src/Engine/Schedule/Timetable.antt =====
-- The schedule of a route against an independent description of the timetables it may have.
use travel_llm_planner.Common.{
  ℕ, ◌+◌, ◌-◌, ◌≤◌, ◌≡◌, refl, sym, ◌↔◌, ◌≢◌, ◌∙◌, le→leb, String, true, Option, none, some, List,
  [], ◌∷◌, Dict, lookup, arith, max, inl, Bool-cases, same, inr, subst, >>=-eq-some,
}
use travel_llm_planner.Window.{TimeWindow}
use travel_llm_planner.Window.Earliest.{Fits, IsOrderedWindow, earliest_start_cases}
use travel_llm_planner.Matrix.{DistanceMatrix}
use travel_llm_planner.Engine.Schedule.Reach.{
  final_s, reach, reach-schedule_from, is_feasible-reach, reach-is_feasible,
}
use travel_llm_planner.Engine.Schedule.{
  Stop, visit_s, travel_from, begin_visit, begin_in, schedule_from, is_feasible,
}

-- The windows of a dictionary are ordered, as the constructors make them.
abbrev pub OrderedWindows : Dict TimeWindow → Type 0
OrderedWindows d = (node : String) (w : TimeWindow) → lookup node d ≡ some w → IsOrderedWindow w

pub OrderedWindows-nil : OrderedWindows []
unfolding lookup
OrderedWindows-nil node w h = cc

pub OrderedWindows-cons :
    (k : String) (v : TimeWindow) (d : Dict TimeWindow)
    → IsOrderedWindow v
    → OrderedWindows d
    → OrderedWindows ((k, v) ∷ d)
unfolding lookup
OrderedWindows-cons k v d o os node w h = elim (Bool-cases (same k node)) [
  | inl hit ↦ let e : v ≡ w = ground arith in subst IsOrderedWindow e o
  | inr miss ↦ os node w (ground arith)
]

-- A visit may begin at `s`: inside one opening segment, or after the start of the day.
abbrev pub OpenFor : Option TimeWindow → ℕ → ℕ → ℕ → Type 0
OpenFor none day_start_s v s = day_start_s ≤ s
OpenFor (some w) day_start_s v s = Fits w.segments v s

begin_in_sound :
    (w : Option TimeWindow) (d a v s : ℕ)
    → ((tw : TimeWindow) → w ≡ some tw → IsOrderedWindow tw)
    → begin_in w d a v ≡ some s
    → (a ≤ s) × OpenFor w d v s
unfolding begin_in
begin_in_sound none d a v s o h = ground arith
begin_in_sound (some tw) d a v s o h = elim (earliest_start_cases tw a v (o tw refl)) [
  | inl (r, found, e) ↦
      let same : r ≡ s = cc in (rw same at e.waits, subst (Fits tw.segments v) same e.fits)
  | inr (nothing, _) ↦ cc
]

begin_in_least :
    (w : Option TimeWindow) (d a v s : ℕ)
    → ((tw : TimeWindow) → w ≡ some tw → IsOrderedWindow tw)
    → a ≤ s
    → OpenFor w d v s
    → (r : ℕ) × (begin_in w d a v ≡ some r) × (r ≤ s)
unfolding begin_in
begin_in_least none d a v s o h f = (max a d, refl, omega arith)
begin_in_least (some tw) d a v s o h f = elim (earliest_start_cases tw a v (o tw refl)) [
  | inl (r, found, e) ↦ (r, found, e.least s h f)
  | inr (nothing, never) ↦ absurd (never s h f)
]

module _ (matrix : DistanceMatrix) (time_windows : Dict TimeWindow) (visit_durations_s : Dict ℕ)
    (day_start_s : ℕ) where
  abbrev visit : String → ℕ
  visit = visit_s visit_durations_s

  -- `starts` are times at which the visits along the route may begin, from `prev` at time `now`:
  -- each leg is in the matrix, no visit begins before the arrival, and each is open throughout.
  abbrev pub IsTimetable : Option String → ℕ → List String → List ℕ → Type 0
  IsTimetable prev now [] [] = Unit {0}
  IsTimetable prev now [] (s ∷ ss) = ⊥
  IsTimetable prev now (n ∷ ns) [] = ⊥
  IsTimetable prev now (n ∷ ns) (s ∷ ss) =
      (t : ℕ) × (travel_from matrix prev n ≡ some t)
      × (now + t ≤ s)
      × OpenFor (lookup n time_windows) day_start_s (visit n) s
      × IsTimetable (some n) (s + visit n) ns ss

  -- When the last visit of the timetable ends.
  abbrev pub ends_at : ℕ → List String → List ℕ → ℕ
  ends_at now [] ss = now
  ends_at now (n ∷ ns) [] = now
  ends_at now (n ∷ ns) (s ∷ ss) = ends_at (s + visit n) ns ss

  abbrev scheduled : Option String → ℕ → List String → Option (List Stop)
  scheduled = schedule_from matrix time_windows visit_durations_s day_start_s

  -- The start of each visit that a schedule implies.
  abbrev pub starts : List Stop → List ℕ
  starts [] = []
  starts (stop ∷ stops) = (stop.departure_s - visit stop.place_id) ∷ starts stops

  -- What a schedule of a route is made of.
  record Steps (prev : Option String) (now : ℕ) (n : String) (ns : List String) (stops : List Stop)
      : Type 0 where
    t : ℕ
    s : ℕ
    rest : List Stop
    travels : travel_from matrix prev n ≡ some t
    begins : begin_visit time_windows visit_durations_s day_start_s n (now + t) ≡ some s
    goes_on : scheduled (some n) (s + visit n) ns ≡ some rest
    made :
        stops
        ≡ record { place_id = n; arrival_s = now + t; departure_s = s + visit n; travel_s = t }
          ∷ rest

  schedule_from-Steps :
      (prev : Option String) (now : ℕ) (n : String) (ns : List String) (stops : List Stop)
      → scheduled prev now (n ∷ ns) ≡ some stops
      → Steps prev now n ns stops
  unfolding schedule_from
  schedule_from-Steps prev now n ns stops h =
      let (t, travels, h₁) = >>=-eq-some (travel_from matrix prev n) _ h in
      let (s, begins, h₂) =
        >>=-eq-some (begin_visit time_windows visit_durations_s day_start_s n (now + t)) _ h₁ in
      let (rest, goes_on, h₃) = >>=-eq-some (scheduled (some n) (s + visit n) ns) _ h₂ in
      record {
        t = t;
        s = s;
        rest = rest;
        travels = travels;
        begins = begins;
        goes_on = goes_on;
        made = cc;
      }

  module _ (ordered : OrderedWindows time_windows) where
    schedule_from-IsTimetable :
        (prev : Option String) (now : ℕ) (route : List String) (stops : List Stop)
        → scheduled prev now route ≡ some stops
        → IsTimetable prev now route (starts stops)
    unfolding schedule_from begin_visit
    schedule_from-IsTimetable prev now [] [] h = tt
    schedule_from-IsTimetable prev now [] (x ∷ xs) h = cc
    schedule_from-IsTimetable prev now (n ∷ ns) stops h =
        let k = schedule_from-Steps prev now n ns stops h in
        let (after, opened) =
          begin_in_sound (lookup n time_windows) day_start_s (now + k.t) (visit n) k.s (ordered n)
            k.begins in
        let ih = schedule_from-IsTimetable (some n) (k.s + visit n) ns k.rest k.goes_on in
        let e : k.s + visit n - visit n ≡ k.s = omega arith in
        rw k.made (k.t, k.travels, rw e after, rw e opened, rw e ih)

    schedule_from-least :
        (prev : Option String) (now later : ℕ) (route : List String) (ss : List ℕ)
        → now ≤ later
        → IsTimetable prev later route ss
        → (stops : List Stop) × (scheduled prev now route ≡ some stops)
          × (ends_at now route (starts stops) ≤ ends_at later route ss)
    unfolding schedule_from begin_visit
    schedule_from-least prev now later [] [] le f = ([], refl, le)
    schedule_from-least prev now later [] (s ∷ ss) le f = absurd f
    schedule_from-least prev now later (n ∷ ns) [] le f = absurd f
    schedule_from-least prev now later (n ∷ ns) (s ∷ ss) le (t, travels, after, opened, rest) =
        let (r, begins, before) =
          begin_in_least (lookup n time_windows) day_start_s (now + t) (visit n) s (ordered n)
            (omega arith) opened in
        let (stops, goes_on, ends) =
          schedule_from-least (some n) (r + visit n) (s + visit n) ns ss (omega arith) rest in
        let e : r + visit n - visit n ≡ r = omega arith in
        (
          record { place_id = n; arrival_s = now + t; departure_s = r + visit n; travel_s = t }
              ∷ stops,
          rw (travels, begins, goes_on) refl,
          rw e ends,
        )

    -- The last departure of a schedule is when its timetable ends.
    final_s-ends_at :
        (prev : Option String) (now : ℕ) (route : List String) (stops : List Stop)
        → scheduled prev now route ≡ some stops
        → final_s now stops ≡ ends_at now route (starts stops)
    unfolding schedule_from
    final_s-ends_at prev now [] [] h = refl
    final_s-ends_at prev now [] (x ∷ xs) h = cc
    final_s-ends_at prev now (n ∷ ns) stops h =
        let k = schedule_from-Steps prev now n ns stops h in
        let ih = final_s-ends_at (some n) (k.s + visit n) ns k.rest k.goes_on in
        let e : k.s + visit n - visit n ≡ k.s = omega arith in rw k.made (rw e ih)

    -- `is_feasible` says yes exactly when the route has a node and some timetable of it ends by
    -- the end of the day.
    pub is_feasible_iff :
        (day_end_s : ℕ) (route : List String)
        → (is_feasible route matrix time_windows visit_durations_s day_start_s day_end_s ≡ true)
          ↔ (route ≢ [])
            × (ss : List ℕ) × IsTimetable none day_start_s route ss
            × (ends_at day_start_s route ss ≤ day_end_s)
    is_feasible_iff day_end_s route = (there, back)
      where
        there :
            is_feasible route matrix time_windows visit_durations_s day_start_s day_end_s ≡ true
            → (route ≢ [])
              × (ss : List ℕ) × IsTimetable none day_start_s route ss
              × (ends_at day_start_s route ss ≤ day_end_s)
        there h =
            let (t, found, le, ne) =
              reach-is_feasible matrix time_windows visit_durations_s day_start_s day_end_s route
                h in
            let (stops, made, last) = >>=-eq-some (scheduled none day_start_s route) _ (
              sym (
                reach-schedule_from matrix time_windows visit_durations_s day_start_s none
                  day_start_s route)
              ∙ found) in
            let ends = final_s-ends_at none day_start_s route stops made in
            let final : final_s day_start_s stops ≡ t = cc in
            (
              ne,
              starts stops,
              schedule_from-IsTimetable none day_start_s route stops made,
              omega arith,
            )

        back :
            (route ≢ [])
              × (ss : List ℕ) × IsTimetable none day_start_s route ss
              × (ends_at day_start_s route ss ≤ day_end_s)
            → is_feasible route matrix time_windows visit_durations_s day_start_s day_end_s ≡ true
        back (ne, ss, f, le) =
            let (stops, made, before) =
              schedule_from-least none day_start_s day_start_s route ss (omega arith) f in
            let ends = final_s-ends_at none day_start_s route stops made in
            let reached : reach matrix time_windows visit_durations_s day_start_s none day_start_s
                  route
                ≡ some (final_s day_start_s stops) =
              reach-schedule_from matrix time_windows visit_durations_s day_start_s none day_start_s
                route
              ∙ rw made in
            is_feasible-reach matrix time_windows visit_durations_s day_start_s day_end_s _ route ne
              reached
            ∙ le→leb _ _ (omega arith)

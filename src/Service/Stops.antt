-- ===== src/Service/Stops.antt =====
-- The last loop of `optimize_route`: a step for every stop that is no anchor, and the totals.
use travel_llm_planner.Common.{
  ℕ, ◌+◌, ◌-◌, ◌/◌, ◌≤◌, ◌≡◌, refl, sym, ap, ◌∙◌, subst, ◌⊎◌, inl, inr, Bool, true, false, ◌||◌,
  Option, String, List, [], ◌∷◌, ◌++◌, arith, same, same→eq, same_refl, Bool-cases, Dict, map,
  if◌then◌else◌, All,
}
use travel_llm_planner.Common.Counting.{occurrences, one_if_same, occurrences-append}
use travel_llm_planner.Common.Raising.{ok, for_each}
use travel_llm_planner.Places.{PlaceDoc}
use travel_llm_planner.Engine.Schedule.{Stop}
use travel_llm_planner.Service.Scheduled.{stop_ids}
use travel_llm_planner.Service.{RouteStep}
use travel_llm_planner.Service.Eligible.{Eligible}
use travel_llm_planner.Service.Route.{Totals, record_stop, visit_stop, is_anchor, step_of}
use travel_llm_planner.Service.Filtered.{IsNode}

abbrev pub step_ids : List RouteStep → List String
step_ids steps = map (λ (s : RouteStep). s.place_id) steps

-- The sum of a field over the steps.
unfoldable pub sum_of : (RouteStep → ℕ) → List RouteStep → ℕ
sum_of f [] = 0
sum_of f (s ∷ ss) = f s + sum_of f ss

pub sum_of-append :
    (f : RouteStep → ℕ) (ss : List RouteStep) (s : RouteStep)
    → sum_of f (ss ++ s ∷ []) ≡ sum_of f ss + f s
unfolding sum_of
sum_of-append f [] s = omega arith
sum_of-append f (x ∷ xs) s = omega (arith, sum_of-append f xs s)

step_ids-append :
    (ss : List RouteStep) (s : RouteStep) → step_ids (ss ++ s ∷ []) ≡ step_ids ss ++ s.place_id ∷ []
step_ids-append [] s = refl
step_ids-append (x ∷ xs) s = ap (λ k. x.place_id ∷ k) (step_ids-append xs s)

both_zero : (a b : Bool) → ◌≡◌ {A = ℕ} (if a then 0 else 0) (if b then 0 else 0)
both_zero true true = refl
both_zero true false = refl
both_zero false true = refl
both_zero false false = refl

-- The totals are the sums over the steps; the travel is that to the steps and to the end.
pub record IsTotal (t : Totals) : Type 0 where
  pub visits : t.total_visit_min ≡ sum_of (λ (s : RouteStep). s.visit_duration_min) t.steps
  pub waits : t.total_wait_min ≡ sum_of (λ (s : RouteStep). s.wait_min) t.steps
  pub travel :
      t.total_travel_s
      ≡ sum_of (λ (s : RouteStep). s.travel_from_previous_s) t.steps + t.travel_to_end_s

-- The stops that the loop takes for the end of the day.
unfoldable pub ends_at : Option String → List Stop → ℕ
ends_at end_id [] = 0
ends_at end_id (s ∷ ss) = (if is_anchor end_id s.place_id then 1 else 0) + ends_at end_id ss

-- A stop at the start of the day is not travelled to.
abbrev pub IsStill : Option String → Stop → Type 0
IsStill start_id stop = is_anchor start_id stop.place_id ≡ true → stop.travel_s ≡ 0

-- The end is reached at most once, and not before these stops if they reach it.
abbrev pub HasRoom : Option String → ℕ → List Stop → Type 0
HasRoom end_id to_end stops = (to_end ≡ 0) × (ends_at end_id stops ≤ 1) ⊎ (ends_at end_id stops ≡ 0)

HasRoom-fresh :
    (end_id : Option String) (to_end : ℕ) (stop : Stop) (stops : List Stop)
    → HasRoom end_id to_end (stop ∷ stops)
    → is_anchor end_id stop.place_id ≡ true
    → to_end ≡ 0
unfolding ends_at
HasRoom-fresh end_id to_end stop stops (inl (fresh, le)) hit = fresh
HasRoom-fresh end_id to_end stop stops (inr never) hit =
    let e = rw hit at never in absurd (omega (arith, e))

HasRoom-next :
    (end_id : Option String) (to_end travel : ℕ) (stop : Stop) (stops : List Stop)
    → HasRoom end_id to_end (stop ∷ stops)
    → HasRoom end_id (if is_anchor end_id stop.place_id then travel else to_end) stops
unfolding ends_at
HasRoom-next end_id to_end travel stop stops (inl (fresh, le)) =
    elim (Bool-cases (is_anchor end_id stop.place_id)) [
      | inl hit ↦ let l = rw hit at le in inr (omega (arith, l))
      | inr miss ↦ let l = rw miss at le in rw miss (inl (fresh, omega (arith, l)))
    ]
HasRoom-next end_id to_end travel stop stops (inr never) =
    inr (elim (Bool-cases (is_anchor end_id stop.place_id)) [
      | inl hit ↦ let l = rw hit at never in absurd (omega (arith, l))
      | inr miss ↦ let l = rw miss at never in omega (arith, l)
    ])

module _ (start_id end_id : Option String) (docs : Dict PlaceDoc) (e : Eligible) where
  abbrev pub skips : String → Bool
  skips x = is_anchor end_id x || is_anchor start_id x

  -- What each pass does to the totals.
  record IsPass (t : Totals) (stop : Stop) (t' : Totals) : Type 0 where
    steps :
        (x : String)
        → occurrences x (step_ids t'.steps)
          ≡ occurrences x (step_ids t.steps) + (if skips x then 0 else one_if_same x stop.place_id)
    to_end :
        t'.travel_to_end_s
        ≡ (if is_anchor end_id stop.place_id then stop.travel_s else t.travel_to_end_s)
    total :
        IsStill start_id stop
        → (is_anchor end_id stop.place_id ≡ true → t.travel_to_end_s ≡ 0)
        → IsTotal t
        → IsTotal t'

  counted_at :
      (x p : String) (b : Bool)
      → skips p ≡ b
      → (if skips x then 0 else one_if_same x p) ≡ (if b then 0 else one_if_same x p)
  counted_at x p b h = elim (Bool-cases (same x p)) [
    | inl hit ↦ let e = ap skips (same→eq x p hit) ∙ h in rw e refl
    | inr miss ↦ rw miss (both_zero (skips x) b)
  ]

  record_stop-IsPass :
      (t : Totals) (stop : Stop)
      → (skips stop.place_id ≡ false → IsNode docs e stop.place_id)
      → (t' : Totals) × (record_stop start_id end_id docs e.visit_durations_s t stop ≡ ok t')
        × IsPass t stop t'
  unfolding record_stop visit_stop occurrences
  record_stop-IsPass t stop node =
      let travelled : Totals = record t { total_travel_s = t.total_travel_s + stop.travel_s } in
      elim (Bool-cases (is_anchor end_id stop.place_id)) [
        | inl at_end ↦
            let out : skips stop.place_id ≡ true = rw at_end refl in
            (
              record travelled { travel_to_end_s = stop.travel_s },
              rw (at_end, record_stop) refl,
              record {
                steps = λ x. let c = counted_at x stop.place_id true out in omega arith;
                to_end = rw at_end refl;
                total = λ still fresh w. record {
                  visits = w.visits;
                  waits = w.waits;
                  travel = let k = w.travel in let z = fresh at_end in omega arith;
                };
              },
            )
        | inr not_end ↦ elim (Bool-cases (is_anchor start_id stop.place_id)) [
          | inl at_start ↦
              let out : skips stop.place_id ≡ true = rw (not_end, at_start) refl in
              (
                travelled,
                rw (not_end, at_start, record_stop) refl,
                record {
                  steps = λ x. let c = counted_at x stop.place_id true out in omega arith;
                  to_end = rw not_end refl;
                  total = λ still fresh w. record {
                    visits = w.visits;
                    waits = w.waits;
                    travel = let k = w.travel in let z = still at_start in omega arith;
                  };
                },
              )
          | inr not_start ↦
              let stays : skips stop.place_id ≡ false = rw (not_end, not_start) refl in
              let n = node stays in
              (
                record travelled {
                  steps = t.steps ++ step_of n.doc n.visit stop ∷ [];
                  total_visit_min = t.total_visit_min + n.visit / 60;
                  total_wait_min =
                      t.total_wait_min + (stop.departure_s - n.visit - stop.arrival_s) / 60;
                },
                rw (not_end, not_start, n.found, n.timed, record_stop) refl,
                record {
                  steps = λ x.
                      let c = counted_at x stop.place_id false stays in
                      let a =
                        ap (occurrences x) (step_ids-append t.steps (step_of n.doc n.visit stop))
                        ∙ occurrences-append x (step_ids t.steps) (stop.place_id ∷ []) in
                      omega arith;
                  to_end = rw not_end refl;
                  total = λ still fresh w. record {
                    visits =
                        let a =
                          sum_of-append (λ (s : RouteStep). s.visit_duration_min) t.steps
                            (step_of n.doc n.visit stop) in
                        let b = w.visits in omega arith;
                    waits =
                        let a =
                          sum_of-append (λ (s : RouteStep). s.wait_min) t.steps
                            (step_of n.doc n.visit stop) in
                        let b = w.waits in omega arith;
                    travel =
                        let a =
                          sum_of-append (λ (s : RouteStep). s.travel_from_previous_s) t.steps
                            (step_of n.doc n.visit stop) in
                        let b = w.travel in omega arith;
                  };
                },
              )
        ]
      ]

  -- The loop gives a step for every stop at a node, in their places, and the totals stay sums
  -- where the end is reached at most once and the start is not travelled to.
  pub for_each-record_stop :
      (stops : List Stop) (t : Totals)
      → ((x : String) → 1 ≤ occurrences x (stop_ids stops) → skips x ≡ false → IsNode docs e x)
      → (t' : Totals) × (for_each (record_stop start_id end_id docs e.visit_durations_s) t stops
          ≡ ok t')
        × ((x : String)
            → occurrences x (step_ids t'.steps)
              ≡ occurrences x (step_ids t.steps)
                + (if skips x then 0 else occurrences x (stop_ids stops)))
        × (All (IsStill start_id) stops
            → HasRoom end_id t.travel_to_end_s stops
            → IsTotal t
            → IsTotal t')
  unfolding for_each occurrences
  for_each-record_stop [] t nodes =
      (t, refl, (λ x. let z = both_zero (skips x) false in omega arith), (λ still room w. w))
  for_each-record_stop (stop ∷ stops) t nodes =
      let (next, done, pass) =
        record_stop-IsPass t stop
          (nodes stop.place_id (let r = same_refl stop.place_id in rw r (omega arith))) in
      let (t', rest, counts, total) =
        for_each-record_stop stops next (λ x m. nodes x (omega arith)) in
      (
        t',
        rw done rest,
        (λ x.
            let a = counts x in
            let b = pass.steps x in
            elim (Bool-cases (skips x)) [
              | inl out ↦ let c = rw out at a in let d = rw out at b in rw out (omega arith)
              | inr stays ↦ let c = rw stays at a in let d = rw stays at b in rw stays (omega arith)
            ]),
        (λ (still, stills) room w.
            total stills
              (subst (λ n. HasRoom end_id n stops) (sym pass.to_end)
                (HasRoom-next end_id t.travel_to_end_s stop.travel_s stop stops room))
              (pass.total still (HasRoom-fresh end_id t.travel_to_end_s stop stops room) w)),
      )

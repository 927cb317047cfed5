-- ===== src/MultiDay/Planned.antt =====
-- A day's plan accounts for the places that the partition put on the day.
pub mod DayPlans
pub mod Contexts
pub mod Requests
pub mod Trips
use travel_llm_planner.Common.{
  ℕ, zero, suc, ◌+◌, ◌≤◌, ◌≡◌, refl, sym, ◌∙◌, subst, ◌⊎◌, inl, inr, true, ◌&&◌, Option, none, some,
  String, List, [], ◌∷◌, ◌++◌, arith, length, Perm, ltb, &&-eq-true,
}
use travel_llm_planner.Common.Counting.{SameItems, occurrences-append, sum_by-SameItems}
use travel_llm_planner.Common.Raising.{Raising, raise, ok, ◌>>=◌}
use travel_llm_planner.Clock.{resolve_day_bound_s}
use travel_llm_planner.Matrix.{TransportMode}
use travel_llm_planner.Places.{PlaceDoc, skipped_ids}
use travel_llm_planner.Service.{
  Failure, OptimizeRequest, OptimizeResponse, optimize_request, validate_optimize_request,
}
use travel_llm_planner.Service.Eligible.{Coord}
use travel_llm_planner.Service.Route.{MatrixAnswer}
use travel_llm_planner.Service.Stops.{step_ids}
use travel_llm_planner.Service.Weights.{length-sum_by}
use travel_llm_planner.Service.Ends.{IsPlaceList}
use travel_llm_planner.Service.Assembled.{IsAnswer}
use travel_llm_planner.Service.Answered.{NoMatrix, optimize_route-Answers}
use travel_llm_planner.MultiDay.Plans.{DayRouteSegment, DayPlan}
use travel_llm_planner.MultiDay.Trip.{solve_at, solve_side}

-- The places on the routes of a day: of both sides on a transition day.
abbrev pub route_ids : List DayRouteSegment → DayPlan → List String
route_ids [] plan = step_ids plan.steps
route_ids (pre ∷ []) plan = step_ids pre.steps
route_ids (pre ∷ post ∷ rest) plan = step_ids pre.steps ++ step_ids post.steps

abbrev pub plan_ids : DayPlan → List String
plan_ids plan = route_ids plan.route_segments plan ++ skipped_ids plan.skipped

length-append_le :
    (xs ys : List String) → (length xs ≤ length (xs ++ ys)) × (length ys ≤ length (xs ++ ys))
length-append_le [] ys = (omega arith, omega arith)
length-append_le (x ∷ xs) ys = let (a, b) = length-append_le xs ys in (omega arith, omega arith)

-- Parts of a place list are place lists.
pub IsPlaceList-append :
    (xs ys : List String) → IsPlaceList (xs ++ ys) → IsPlaceList xs × IsPlaceList ys
IsPlaceList-append xs ys places =
    let (l, r) = length-append_le xs ys in
    let at = λ (x : String). occurrences-append x xs ys in
    let few = places.few in
    let no_start = places.no_start in
    let no_end = places.no_end in
    (
      record {
        distinct = λ x. let a = at x in let d = places.distinct x in omega arith;
        few = omega arith;
        no_start = let a = at "__start__" in omega arith;
        no_end = let a = at "__end__" in omega arith;
      },
      record {
        distinct = λ x. let a = at x in let d = places.distinct x in omega arith;
        few = omega arith;
        no_start = let a = at "__start__" in omega arith;
        no_end = let a = at "__end__" in omega arith;
      },
    )

pub IsPlaceList-SameItems :
    (xs ys : List String) → SameItems xs ys → IsPlaceList ys → IsPlaceList xs
IsPlaceList-SameItems xs ys same places =
    let l = length-sum_by xs ∙ sum_by-SameItems (λ _. 1) xs ys same ∙ sym (length-sum_by ys) in
    let few = places.few in
    record {
      distinct = λ x. let a = same x in let d = places.distinct x in omega arith;
      few = omega arith;
      no_start = same "__start__" ∙ places.no_start;
      no_end = same "__end__" ∙ places.no_end;
    }

ltb→le : (a b : ℕ) → ltb a b ≡ true → a ≤ b
ltb→le a b h = ground arith

pub validate_optimize_request-range :
    (r : OptimizeRequest)
    → validate_optimize_request r ≡ true
    → resolve_day_bound_s r.day_start_hour r.day_start_time
      ≤ resolve_day_bound_s r.day_end_hour r.day_end_time
unfolding validate_optimize_request
validate_optimize_request-range r h =
    let (a, _) = &&-eq-true _ _ h in
    let (b, _) = &&-eq-true _ _ a in let (_, range) = &&-eq-true _ _ b in ltb→le _ _ range

module _ (walk : List String → List String) (walks : (s : List String) → Perm (walk s) s)
    (fetch_places_by_ids : List String → List PlaceDoc)
    (get_matrix : ℕ
      → List Coord
      → TransportMode
      → Option ℕ
      → Option Coord
      → Option Coord
      → MatrixAnswer)
    (now : ℕ → ℕ) where
  -- The result is a value with the property, or the error of a travel-time matrix that was not given.
  abbrev pub Comes : {A : Type 0} → (A → Type 0) → Raising Failure A → Type 0
  Comes {A = A} P result =
      ((a : A) × (result ≡ ok a) × P a)
      ⊎ (status : String) × (error : Option String) × (result
          ≡ raise (Failure.matrix_unavailable status error))
        × (n : ℕ) × NoMatrix walk walks fetch_places_by_ids (get_matrix n) (now n)

  pub >>=-Comes :
      {A B : Type 0} (P : A → Type 0) (Q : B → Type 0) (m : Raising Failure A)
      (f : A → Raising Failure B)
      → Comes P m
      → ((a : A) → P a → Comes Q (f a))
      → Comes Q (m >>= f)
  >>=-Comes P Q m f (inl (a, e, p)) next = rw e (next a p)
  >>=-Comes P Q m f (inr (status, error, e, n, lacks)) next =
      inr (status, error, rw e refl, n, lacks)

  pub Comes-map :
      {A : Type 0} (P Q : A → Type 0) (m : Raising Failure A)
      → Comes P m
      → ((a : A) → P a → Q a)
      → Comes Q m
  Comes-map P Q m (inl (a, e, p)) f = inl (a, e, f a p)
  Comes-map P Q m (inr failed) f = inr failed

  pub solve_at-Comes :
      (n : ℕ) (request : OptimizeRequest) (docs : List PlaceDoc)
      → validate_optimize_request request ≡ true
      → IsPlaceList request.place_ids
      → Comes
          (IsAnswer request.place_ids)
          (solve_at walk fetch_places_by_ids get_matrix now n request docs)
  unfolding solve_at optimize_request
  solve_at-Comes n request docs valid places =
      elim (optimize_route-Answers walk walks fetch_places_by_ids (get_matrix n) (now n) request
        (some docs) places (validate_optimize_request-range request valid)) [
          | inl (response, done, fine) ↦ inl (response, rw valid done, fine)
          | inr (status, error, failed, lacks) ↦ inr (status, error, rw valid failed, n, lacks)
        ]

  -- What a side comes to: nothing where it has no places or no budget.
  abbrev pub SideAnswer : ℕ → List String → Option OptimizeResponse → Type 0
  SideAnswer budget pids none = (pids ≡ []) ⊎ (budget ≡ 0)
  SideAnswer budget pids (some response) = IsAnswer pids response

  pub solve_side-Comes :
      (n : ℕ) (request : OptimizeRequest) (docs : List PlaceDoc) (budget : ℕ) (pids : List String)
      → request.place_ids ≡ pids
      → (1 ≤ budget → 1 ≤ length pids → validate_optimize_request request ≡ true)
      → IsPlaceList pids
      → Comes
          (SideAnswer budget pids)
          (solve_side walk fetch_places_by_ids get_matrix now n request docs budget pids)
  unfolding solve_side
  solve_side-Comes n request docs budget [] same_ids valid places = inl (none, refl, inl refl)
  solve_side-Comes n request docs zero (pid ∷ pids) same_ids valid places =
      inl (none, refl, inr refl)
  solve_side-Comes n request docs (suc budget) (pid ∷ pids) same_ids valid places =
      >>=-Comes (IsAnswer (pid ∷ pids)) (SideAnswer (suc budget) (pid ∷ pids)) _ _
        (subst
          (λ ids.
            Comes (IsAnswer ids) (solve_at walk fetch_places_by_ids get_matrix now n request docs))
          same_ids
          (solve_at-Comes n request docs (valid (omega arith) (omega arith))
            (subst IsPlaceList (sym same_ids) places)))
        (λ response fine. inl (some response, refl, fine))

-- ===== src/Engine/Nearest/Rounds.antt =====
-- The `while` loop of `nn_from_start` keeps the route walkable in time and loses no node.
use mathlib.Core.List.{Mem, Nodup, append_assoc}
use mathlib.Core.List.Perm
use travel_llm_planner.Common.{
  ℕ, zero, suc, ◌+◌, ◌≤◌, ◌<◌, ◌≡◌, refl, ◌∙◌, String, Option, none, some, List, [], ◌∷◌, ◌++◌,
  Perm, ◌⊎◌, inl, inr, Dict, arith, length, last_or, >>=-eq-some,
}
use travel_llm_planner.Window.{TimeWindow}
use travel_llm_planner.Matrix.{DistanceMatrix}
use travel_llm_planner.Engine.Schedule.{visit_s, travel_from, begin_visit}
use travel_llm_planner.Engine.Schedule.Reach.{reach, reach-append, depart, last_node}
use travel_llm_planner.Engine.Nearest.{
  Best, State, choose, no_best, discard, next_round, rounds, proceed,
}
use travel_llm_planner.Engine.Nearest.Sets.{discard-perm, discard-Nodup, length-discard_lt}
use travel_llm_planner.Engine.Nearest.Choice.{choose-IsLeg_self}

last_node-last_or : (d : String) (xs : List String) → last_node (some d) xs ≡ some (last_or d xs)
last_node-last_or d [] = refl
last_node-last_or d (x ∷ xs) = last_node-last_or x xs

nil_of_length : (xs : List String) → length xs ≤ 0 → xs ≡ []
nil_of_length [] h = refl
nil_of_length (x ∷ xs) h = absurd (omega arith)

module _ (walk : List String → List String) (matrix : DistanceMatrix)
    (time_windows : Dict TimeWindow) (visit_durations_s : Dict ℕ) (day_start_s day_end_s : ℕ)
    (end_anchor : Option String) where
  -- The route starts at `start`, can be walked by `current_s`, and with the unvisited nodes makes
  -- up all nodes.
  pub record Inv (start : String) (all : List String) (st : State) : Type 0 where
    pub rest : List String
    pub headed : st.route ≡ start ∷ rest
    pub reached :
        reach matrix time_windows visit_durations_s day_start_s none day_start_s st.route
        ≡ some st.current_s
    pub in_time : st.current_s ≤ day_end_s
    pub distinct : Nodup st.unvisited
    pub whole : Perm (st.route ++ st.unvisited) all

  abbrev step : String → State → Option State
  step = next_round walk matrix time_windows visit_durations_s day_start_s day_end_s end_anchor

  abbrev best : String → State → Best
  best start st =
      choose matrix time_windows visit_durations_s day_start_s day_end_s end_anchor
        (last_or start st.route) st.current_s no_best (walk st.unvisited)

  record IsAdvance (start : String) (st st' : State) : Type 0 where
    node : String
    begin : ℕ
    picked : (best start st).node ≡ some node
    begins :
        begin_visit time_windows visit_durations_s day_start_s node
          (st.current_s + (best start st).travel_s)
        ≡ some begin
    fits : begin + visit_s visit_durations_s node ≤ day_end_s
    made : st' ≡ record {
      route = st.route ++ node ∷ [];
      unvisited = discard node st.unvisited;
      current_s = begin + visit_s visit_durations_s node;
    }

  next_round-IsAdvance :
      (start : String) (st st' : State) → step start st ≡ some st' → IsAdvance start st st'
  unfolding next_round
  next_round-IsAdvance start st st' h =
      let (node, picked, h₁) = >>=-eq-some (best start st).node _ h in
      let (begin, begins, h₂) =
        >>=-eq-some
          (begin_visit time_windows visit_durations_s day_start_s node
            (st.current_s + (best start st).travel_s))
          _ h₁ in
      record {
        node = node;
        begin = begin;
        picked = picked;
        begins = begins;
        fits = ground arith;
        made = ground arith;
      }

  -- One more leg: the route is walkable up to the departure from the new node.
  pub extend_reached :
      (start : String) (st : State) (rest : List String) (node : String) (travel begin : ℕ)
      → st.route ≡ start ∷ rest
      → reach matrix time_windows visit_durations_s day_start_s none day_start_s st.route
        ≡ some st.current_s
      → travel_from matrix (some (last_or start st.route)) node ≡ some travel
      → begin_visit time_windows visit_durations_s day_start_s node (st.current_s + travel)
        ≡ some begin
      → reach matrix time_windows visit_durations_s day_start_s none day_start_s
          (st.route ++ node ∷ [])
        ≡ some (begin + visit_s visit_durations_s node)
  unfolding depart
  extend_reached start st rest node travel begin headed reached leg begins =
      let last : last_node none st.route ≡ some (last_or start st.route) =
        rw headed (last_node-last_or start rest) in
      reach-append matrix time_windows visit_durations_s day_start_s none day_start_s st.route node
      ∙ rw (reached, last, leg, begins) refl

  module _ (walks : (s : List String) → Perm (walk s) s) where
    IsAdvance-Inv :
        (start : String) (all : List String) (st st' : State)
        → Inv start all st
        → IsAdvance start st st'
        → Inv start all st' × (length st'.unvisited < length st.unvisited)
    IsAdvance-Inv start all st st' v r =
        let (among, leg) =
          choose-IsLeg_self matrix time_windows visit_durations_s day_start_s day_end_s end_anchor
            (last_or start st.route) st.current_s (walk st.unvisited) r.node r.picked in
        let member : Mem r.node st.unvisited = Perm.subset (walks st.unvisited) r.node among in
        rw r.made (
          record {
            rest = v.rest ++ r.node ∷ [];
            headed = rw v.headed;
            reached =
                extend_reached start st v.rest r.node (best start st).travel_s r.begin v.headed
                  v.reached leg r.begins;
            in_time = r.fits;
            distinct = discard-Nodup r.node st.unvisited v.distinct;
            whole =
                Perm.trans
                  (rw append_assoc (
                    Perm.append_left st.route (discard-perm r.node st.unvisited v.distinct member)))
                  v.whole;
          },
          length-discard_lt r.node st.unvisited member,
        )

    proceed-Inv :
        (start : String) (all us : List String) (o : Option State) (st : State)
        (loop : State → State)
        → Inv start all st
        → ((st' : State) → o ≡ some st' → Inv start all (loop st'))
        → Inv start all (proceed us o st loop)
    proceed-Inv start all [] o st loop v h = v
    proceed-Inv start all (u ∷ us) none st loop v h = v
    proceed-Inv start all (u ∷ us) (some st') st loop v h = h st' refl

    -- Whatever the fuel, the loop keeps the invariant.
    pub rounds-Inv :
        (fuel : ℕ) (start : String) (all : List String) (st : State)
        → Inv start all st
        → Inv start all (
            rounds walk matrix time_windows visit_durations_s day_start_s day_end_s end_anchor fuel
              start st)
    unfolding rounds
    rounds-Inv zero start all st v = v
    rounds-Inv (suc fuel) start all st v =
        proceed-Inv start all st.unvisited (step start st) st _ v λ st' e.
          rounds-Inv fuel start all st'
            (IsAdvance-Inv start all st st' v (next_round-IsAdvance start st st' e)).0

    -- The loop has come to its own end: no node is left, or the round breaks off.
    abbrev pub IsOver : String → State → Type 0
    IsOver start st = (st.unvisited ≡ []) ⊎ (step start st ≡ none)

    proceed-IsOver :
        (start : String) (us : List String) (o : Option State) (st : State) (loop : State → State)
        → st.unvisited ≡ us
        → step start st ≡ o
        → ((st' : State) → o ≡ some st' → IsOver start (loop st'))
        → IsOver start (proceed us o st loop)
    proceed-IsOver start [] o st loop e f h = inl e
    proceed-IsOver start (u ∷ us) none st loop e f h = inr f
    proceed-IsOver start (u ∷ us) (some st') st loop e f h = h st' refl

    -- As many rounds as there are unvisited nodes are enough.
    pub rounds-IsOver :
        (fuel : ℕ) (start : String) (all : List String) (st : State)
        → Inv start all st
        → length st.unvisited ≤ fuel
        → IsOver start (
            rounds walk matrix time_windows visit_durations_s day_start_s day_end_s end_anchor fuel
              start st)
    unfolding rounds
    rounds-IsOver zero start all st v h = inl (nil_of_length st.unvisited h)
    rounds-IsOver (suc fuel) start all st v h =
        proceed-IsOver start st.unvisited (step start st) st _ refl refl λ st' e.
          let (v', shorter) =
            IsAdvance-Inv start all st st' v (next_round-IsAdvance start st st' e) in
          rounds-IsOver fuel start all st' v' (omega arith)

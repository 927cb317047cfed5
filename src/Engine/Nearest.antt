-- ===== src/Engine/Nearest.antt =====
-- `nn_from_start` and `nearest_neighbor` of src/optimizer/solver/engine.py.
-- A Python set is a list without repetitions. The order in which Python walks a set is not fixed
-- by the language: it is the parameter `walk`, which lists the members of a set in some order.
pub mod Sets
pub mod Choice
pub mod Rounds
pub mod Route
pub mod Winner
use travel_llm_planner.Common.{
  ℕ, zero, suc, ◌+◌, max, ltb, ◌==◌, if◌then◌else◌, same, String, Bool, true, false, not, ◌&&◌,
  ◌||◌, Option, none, some, List, [], ◌∷◌, ◌++◌, length, last_or, ◌>>=◌, or_else, Dict, lookup,
}
use travel_llm_planner.Window.{TimeWindow, earliest_start, close_s}
use travel_llm_planner.Matrix.{DistanceMatrix, get}
use travel_llm_planner.Engine.Schedule.{large, visit_s, begin_visit, route_travel_time, route_score}

-- `xs - {x}`
unfoldable pub discard : String → List String → List String
discard x [] = []
discard x (y ∷ ys) = let rest = discard x ys in if same y x then rest else y ∷ rest

-- `set(xs)`
unfoldable pub to_set : List String → List String
unfolding discard
to_set [] = []
to_set (x ∷ xs) = x ∷ discard x (to_set xs)

-- `x in xs`
unfoldable pub contains : List String → String → Bool
contains [] x = false
contains (y ∷ ys) x = same y x || contains ys x

-- `[n for n in nodes if n not in visited]`
unfoldable pub missing : List String → List String → List String
unfolding contains
missing [] visited = []
missing (n ∷ ns) visited =
    let rest = missing ns visited in if contains visited n then rest else n ∷ rest

-- `best_node`, `best_close` and `best_travel`
pub record Best : Type 0 where
  pub node : Option String
  pub close_s : ℕ
  pub travel_s : ℕ

-- The variables of the `while` loop.
pub record State : Type 0 where
  pub route : List String
  pub unvisited : List String
  pub current_s : ℕ

-- The best attempt so far of `nearest_neighbor`.
pub record Attempt : Type 0 where
  pub route : List String
  pub score : ℕ
  pub time_s : ℕ

abbrev pub no_best : Best
no_best = record { node = none; close_s = large; travel_s = large }

-- The effective start and the deadline of a candidate, or nothing where it is passed over.
unfoldable pub candidate_window : ℕ → ℕ → Option TimeWindow → ℕ → ℕ → Option (ℕ × ℕ)
candidate_window day_start_s day_end_s (some tw) arrival visit =
    earliest_start tw arrival visit >>= λ start. some (start, close_s tw)
candidate_window day_start_s day_end_s none arrival visit =
    if ltb day_end_s arrival then none else some (max arrival day_start_s, day_end_s)

-- Leaving `candidate` at `departure` would miss the end anchor.
unfoldable pub strands_in : DistanceMatrix → ℕ → Option String → String → ℕ → Bool
strands_in matrix day_end_s none candidate departure = false
strands_in matrix day_end_s (some anchor) candidate departure = elim (get matrix candidate anchor) [
  | none ↦ true
  | some entry ↦ ltb day_end_s (departure + entry.duration_s)
]

-- When the first visit begins.
unfoldable pub first_start : ℕ → Option TimeWindow → ℕ → Option ℕ
first_start day_start_s (some tw) visit = earliest_start tw day_start_s visit
first_start day_start_s none visit = some day_start_s

-- The end anchor is appended last, or the whole attempt is given up.
unfoldable pub close_route :
    (List String → List String)
    → DistanceMatrix
    → ℕ
    → Option String
    → String
    → List String
    → State
    → List String × List String
close_route walk matrix day_end_s none start nodes st = (st.route, walk st.unvisited)
close_route walk matrix day_end_s (some anchor) start nodes st =
    elim (get matrix (last_or start st.route) anchor) [
      | none ↦ ([], nodes)
      | some entry ↦
          if ltb day_end_s (st.current_s + entry.duration_s)
          then ([], nodes)
          else (st.route ++ anchor ∷ [], walk st.unvisited)
    ]

abbrev pub begun : String → List String → ℕ → State
begun start nodes current_s = record {
  route = start ∷ [];
  unvisited = discard start (to_set nodes);
  current_s = current_s;
}

-- Whether the `while` loop goes on, and from which state.
abbrev pub proceed : List String → Option State → State → (State → State) → State
proceed [] next st loop = st
proceed (u ∷ us) none st loop = st
proceed (u ∷ us) (some st') st loop = loop st'

module _ (matrix : DistanceMatrix) (time_windows : Dict TimeWindow) (visit_durations_s : Dict ℕ)
    (day_start_s day_end_s : ℕ) (end_anchor : Option String) where
  -- The body of the `for` loop; `continue` keeps `best`.
  unfoldable pub consider : String → ℕ → Best → String → Best
  unfolding candidate_window strands_in
  consider last current_s best candidate =
      or_else
        (get matrix last candidate >>= λ entry.
          candidate_window day_start_s day_end_s (lookup candidate time_windows)
            (current_s + entry.duration_s) (visit_s visit_durations_s candidate)
          >>= λ (start, close).
              if strands_in matrix day_end_s end_anchor candidate
                (start + visit_s visit_durations_s candidate)
              then none
              else if ltb close best.close_s
                  || (close == best.close_s && ltb entry.duration_s best.travel_s)
              then some
                  (record { node = some candidate; close_s = close; travel_s = entry.duration_s })
              else none)
        best

  unfoldable pub choose : String → ℕ → Best → List String → Best
  unfolding consider
  choose last current_s best [] = best
  choose last current_s best (candidate ∷ rest) =
      choose last current_s (consider last current_s best candidate) rest

module _ (walk : List String → List String) (matrix : DistanceMatrix)
    (time_windows : Dict TimeWindow) (visit_durations_s : Dict ℕ) (day_start_s day_end_s : ℕ)
    (end_anchor : Option String) where
  -- One round of the `while` loop; nothing stands for `break`.
  unfoldable pub next_round : String → State → Option State
  unfolding choose
  next_round start st =
      let best =
        choose matrix time_windows visit_durations_s day_start_s day_end_s end_anchor
          (last_or start st.route) st.current_s no_best (walk st.unvisited) in
      best.node >>= λ node.
      begin_visit time_windows visit_durations_s day_start_s node (st.current_s + best.travel_s)
      >>= λ begin.
          if ltb day_end_s (begin + visit_s visit_durations_s node)
          then none
          else some (record {
            route = st.route ++ node ∷ [];
            unvisited = discard node st.unvisited;
            current_s = begin + visit_s visit_durations_s node;
          })

  -- `while unvisited`, on fuel: each round removes a node from `unvisited`.
  unfoldable pub rounds : ℕ → String → State → State
  unfolding next_round
  rounds zero start st = st
  rounds (suc fuel) start st = proceed st.unvisited (next_round start st) st (rounds fuel start)

  unfoldable pub nn_from_start : String → List String → List String × List String
  unfolding first_start close_route rounds
  nn_from_start start nodes =
      let visit = visit_s visit_durations_s start in
      elim (first_start day_start_s (lookup start time_windows) visit) [
        | none ↦ ([], nodes)
        | some begin ↦
            if ltb day_end_s (begin + visit)
            then ([], nodes)
            else close_route walk matrix day_end_s end_anchor start nodes (
                rounds (length (discard start (to_set nodes))) start
                  (begun start nodes (begin + visit)))
      ]

  module _ (weights : Option (Dict ℕ)) where
    unfoldable pub improve : List String → Attempt → Attempt
    improve route best =
        let t = route_travel_time route matrix in
        let score = route_score route weights in
        if ltb best.score score || (score == best.score && ltb t best.time_s)
        then record { route = route; score = score; time_s = t }
        else best

    unfoldable pub attempts : List String → List String → Attempt → Attempt
    unfolding improve
    attempts nodes [] best = best
    attempts nodes (start ∷ starts) best =
        attempts nodes starts (improve (nn_from_start start nodes).0 best)

    -- For no node at all the loop leaves both lists empty, as the early return does.
    unfoldable pub nearest_neighbor : List String → List String × List String
    unfolding attempts missing
    nearest_neighbor nodes =
        let best = attempts nodes nodes (record { route = []; score = 0; time_s = large }) in
        (best.route, missing nodes best.route)

-- ===== src/Engine/Nearest/Route.antt =====
-- The routes that `nn_from_start` returns are feasible, and account for every node.
use mathlib.Core.List.{append_assoc, append-nil, perm_append_comm}
use mathlib.Core.List.Perm
use native.Mathlib.Nat.{add-zero}
use travel_llm_planner.Common.{
  ℕ, ◌+◌, ◌≤◌, ◌≡◌, refl, sym, ◌∙◌, ap, String, Option, none, some, List, [], ◌∷◌, ◌++◌, Perm, ◌⊎◌,
  inl, inr, Dict, arith, length, last_or, lookup, ltb, Bool, true, false, Bool-cases, Option-cases,
  max, le→leb,
}
use travel_llm_planner.Window.{TimeWindow}
use travel_llm_planner.Matrix.{DistanceMatrix, MatrixEntry, get}
use travel_llm_planner.Engine.Schedule.{visit_s, travel_from, begin_visit, begin_in, is_feasible}
use travel_llm_planner.Engine.Schedule.Reach.{reach, depart, is_feasible-reach}
use travel_llm_planner.Engine.Nearest.{
  State, discard, to_set, rounds, first_start, close_route, begun, nn_from_start,
}
use travel_llm_planner.Engine.Nearest.Sets.{discard-Nodup, to_set-Nodup}
use travel_llm_planner.Engine.Nearest.Rounds.{
  Inv, rounds-Inv, IsOver, rounds-IsOver, extend_reached,
}

first_start-begin_in :
    (d : ℕ) (w : Option TimeWindow) (v : ℕ) → first_start d w v ≡ begin_in w d (d + 0) v
unfolding first_start begin_in
first_start-begin_in d none v = ap some (omega arith)
first_start-begin_in d (some tw) v = rw add-zero

perm_anchor :
    (a : String) (xs ys : List String) → Perm ((xs ++ a ∷ []) ++ ys) ((xs ++ ys) ++ a ∷ [])
perm_anchor a xs ys =
    rw append_assoc (rw append_assoc (Perm.append_left xs (perm_append_comm (a ∷ []) ys)))

-- The stops that a route must end with.
abbrev pub anchors : Option String → List String
anchors none = []
anchors (some anchor) = anchor ∷ []

-- An anchor is no place: it has neither opening hours nor a visit.
abbrev pub IsFreeAnchor : Dict TimeWindow → Dict ℕ → Option String → Type 0
IsFreeAnchor time_windows visit_durations_s none = Unit {0}
IsFreeAnchor time_windows visit_durations_s (some a) =
    (lookup a time_windows ≡ none) × (lookup a visit_durations_s ≡ none)

module _ (walk : List String → List String) (matrix : DistanceMatrix)
    (time_windows : Dict TimeWindow) (visit_durations_s : Dict ℕ) (day_start_s day_end_s : ℕ)
    (end_anchor : Option String) where
  abbrev feasible : List String → Bool
  feasible route = is_feasible route matrix time_windows visit_durations_s day_start_s day_end_s

  -- An attempt is given up, or gives a feasible route from `start`, closed by the end anchor, which
  -- together with the skipped nodes holds the start, the other nodes and the anchor once each.
  abbrev pub IsAttempt : Option String → String → List String → List String × List String → Type 0
  IsAttempt anchor start nodes attempt =
      (attempt.0 ≡ []) × (attempt.1 ≡ nodes)
      ⊎ (rest : List String) × (attempt.0 ≡ start ∷ rest)
        × (feasible attempt.0 ≡ true)
        × Perm (attempt.0 ++ attempt.1) (start ∷ discard start (to_set nodes) ++ anchors anchor)

  begun-Inv :
      (start : String) (nodes : List String) (begin : ℕ)
      → first_start day_start_s (lookup start time_windows) (visit_s visit_durations_s start)
        ≡ some begin
      → begin + visit_s visit_durations_s start ≤ day_end_s
      → Inv walk matrix time_windows visit_durations_s day_start_s day_end_s end_anchor start
          (start ∷ discard start (to_set nodes))
          (begun start nodes (begin + visit_s visit_durations_s start))
  unfolding reach depart travel_from begin_visit
  begun-Inv start nodes begin h fits = record {
    rest = [];
    headed = refl;
    reached =
        rw
          (sym (
              first_start-begin_in day_start_s (lookup start time_windows)
                (visit_s visit_durations_s start))
            ∙ h)
          refl;
    in_time = fits;
    distinct = discard-Nodup start (to_set nodes) (to_set-Nodup nodes);
    whole = Perm.rfl;
  }

  module _ (walks : (s : List String) → Perm (walk s) s) (day : day_start_s ≤ day_end_s) where
    feasible_reached :
        (t : ℕ) (node : String) (rest route : List String)
        → route ≡ node ∷ rest
        → reach matrix time_windows visit_durations_s day_start_s none day_start_s route ≡ some t
        → t ≤ day_end_s
        → feasible route ≡ true
    feasible_reached t node rest route headed reached le =
        is_feasible-reach matrix time_windows visit_durations_s day_start_s day_end_s t route
          (λ e. cc) reached
        ∙ le→leb t day_end_s le

    anchored_feasible :
        (start a : String) (st : State) {all : List String}
        → Inv walk matrix time_windows visit_durations_s day_start_s day_end_s end_anchor start all
            st
        → (entry : MatrixEntry) → get matrix (last_or start st.route) a ≡ some entry
        → IsFreeAnchor time_windows visit_durations_s (some a)
        → ltb day_end_s (st.current_s + entry.duration_s) ≡ false
        → feasible (st.route ++ a ∷ []) ≡ true
    unfolding travel_from begin_visit begin_in visit_s
    anchored_feasible start a st v entry found free timely =
        let t = max (st.current_s + entry.duration_s) day_start_s in
        let leg : travel_from matrix (some (last_or start st.route)) a ≡ some entry.duration_s =
          rw found refl in
        let begins : begin_visit time_windows visit_durations_s day_start_s a
              (st.current_s + entry.duration_s)
            ≡ some t =
          rw free.0 refl in
        let no_visit : visit_s visit_durations_s a ≡ 0 = rw free.1 refl in
        feasible_reached (t + visit_s visit_durations_s a) start (v.rest ++ a ∷ [])
          (st.route ++ a ∷ []) (rw v.headed)
          (extend_reached walk matrix time_windows visit_durations_s day_start_s day_end_s
            end_anchor start st v.rest a entry.duration_s t v.headed v.reached leg begins)
          (rw no_visit (ground arith))

    close_route-IsAttempt :
        (anchor : Option String) (start : String) (nodes : List String) (st : State)
        → IsFreeAnchor time_windows visit_durations_s anchor
        → Inv walk matrix time_windows visit_durations_s day_start_s day_end_s end_anchor start
            (start ∷ discard start (to_set nodes))
            st
        → IsAttempt anchor start nodes (close_route walk matrix day_end_s anchor start nodes st)
    unfolding close_route
    close_route-IsAttempt none start nodes st free v = inr (
      v.rest,
      v.headed,
      feasible_reached st.current_s start v.rest st.route v.headed v.reached v.in_time,
      rw append-nil (Perm.trans (Perm.append_left st.route (walks st.unvisited)) v.whole),
    )
    close_route-IsAttempt (some a) start nodes st free v =
        elim (Option-cases (get matrix (last_or start st.route) a)) [
          | inl gone ↦ rw (gone, close_route) (inl (refl, refl))
          | inr (entry, found) ↦
              elim (Bool-cases (ltb day_end_s (st.current_s + entry.duration_s))) [
                | inl late ↦ rw (found, late, close_route) (inl (refl, refl))
                | inr timely ↦
                    rw (found, timely, close_route)
                      (inr (
                        v.rest ++ a ∷ [],
                        rw v.headed,
                        anchored_feasible start a st v entry found free timely,
                        Perm.trans (perm_anchor a st.route (walk st.unvisited)) (
                            Perm.append_right (a ∷ []) (
                              Perm.trans (Perm.append_left st.route (walks st.unvisited)) v.whole)),
                      ))
              ]
        ]

    -- The `while` loop of `nn_from_start` runs to its own end on the fuel that it is given: no node
    -- is left to visit, or the best candidate cannot be visited any more.
    pub nn_loop-IsOver :
        (start : String) (nodes : List String) (begin : ℕ)
        → first_start day_start_s (lookup start time_windows) (visit_s visit_durations_s start)
          ≡ some begin
        → begin + visit_s visit_durations_s start ≤ day_end_s
        → IsOver walk matrix time_windows visit_durations_s day_start_s day_end_s end_anchor walks
            start
            (rounds walk matrix time_windows visit_durations_s day_start_s day_end_s end_anchor
              (length (discard start (to_set nodes)))
              start
              (begun start nodes (begin + visit_s visit_durations_s start)))
    nn_loop-IsOver start nodes begin h fits =
        rounds-IsOver walk matrix time_windows visit_durations_s day_start_s day_end_s end_anchor
          walks _ start _ _ (begun-Inv start nodes begin h fits) (omega arith)

    -- From any start and nodes, `nn_from_start` gives the attempt up, with an empty route and all
    -- nodes skipped, or it returns a route that begins at the start, is feasible, and together with
    -- the skipped nodes holds the start, every other node and the end anchor exactly once: if Python
    -- walks each set over its members, the anchor is no place, and the day does not end before it
    -- starts.
    pub nn_from_start-IsAttempt :
        (start : String) (nodes : List String)
        → IsFreeAnchor time_windows visit_durations_s end_anchor
        → IsAttempt end_anchor start nodes (
            nn_from_start walk matrix time_windows visit_durations_s day_start_s day_end_s
              end_anchor start nodes)
    unfolding nn_from_start
    nn_from_start-IsAttempt start nodes free =
        elim (Option-cases
          (first_start day_start_s (lookup start time_windows) (visit_s visit_durations_s start))) [
            | inl never ↦ rw (never, nn_from_start) (inl (refl, refl))
            | inr (begin, found) ↦
                elim (Bool-cases (ltb day_end_s (begin + visit_s visit_durations_s start))) [
                  | inl late ↦ rw (found, late, nn_from_start) (inl (refl, refl))
                  | inr timely ↦
                      rw (found, timely, nn_from_start)
                        (close_route-IsAttempt end_anchor start nodes _ free (
                          rounds-Inv walk matrix time_windows visit_durations_s day_start_s
                            day_end_s end_anchor walks _ start _ _
                            (begun-Inv start nodes begin found (ground arith))))
                ]
          ]

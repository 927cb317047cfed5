-- ===== src/MultiDay/Days.antt =====
-- The days on which a place may be put, and the order in which places are put on days: the first
-- half of what `_partition_places` of src/optimizer/solver/multi_day_service.py is made of.
use travel_llm_planner.Common.{
  ℕ, suc, ltb, leb, ◌==◌, same, if◌then◌else◌, String, Bool, true, false, List, [], ◌∷◌, map,
  length, range, Dict,
}
use travel_llm_planner.Hours.{Period, is_on}
use travel_llm_planner.Places.{PlaceDoc, doc_of, priority_of, google_weekday}
use travel_llm_planner.Planner.{DaySlot, PlaceDayPreference, DayConfig, is_among}

-- The indices of the days that have one of the periods.
unfoldable pub open_indices : List Period → ℕ → List DayConfig → List ℕ
open_indices periods i [] = []
open_indices periods i (cfg ∷ cfgs) =
    let rest = open_indices periods (suc i) cfgs in
    if has_day periods (google_weekday cfg.date) then i ∷ rest else rest
  where
    has_day : List Period → ℕ → Bool
    has_day [] weekday = false
    has_day (p ∷ ps) weekday = if is_on weekday p.opening.day then true else has_day ps weekday

-- `xs if xs else ys`
abbrev pub or_if_empty : List ℕ → List ℕ → List ℕ
or_if_empty [] ys = ys
or_if_empty (x ∷ xs) ys = x ∷ xs

unfoldable pub open_days : List Period → List DayConfig → List ℕ
unfolding open_indices
open_days [] day_configs = range 0 (length day_configs)
open_days (p ∷ ps) day_configs =
    or_if_empty (open_indices (p ∷ ps) 0 day_configs) (range 0 (length day_configs))

-- `_open_day_indices`
unfoldable pub open_day_indices : PlaceDoc → List DayConfig → List ℕ
unfolding open_days
open_day_indices doc day_configs = open_days doc.hours.periods day_configs

-- `_priority_rank`
unfoldable pub priority_rank : Dict PlaceDoc → String → ℕ
priority_rank docs place_id =
    let priority = priority_of (doc_of docs place_id) in
    if same priority "must_see" then 0 else if same priority "optional" then 2 else 1

unfoldable pub insert_ranked :
    Dict PlaceDoc → PlaceDayPreference → List PlaceDayPreference → List PlaceDayPreference
insert_ranked docs p [] = p ∷ []
insert_ranked docs p (q ∷ qs) =
    if leb (priority_rank docs p.place_id) (priority_rank docs q.place_id)
    then p ∷ q ∷ qs
    else q ∷ insert_ranked docs p qs

-- `sort(key=lambda p: _priority_rank(p.place_id, doc_map))`, which is stable.
unfoldable pub sort_ranked : Dict PlaceDoc → List PlaceDayPreference → List PlaceDayPreference
unfolding insert_ranked
sort_ranked docs [] = []
sort_ranked docs (p ∷ ps) = insert_ranked docs p (sort_ranked docs ps)

abbrev pub slot_indices : List DaySlot → List ℕ
slot_indices slots = map (λ (s : DaySlot). s.day_index) slots

unfoldable pub slots_among : List ℕ → List DaySlot → List ℕ
slots_among open_days [] = []
slots_among open_days (s ∷ ss) =
    let rest = slots_among open_days ss in
    if is_among s.day_index open_days then s.day_index ∷ rest else rest

-- The candidate days of a flexible place, and of one without preferences.
unfoldable pub candidate_days : List DayConfig → PlaceDoc → List DaySlot → List ℕ
unfolding slots_among
candidate_days day_configs doc [] = open_day_indices doc day_configs
candidate_days day_configs doc (s ∷ ss) =
    or_if_empty (slots_among (open_day_indices doc day_configs) (s ∷ ss)) (slot_indices (s ∷ ss))

abbrev pub is_pinned : PlaceDayPreference → Bool
is_pinned p = length p.day_preferences == 1

abbrev pub is_flexible : PlaceDayPreference → Bool
is_flexible p = ltb 1 (length p.day_preferences)

abbrev pub is_auto : PlaceDayPreference → Bool
is_auto p = length p.day_preferences == 0

-- `[p for p in places if test(p)]`
unfoldable pub those :
    (PlaceDayPreference → Bool) → List PlaceDayPreference → List PlaceDayPreference
those test [] = []
those test (p ∷ ps) = let rest = those test ps in if test p then p ∷ rest else rest

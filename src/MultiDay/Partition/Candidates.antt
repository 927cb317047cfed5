-- ===== src/MultiDay/Partition/Candidates.antt =====
-- The candidate days of a place that is not pinned.
use travel_llm_planner.Common.{
  ℕ, zero, suc, ◌+◌, ◌≤◌, ◌<◌, ◌≡◌, Bool, true, false, List, [], ◌∷◌, length, All, range, arith,
  if◌then◌else◌,
}
use travel_llm_planner.Hours.{Period}
use travel_llm_planner.Places.{PlaceDoc}
use travel_llm_planner.Planner.{DaySlot, DayConfig, is_among}
use travel_llm_planner.MultiDay.Days.{
  or_if_empty, open_indices, open_days, open_day_indices, slots_among, slot_indices, candidate_days,
}

abbrev Below : ℕ → List ℕ → Type 0
Below n = All (λ i. i < n)

if_cons-Below :
    (b : Bool) (n i : ℕ) (is : List ℕ) → i < n → Below n is → Below n (if b then i ∷ is else is)
if_cons-Below true n i is lt below = (lt, below)
if_cons-Below false n i is lt below = below

range-Below : (n start count : ℕ) → start + count ≤ n → Below n (range start count)
range-Below n start zero le = tt
range-Below n start (suc count) le = (omega arith, range-Below n (suc start) count (omega arith))

or_if_empty-Below : (n : ℕ) (xs ys : List ℕ) → Below n xs → Below n ys → Below n (or_if_empty xs ys)
or_if_empty-Below n [] ys p q = q
or_if_empty-Below n (x ∷ xs) ys p q = p

open_indices-Below :
    (periods : List Period) (i n : ℕ) (cfgs : List DayConfig)
    → i + length cfgs ≤ n
    → Below n (open_indices periods i cfgs)
unfolding open_indices
open_indices-Below periods i n [] le = tt
open_indices-Below periods i n (cfg ∷ cfgs) le =
    if_cons-Below _ n i (open_indices periods (suc i) cfgs) (omega arith)
      (open_indices-Below periods (suc i) n cfgs (omega arith))

open_days-Below :
    (periods : List Period) (cfgs : List DayConfig) → Below (length cfgs) (open_days periods cfgs)
unfolding open_days
open_days-Below [] cfgs = range-Below (length cfgs) 0 (length cfgs) (omega arith)
open_days-Below (p ∷ ps) cfgs =
    or_if_empty-Below (length cfgs) (open_indices (p ∷ ps) 0 cfgs) _
      (open_indices-Below (p ∷ ps) 0 (length cfgs) cfgs (omega arith))
      (range-Below (length cfgs) 0 (length cfgs) (omega arith))

open_day_indices-Below :
    (doc : PlaceDoc) (cfgs : List DayConfig) → Below (length cfgs) (open_day_indices doc cfgs)
unfolding open_day_indices
open_day_indices-Below doc cfgs = open_days-Below doc.hours.periods cfgs

slots_among-Below :
    (n : ℕ) (open_days : List ℕ) (slots : List DaySlot)
    → Below n (slot_indices slots)
    → Below n (slots_among open_days slots)
unfolding slots_among
slots_among-Below n open_days [] below = tt
slots_among-Below n open_days (s ∷ ss) (lt, below) =
    if_cons-Below _ n s.day_index (slots_among open_days ss) lt
      (slots_among-Below n open_days ss below)

-- Candidate days are days of the trip.
pub candidate_days-Below :
    (cfgs : List DayConfig) (doc : PlaceDoc) (slots : List DaySlot)
    → Below (length cfgs) (slot_indices slots)
    → Below (length cfgs) (candidate_days cfgs doc slots)
unfolding candidate_days
candidate_days-Below cfgs doc [] below = open_day_indices-Below doc cfgs
candidate_days-Below cfgs doc (s ∷ ss) below =
    or_if_empty-Below (length cfgs) (slots_among (open_day_indices doc cfgs) (s ∷ ss)) _
      (slots_among-Below (length cfgs) (open_day_indices doc cfgs) (s ∷ ss) below) below

or_if_empty_pos : (xs ys : List ℕ) → 0 < length ys → 0 < length (or_if_empty xs ys)
or_if_empty_pos [] ys pos = pos
or_if_empty_pos (x ∷ xs) ys pos = omega arith

range_pos : (start count : ℕ) → 0 < count → 0 < length (range start count)
range_pos start zero pos = absurd (omega arith)
range_pos start (suc count) pos = omega arith

open_days_pos :
    (periods : List Period) (cfgs : List DayConfig)
    → 0 < length cfgs
    → 0 < length (open_days periods cfgs)
unfolding open_days
open_days_pos [] cfgs pos = range_pos 0 (length cfgs) pos
open_days_pos (p ∷ ps) cfgs pos =
    or_if_empty_pos (open_indices (p ∷ ps) 0 cfgs) _ (range_pos 0 (length cfgs) pos)

open_day_indices_pos :
    (doc : PlaceDoc) (cfgs : List DayConfig)
    → 0 < length cfgs
    → 0 < length (open_day_indices doc cfgs)
unfolding open_day_indices
open_day_indices_pos doc cfgs pos = open_days_pos doc.hours.periods cfgs pos

-- There is always a candidate.
pub candidate_days_pos :
    (cfgs : List DayConfig) (doc : PlaceDoc) (slots : List DaySlot)
    → 0 < length cfgs
    → 0 < length (candidate_days cfgs doc slots)
unfolding candidate_days
candidate_days_pos cfgs doc [] pos = open_day_indices_pos doc cfgs pos
candidate_days_pos cfgs doc (s ∷ ss) pos =
    or_if_empty_pos (slots_among (open_day_indices doc cfgs) (s ∷ ss)) _ (omega arith)

if_cons-among :
    (b : Bool) (d i : ℕ) (is js : List ℕ)
    → (is_among d is ≡ true → is_among d js ≡ true)
    → is_among d (if b then i ∷ is else is) ≡ true
    → is_among d (i ∷ js) ≡ true
unfolding is_among
if_cons-among true d i is js within h = ground arith
if_cons-among false d i is js within h = ground arith

slots_among_among :
    (d : ℕ) (open_days : List ℕ) (slots : List DaySlot)
    → is_among d (slots_among open_days slots) ≡ true
    → is_among d (slot_indices slots) ≡ true
unfolding slots_among
slots_among_among d open_days [] h = h
slots_among_among d open_days (s ∷ ss) h =
    if_cons-among (is_among s.day_index open_days) d s.day_index (slots_among open_days ss)
      (slot_indices ss) (slots_among_among d open_days ss) h

or_if_empty_among :
    (d : ℕ) (xs ys : List ℕ)
    → (is_among d xs ≡ true → is_among d ys ≡ true)
    → is_among d (or_if_empty xs ys) ≡ true
    → is_among d ys ≡ true
or_if_empty_among d [] ys within h = h
or_if_empty_among d (x ∷ xs) ys within h = within h

-- A flexible place only has the days that it asks for.
pub candidate_days_among :
    (cfgs : List DayConfig) (doc : PlaceDoc) (s : DaySlot) (ss : List DaySlot) (d : ℕ)
    → is_among d (candidate_days cfgs doc (s ∷ ss)) ≡ true
    → is_among d (slot_indices (s ∷ ss)) ≡ true
unfolding candidate_days
candidate_days_among cfgs doc s ss d h =
    or_if_empty_among d (slots_among (open_day_indices doc cfgs) (s ∷ ss)) _
      (slots_among_among d (open_day_indices doc cfgs) (s ∷ ss)) h

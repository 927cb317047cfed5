-- ===== src/Places.antt =====
-- What the optimiser reads of a place's document, and the places it leaves out.
-- Coordinates are as in Accommodations.antt. A priority is the text that the document holds.
use travel_llm_planner.Common.{
  ℕ, zero, suc, ◌+◌, ◌%◌, String, Option, none, some, or_else, List, [], ◌∷◌, map, Dict, lookup,
  same, if◌then◌else◌,
}
use travel_llm_planner.Hours.{PlaceHours}

pub record PlaceDoc : Type 0 where
  pub id : String
  pub name : Option String
  pub lat : Option ℕ
  pub lng : Option ℕ
  pub priority : Option String
  pub visit_duration_min : Option ℕ
  pub hours : PlaceHours

pub record SkippedPlace : Type 0 where
  pub place_id : String
  pub name : Option String
  pub reason : String

abbrev pub skipped_ids : List SkippedPlace → List String
skipped_ids places = map (λ (s : SkippedPlace). s.place_id) places

-- `{str(doc["_id"]): doc for doc in docs}`: a later document of the same id hides an earlier one.
unfoldable pub doc_map : List PlaceDoc → Dict PlaceDoc → Dict PlaceDoc
doc_map [] index = index
doc_map (doc ∷ docs) index = doc_map docs ((doc.id, doc) ∷ index)

abbrev pub empty_doc : PlaceDoc
empty_doc = record {
  id = "";
  name = none;
  lat = none;
  lng = none;
  priority = none;
  visit_duration_min = none;
  hours = record { preferred_hour_from = none; preferred_hour_to = none; periods = [] };
}

-- `doc_map.get(place_id) or {}`
abbrev pub doc_of : Dict PlaceDoc → String → PlaceDoc
doc_of docs place_id = or_else (lookup place_id docs) empty_doc

-- `visit_duration_min or 30`: 0 counts as not given.
unfoldable pub visit_min : PlaceDoc → ℕ
visit_min doc = elim doc.visit_duration_min [ none ↦ 30 | some zero ↦ 30 | some (suc n) ↦ suc n ]

-- `priority or "normal"`: the empty text counts as not given.
unfoldable pub priority_of : PlaceDoc → String
priority_of doc = elim doc.priority [
  | none ↦ "normal"
  | some text ↦ if same text "" then "normal" else text
]

-- `date.weekday()` of the day whose ordinal this is, 0 for Monday: day 1 was a Monday.
abbrev weekday : ℕ → ℕ
weekday day = (day + 6) % 7

unfoldable pub google_weekday : ℕ → ℕ
google_weekday day = (weekday day + 1) % 7

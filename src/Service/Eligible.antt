-- ===== src/Service/Eligible.antt =====
-- The first loop of `optimize_route` of src/optimizer/solver/service.py: which places of the request
-- can be put on a route at all.
use travel_llm_planner.Common.{ℕ, ◌*◌, String, Option, none, some, List, [], ◌∷◌, Dict, lookup}
use travel_llm_planner.Window.{TimeWindow}
use travel_llm_planner.Hours.{parse_time_window}
use travel_llm_planner.Places.{PlaceDoc, SkippedPlace, visit_min}

pub record Coord : Type 0 where
  pub place_id : String
  pub lat : ℕ
  pub lng : ℕ

-- What one pass comes to: an entry of `skipped`, or of `coords`, `time_windows` and
-- `visit_durations_s`.
pub data Verdict : Type 0 where
  skip : SkippedPlace → Verdict
  keep : Coord → TimeWindow → ℕ → Verdict

pub record Eligible : Type 0 where
  pub skipped : List SkippedPlace
  pub coords : List Coord
  pub time_windows : Dict TimeWindow
  pub visit_durations_s : Dict ℕ

abbrev pub skipping : String → Option String → String → SkippedPlace
skipping place_id name reason = record { place_id = place_id; name = name; reason = reason }

-- With both coordinates, it is the window that decides.
unfoldable pub judge_window : String → PlaceDoc → ℕ → ℕ → Option TimeWindow → Verdict
judge_window place_id doc lat lng none =
    Verdict.skip (skipping place_id doc.name "TIME_WINDOW_INFEASIBLE")
judge_window place_id doc lat lng (some tw) =
    Verdict.keep (record { place_id = place_id; lat = lat; lng = lng }) tw (visit_min doc * 60)

unfoldable pub judge_place : String → PlaceDoc → Option ℕ → Option ℕ → Option TimeWindow → Verdict
unfolding judge_window
judge_place place_id doc (some lat) (some lng) window = judge_window place_id doc lat lng window
judge_place place_id doc none lng window =
    Verdict.skip (skipping place_id doc.name "NO_COORDINATES")
judge_place place_id doc (some lat) none window =
    Verdict.skip (skipping place_id doc.name "NO_COORDINATES")

unfoldable pub judge : String → Option PlaceDoc → ℕ → ℕ → Option ℕ → Verdict
unfolding judge_place
judge place_id none day_start_s day_end_s google_weekday =
    Verdict.skip (skipping place_id none "NO_COORDINATES")
judge place_id (some doc) day_start_s day_end_s google_weekday =
    judge_place place_id doc doc.lat doc.lng
      (parse_time_window doc.hours day_start_s day_end_s google_weekday)

unfoldable pub enter : Verdict → Eligible → Eligible
enter (Verdict.skip s) e = record e { skipped = s ∷ e.skipped }
enter (Verdict.keep c tw visit) e = record e {
  coords = c ∷ e.coords;
  time_windows = (c.place_id, tw) ∷ e.time_windows;
  visit_durations_s = (c.place_id, visit) ∷ e.visit_durations_s;
}

-- The loop. What an identifier leads to does not depend on where it stands in the request, so the
-- dictionaries may be read from either end.
unfoldable pub eligible : Dict PlaceDoc → ℕ → ℕ → Option ℕ → List String → Eligible
unfolding judge enter
eligible docs day_start_s day_end_s google_weekday [] = record {
  skipped = [];
  coords = [];
  time_windows = [];
  visit_durations_s = [];
}
eligible docs day_start_s day_end_s google_weekday (id ∷ ids) =
    enter (judge id (lookup id docs) day_start_s day_end_s google_weekday)
      (eligible docs day_start_s day_end_s google_weekday ids)

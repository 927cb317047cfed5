-- ===== src/MultiDay/Plans.antt =====
-- The plans of a day and of a trip in src/optimizer/solver/models.py, and how
-- src/optimizer/solver/multi_day_service.py makes them.
use travel_llm_planner.Common.{
  ℕ, zero, suc, String, Option, none, some, List, [], ◌∷◌, ◌++◌, map, Dict,
}
use travel_llm_planner.Matrix.{TransportMode}
use travel_llm_planner.Places.{PlaceDoc, SkippedPlace, doc_of}
use travel_llm_planner.Planner.{DayConfig}
use travel_llm_planner.Service.{OptimizeResponse, RouteStep}
use travel_llm_planner.MultiDay.{TransferSegment}
use travel_llm_planner.MultiDay.Partition.{skipped_as}

pub data SegmentKind : Type 0 where
  pre_transfer post_transfer : SegmentKind

pub record DayRouteSegment : Type 0 where
  pub kind : SegmentKind
  pub steps : List RouteStep
  pub total_travel_time_s : ℕ
  pub total_visit_time_min : ℕ
  pub total_wait_min : ℕ
  pub travel_to_end_s : ℕ
  pub skipped : List SkippedPlace

pub record DayPlan : Type 0 where
  pub day_index : ℕ
  pub date : ℕ
  pub steps : List RouteStep
  pub total_travel_time_s : ℕ
  pub total_visit_time_min : ℕ
  pub total_wait_min : ℕ
  pub skipped : List SkippedPlace
  pub travel_to_end_s : ℕ
  pub transfer : Option TransferSegment
  pub route_segments : List DayRouteSegment

pub record MultiDayResponse : Type 0 where
  pub days : List DayPlan
  pub transport_mode : TransportMode
  pub unassigned : List SkippedPlace

-- `_segment_from_result`
unfoldable pub segment_from_result :
    SegmentKind → Option OptimizeResponse → List SkippedPlace → DayRouteSegment
segment_from_result kind none window_skipped = record {
  kind = kind;
  steps = [];
  total_travel_time_s = 0;
  total_visit_time_min = 0;
  total_wait_min = 0;
  travel_to_end_s = 0;
  skipped = window_skipped;
}
segment_from_result kind (some result) window_skipped = record {
  kind = kind;
  steps = result.steps;
  total_travel_time_s = result.total_travel_time_s;
  total_visit_time_min = result.total_visit_time_min;
  total_wait_min = result.total_wait_min;
  travel_to_end_s = result.travel_to_end_s;
  skipped = result.skipped;
}

-- `pre_window_skipped` and `post_window_skipped`
unfoldable pub window_skipped : Dict PlaceDoc → String → List String → ℕ → List SkippedPlace
window_skipped docs reason pids zero = map (λ pid. skipped_as pid reason (doc_of docs pid)) pids
window_skipped docs reason pids (suc budget) = []

abbrev pub empty_plan : ℕ → DayConfig → DayPlan
empty_plan day_idx cfg = record {
  day_index = day_idx;
  date = cfg.date;
  steps = [];
  total_travel_time_s = 0;
  total_visit_time_min = 0;
  total_wait_min = 0;
  skipped = [];
  travel_to_end_s = 0;
  transfer = none;
  route_segments = [];
}

abbrev pub single_plan : ℕ → DayConfig → OptimizeResponse → DayPlan
single_plan day_idx cfg result = record {
  day_index = day_idx;
  date = cfg.date;
  steps = result.steps;
  total_travel_time_s = result.total_travel_time_s;
  total_visit_time_min = result.total_visit_time_min;
  total_wait_min = result.total_wait_min;
  skipped = result.skipped;
  travel_to_end_s = result.travel_to_end_s;
  transfer = none;
  route_segments = [];
}

abbrev pub transition_plan :
    ℕ
    → DayConfig
    → TransferSegment
    → List SkippedPlace
    → DayRouteSegment
    → DayRouteSegment
    → DayPlan
transition_plan day_idx cfg transfer pre_solver_skipped pre post = record {
  day_index = day_idx;
  date = cfg.date;
  steps = post.steps;
  total_travel_time_s = post.total_travel_time_s;
  total_visit_time_min = post.total_visit_time_min;
  total_wait_min = post.total_wait_min;
  skipped = pre_solver_skipped ++ pre.skipped ++ post.skipped;
  travel_to_end_s = post.travel_to_end_s;
  transfer = some transfer;
  route_segments = pre ∷ post ∷ [];
}

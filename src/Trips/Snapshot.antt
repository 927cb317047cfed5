-- ===== src/Trips/Snapshot.antt =====
-- src/trips/snapshot.py: what of a trip is stored, and how it is read back. The JSON document is
-- kept as the fields that the repository reads and the text of the rest; the writer and the reader
-- of JSON, which pydantic and the standard library provide, and SHA-256 are parameters.
use travel_llm_planner.Common.{
  ℕ, suc, min, max, same, if◌then◌else◌, String, Option, none, some, List, [], ◌∷◌, length,
}
use travel_llm_planner.Common.Raising.{Raising, ok, raise}
use travel_llm_planner.Trips.{TripPlanType, SnapshotDisplayFields, TripError}

-- `SaveTripRequest`: the days of the plan, and the text of its request and response.
pub record SaveTripRequest : Type 0 where
  pub plan_type : TripPlanType
  pub name : String
  pub days : List ℕ
  pub plan : String
  pub expected_revision : Option ℕ

pub record Payload : Type 0 where
  pub plan_type : TripPlanType
  pub name : String
  pub days : List ℕ
  pub plan : String
  pub schema_version : ℕ

-- `TripDetailOut`, with the payload that it is validated from.
pub record TripDetailOut : Type 0 where
  pub id : String
  pub payload : Payload
  pub revision : ℕ
  pub created_at : String
  pub updated_at : Option String

abbrev pub current_schema_version : ℕ
current_schema_version = 1

unfoldable pub snapshot_payload : SaveTripRequest → Payload
snapshot_payload request = record {
  plan_type = request.plan_type;
  name = request.name;
  days = request.days;
  plan = request.plan;
  schema_version = current_schema_version;
}

abbrev pub least : ℕ → List ℕ → ℕ
least d [] = d
least d (e ∷ es) = least (min d e) es

abbrev pub greatest : ℕ → List ℕ → ℕ
greatest d [] = d
greatest d (e ∷ es) = greatest (max d e) es

-- A validated request has a day. A single-day plan has its date only.
unfoldable pub display_fields : Payload → SnapshotDisplayFields
display_fields payload = elim payload.days [
  | [] ↦ record { start_date = 0; end_date = 0; num_days = 0 }
  | d ∷ ds ↦ record {
    start_date = least d ds;
    end_date = greatest d ds;
    num_days = suc (length ds);
  }
]

pub record Snapshot : Type 0 where
  pub canonical : String
  pub digest : String
  pub display : SnapshotDisplayFields

module _ (encode : Payload → String) (sha256 : String → String) where
  unfoldable pub build_snapshot : SaveTripRequest → Snapshot
  unfolding snapshot_payload display_fields
  build_snapshot request = record {
    canonical = encode (snapshot_payload request);
    digest = sha256 (encode (snapshot_payload request));
    display = display_fields (snapshot_payload request);
  }

module _ (decode : String → Option Payload) where
  unfoldable pub load_snapshot : String → String → Raising TripError Payload
  load_snapshot snapshot compression =
      if same compression "none"
      then elim (decode snapshot) [
        | none ↦ raise TripError.unreadable_snapshot
        | some payload ↦ ok payload
      ]
      else raise TripError.unreadable_snapshot

-- The answer of a stored snapshot. That the models of requests and responses take its payload again is
-- not part of the model: a detail is made of every payload.
unfoldable pub detail_from_snapshot : String → Payload → ℕ → String → Option String → TripDetailOut
detail_from_snapshot id payload revision created_at updated_at = record {
  id = id;
  payload = payload;
  revision = revision;
  created_at = created_at;
  updated_at = updated_at;
}

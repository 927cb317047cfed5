-- ===== src/Matrix.antt =====
-- src/optimizer/matrix/models.py: travel costs between places.
use travel_llm_planner.Common.{
  ℕ, String, ◌&&◌, Option, none, some, List, [], ◌∷◌, ◌>>=◌, if◌then◌else◌, same,
}

pub data TransportMode : Type 0 where
  walk drive bicycle transit : TransportMode

pub record MatrixEntry : Type 0 where
  pub origin_id : String
  pub dest_id : String
  pub distance_m : ℕ
  pub duration_s : ℕ

-- `_entries` is a dict keyed by (origin_id, dest_id). `computed_at` is a timestamp.
pub record DistanceMatrix : Type 0 where
  pub entries : List ((String × String) × MatrixEntry)
  pub transport_mode : TransportMode
  pub computed_at : ℕ

find_entry : String → String → List ((String × String) × MatrixEntry) → Option MatrixEntry
find_entry o d [] = none
find_entry o d (((o', d'), e) ∷ rest) =
    if same o' o && same d' d then some e else find_entry o d rest

-- `DistanceMatrix.get`
unfoldable pub get : DistanceMatrix → String → String → Option MatrixEntry
unfolding find_entry
get m origin_id dest_id = find_entry origin_id dest_id m.entries

-- `DistanceMatrix.duration_s` and `distance_m`; nothing where Python raises `KeyError`.
unfoldable pub duration_s : DistanceMatrix → String → String → Option ℕ
unfolding find_entry
duration_s m origin_id dest_id =
    find_entry origin_id dest_id m.entries >>= λ entry. some entry.duration_s

unfoldable pub distance_m : DistanceMatrix → String → String → Option ℕ
unfolding find_entry
distance_m m origin_id dest_id =
    find_entry origin_id dest_id m.entries >>= λ entry. some entry.distance_m

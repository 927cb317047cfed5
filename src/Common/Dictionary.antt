-- ===== src/Common/Dictionary.antt =====
-- A Python `dict` with text keys, as an association list.
use Prim.Native.String.{String}
use mathlib.Core.List.{List, [], ◌∷◌}
use mathlib.Core.Option.{Option, none, some}
use travel_llm_planner.Common.Tests.{same, if◌then◌else◌}

abbrev pub Dict : Type 0 → Type 0
Dict V = List (String × V)

-- `d.get(k)`
unfoldable pub lookup : {V : Type 0} → String → Dict V → Option V
lookup k [] = none
lookup k ((j, v) ∷ d) = if same j k then some v else lookup k d

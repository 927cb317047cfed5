-- ===== src/Lib.antt =====
-- Models and theorems for the travel planner, a FastAPI service that plans one-day and multi-day
-- trips, lets a chat edit them, and stores them with their revisions.
--
-- The parts, and how they work together. A request for a day or for several days is validated; a
-- matrix of travel times between its places is looked up; the engine searches a route of visits by
-- nearest neighbour from every start and improves it by 2-opt, under the opening hours of the places
-- and the bounds of the day. For several days, lodging stays fix where a day starts and ends, and
-- transfers stand on the days on which the lodging changes. A stored trip is edited by a batch of
-- operations on its request, which is then planned anew and written back by compare-and-set. The
-- repository pairs the current state of a trip with an immutable row for each revision.
--
-- The files, and the code that they model (paths from the root of the repository):
--   Common: shared names, Boolean tests, lists measured by native numbers, dictionaries, and code that
--     raises exceptions as values (Common/Raising).
--   Clock: `resolve_day_bound_s` and `seconds_to_time` of src/optimizer/solver/models.py. Times are
--     seconds from midnight, a `datetime.time` is hour, minute, second and microsecond.
--   Window: class `TimeWindow` of the same file, a list of opening segments.
--   Matrix: `DistanceMatrix` of src/optimizer/matrix/models.py, a table from pairs of places to travel
--     costs; a lookup that raises `KeyError` gives none.
--   Places: what the optimiser reads of a place's document, and the entries for places left out.
--   Hours: `_parse_time_window` of src/optimizer/solver/service.py, from the preferred hours and the
--     opening periods of a place's document; a key that is missing there is none. Hours/Segments is
--     about the segments that it computes, Hours/Allowed about what the document says.
--   Engine: src/optimizer/solver/engine.py. Engine/Schedule has `schedule_route`, `is_feasible` and the
--     scores, Engine/Nearest `nearest_neighbor` with its attempts, Engine/TwoOpt `two_opt`. The state
--     of an attempt (route, unvisited set, clock) is a record; each `continue`, `break` and early
--     `return` of a loop body is an outcome of its function.
--   Service: src/optimizer/solver/service.py with `OptimizeRequest` and its validators. The solver
--     with its three tiers of priorities (Service/Priorities), the filter of the places
--     (Service/Eligible) and `optimize_route` (Service/Route). The other files under Service are
--     proofs: what the solver accounts for (Accounts, Tiers, Kept), must-see places (Weights,
--     Guarantee, MustSee), and what an answer holds (Filtered, Scheduled, Stops, Ends, Travel,
--     Final, Assembled, Answered).
--   Accommodations: src/accommodations. The stays, `validate_no_stay_overlaps` and
--     `resolve_day_anchors`, and `_is_transition_day` of src/optimizer/solver/models.py.
--   Planner: `MultiDayRequest` and its parts in src/optimizer/solver/models.py, and
--     src/transfers/models.py, each validator as a Boolean test.
--   MultiDay: src/optimizer/solver/multi_day_service.py and src/transfers/resolver.py. The context of a
--     transition day (MultiDay), candidate days and priorities (MultiDay/Days), `_partition_places`
--     with its dictionaries of buckets as a list of days (MultiDay/Partition), the requests
--     (MultiDay/Requests), the plans (MultiDay/Plans) and `optimize_trip` (MultiDay/Trip).
--     MultiDay/Planned joins the theorems on the partition, the windows and the single day into one
--     on the trip.
--   Editing: src/trips/editing. The operations and errors (Editing), reconcile.py (Editing/Reconcile),
--     the handlers and `apply_operations` of apply.py (Editing/InPlace, Editing/Lodging,
--     Editing/Handlers, Editing/Apply). The dump of the request that the handlers mutate is a value
--     that each handler returns anew; writing through an entry that was looked up is an update of the
--     first entry with its key.
--   Trips: src/trips/repository.py and snapshot.py. The tables and statements (Trips), the snapshot
--     (Trips/Snapshot), `save`, `get`, `update` and `delete` (Trips/Repository), `restore_revision` and
--     `import_migration_baseline` (Trips/History). A transaction commits its tables or gives back the
--     ones it found, as src/core/turso/adapter.py does. Operations are atomic where the code holds one
--     transaction; where it reads before the transaction, the model takes the database of each read
--     apart, so that any other writer may come between. The tables have the primary keys of
--     src/core/turso/manager.py.
--
-- Bounds and fuel. Quantities are natural numbers; none is subtracted below zero where the code would
-- go on with a negative one: a negative budget is none in the code too, and a remaining capacity of
-- either sign is a pair. `two_opt` recurs on `max_iterations`, which is the program's own bound. The
-- `while` loop of an attempt recurs on the number of nodes left: each round that goes on removes one
-- of them, so that this fuel is enough. All else is recursion on lists.
--
-- Parameters. `fetch_places_by_ids` of the places' storage, `get_matrix` of the travel matrix and the
-- clock are functions without hypotheses; in a trip each call of the single-day planner has a matrix
-- and a clock reading of its own. The distance `_haversine_km` is a function too, since it is
-- floating-point arithmetic of which only comparisons are used. The iteration order of the set of
-- unvisited nodes is a function `walk` with the hypothesis that it permutes the set. The writer and
-- the reader of JSON and SHA-256 are functions; the one hypothesis about them is that the reader gives
-- back the document that the writer wrote. New identifiers are inputs, and so are the clock readings
-- of the repository.
--
-- What is simplified. Dates are day numbers, hours and indices natural numbers, coordinates millionths
-- of a degree counted from 180 degrees west or south. Error messages and log entries are left out, and
-- an exception is known by its class. A request for a trip holds the days that the repository reads and
-- the text of the rest. `detail_from_snapshot` does not validate the parts of a stored snapshot again,
-- which can fail in the code where they are not those of a valid trip.
--
-- Not modelled: the cache and the client of the travel matrix, the editor that joins
-- `apply_operations`, the planner and the repository, the reads that list trips and revisions, the
-- import of places (src/gmaps), the chat (src/orchestrator), authentication, HTTP routes, the panel,
-- scripts and front ends: they are calls of other systems, presentation, or not covered yet.
pub mod Common
pub mod Clock
pub mod Window
pub mod Matrix
pub mod Hours
pub mod Places
pub mod Engine
pub mod Service
pub mod Accommodations
pub mod Planner
pub mod MultiDay
pub mod Editing
pub mod Trips

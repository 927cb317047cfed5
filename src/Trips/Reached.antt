-- ===== src/Trips/Reached.antt =====
-- The databases that calls of the repository lead to.
use travel_llm_planner.Common.{ℕ, ◌≡◌, sym, subst, String, false, Option}
use travel_llm_planner.Trips.{Db, find_revision, find_trip}
use travel_llm_planner.Trips.Snapshot.{Payload}
use travel_llm_planner.Trips.Consistent.{IsConsistent}
use travel_llm_planner.Trips.Steps.{
  Call, saves, updates, deletes, restores, imports, is_restoration, Reads, empty, run,
  run-IsConsistent,
}

empty-IsConsistent : (sha256 : String → String) → IsConsistent sha256 empty
unfolding find_trip find_revision
empty-IsConsistent sha256 = record {
  backed = λ id t e. cc;
  bounded = λ id k r e. cc;
  hashed = λ id k r e. cc;
}

nothing_read : (P : Db → Type 0) (call : Call) → is_restoration call ≡ false → Reads P call
nothing_read P (saves trip_id now request) e = tt
nothing_read P (updates trip_id request source summary now) e = tt
nothing_read P (deletes trip_id) e = tt
nothing_read P (restores trip_id target expected summary now row_db target_db) e = cc
nothing_read P (imports trip_id request revision summary created_at now baseline_db trip_db) e = tt

module _ (encode : Payload → String) (decode : String → Option Payload)
    (sha256 : String → String) where
  -- The databases that calls lead to from empty tables. A restoration may have read any of them.
  pub data Reachable : Db → Type 0 where
    start : Reachable empty
    called :
        (call : Call) (db after : Db)
        → is_restoration call ≡ false
        → Reachable db
        → after ≡ run encode decode sha256 call db
        → Reachable after
    restored :
        (trip_id : String) (target expected : ℕ) (summary now : String)
        (row_db target_db db after : Db)
        → Reachable target_db
        → Reachable db
        → after
          ≡ run encode decode sha256
              (restores trip_id target expected summary now row_db target_db)
              db
        → Reachable after

  -- In every database that calls lead to, however they interleave: each trip has a revision row that
  -- records its current state, each revision row belongs to a trip at that revision or beyond it, and
  -- holds the hash of its snapshot.
  pub Reachable-IsConsistent : {db : Db} → Reachable db → IsConsistent sha256 db
  Reachable-IsConsistent Reachable.start = empty-IsConsistent sha256
  Reachable-IsConsistent (Reachable.called call db after plain before e) =
      subst (IsConsistent sha256) (sym e) (
        run-IsConsistent encode decode sha256 call db
          (nothing_read (IsConsistent sha256) call plain) (Reachable-IsConsistent before))
  Reachable-IsConsistent
        (Reachable.restored trip_id target expected summary now row_db target_db db after read
          before e) =
      subst (IsConsistent sha256) (sym e) (
        run-IsConsistent encode decode sha256
          (restores trip_id target expected summary now row_db target_db) db
          (Reachable-IsConsistent read) (Reachable-IsConsistent before))

-- ===== src/Trips/Steps.antt =====
-- The repository as a system that takes one operation after another: which databases it reaches, and
-- what every operation keeps.
use travel_llm_planner.Common.{
  ℕ, ◌≡◌, refl, ap, sym, ◌∙◌, subst, same, String, Bool, true, false, Option, none, some, [], inl,
  inr, if◌then◌else◌, ◌⊎◌,
}
use travel_llm_planner.Trips.{
  RevisionSource, RevisionRow, Db, find_revision, delete_trip, delete_revisions,
}
use travel_llm_planner.Trips.Snapshot.{SaveTripRequest, Payload}
use travel_llm_planner.Trips.Repository.{save, update, delete}
use travel_llm_planner.Trips.History.{restore_revision, import_migration_baseline}
use travel_llm_planner.Trips.Tables.{find_revision-delete_revisions}
use travel_llm_planner.Trips.Rows.{find_revision_past}
use travel_llm_planner.Trips.Consistent.{
  AllHashed, IsConsistent, write-IsConsistent, create-IsConsistent, delete-IsConsistent,
}
use travel_llm_planner.Trips.Writes.{Effect}
use travel_llm_planner.Trips.Effects.{save-Effect, update-Effect, import-Effect}
use travel_llm_planner.Trips.Restores.{restore-Effect}

-- A call of the repository. The databases of `restores` and `imports` are those that the reads before
-- the transaction find.
pub data Call : Type 0 where
  saves : (trip_id now : String) → SaveTripRequest → Call
  updates : (trip_id : String) → SaveTripRequest → RevisionSource → (summary now : String) → Call
  deletes : (trip_id : String) → Call
  restores :
      (trip_id : String)
      → (target_revision expected_revision : ℕ) → (summary now : String) → (row_db target_db : Db)
      → Call
  imports :
      (trip_id : String)
      → SaveTripRequest
      → ℕ
      → (summary created_at now : String) → (baseline_db trip_db : Db) → Call

abbrev pub is_deletion_of : String → Call → Bool
is_deletion_of id (deletes trip_id) = same trip_id id
is_deletion_of id call = false

-- A restoration copies a row that it read from a database that satisfies `P`.
abbrev pub Reads : (Db → Type 0) → Call → Type 0
Reads P (restores trip_id target expected summary now row_db target_db) = P target_db
Reads P call = Unit {0}

Reads-map :
    (P Q : Db → Type 0) → ((db : Db) → P db → Q db) → (call : Call) → Reads P call → Reads Q call
Reads-map P Q f (saves trip_id now request) reads = tt
Reads-map P Q f (updates trip_id request source summary now) reads = tt
Reads-map P Q f (deletes trip_id) reads = tt
Reads-map P Q f (restores trip_id target expected summary now row_db target_db) reads =
    f target_db reads
Reads-map P Q f (imports trip_id request revision summary created_at now baseline_db trip_db)
      reads =
    tt

abbrev pub is_restoration : Call → Bool
is_restoration (restores trip_id target expected summary now row_db target_db) = true
is_restoration call = false

abbrev pub empty : Db
empty = record { trips = []; trip_revisions = [] }

-- An effect keeps the tables consistent.
Effect-IsConsistent :
    (sha256 : String → String) (db after : Db)
    → IsConsistent sha256 db
    → Effect sha256 db after
    → IsConsistent sha256 after
Effect-IsConsistent sha256 db after before (Effect.unchanged e) =
    subst (IsConsistent sha256) (sym e) before
Effect-IsConsistent sha256 db after before
      (Effect.created t r fresh records of number hash free e) =
    subst (IsConsistent sha256) (sym e)
      (create-IsConsistent sha256 db before t r fresh records of number hash free)
Effect-IsConsistent sha256 db after before
      (Effect.wrote id t u us r at written others next records of number hash free e) =
    subst (IsConsistent sha256) (sym e) (
      write-IsConsistent sha256 db before id t u us r at written others next records of number hash
        free)

Effect-keeps_revision :
    (sha256 : String → String) (db after : Db) (id : String) (k : ℕ) (r : RevisionRow)
    → find_revision id k db.trip_revisions ≡ some r
    → Effect sha256 db after
    → find_revision id k after.trip_revisions ≡ some r
Effect-keeps_revision sha256 db after id k r found (Effect.unchanged e) =
    ap (λ (d : Db). find_revision id k d.trip_revisions) e ∙ found
Effect-keeps_revision sha256 db after id k r found
      (Effect.created t q fresh records of number hash free e) =
    ap (λ (d : Db). find_revision id k d.trip_revisions) e
    ∙ find_revision_past id k q db.trip_revisions free found
Effect-keeps_revision sha256 db after id k r found
      (Effect.wrote trip_id t u us q at written others next records of number hash free e) =
    ap (λ (d : Db). find_revision id k d.trip_revisions) e
    ∙ find_revision_past id k q db.trip_revisions free found

module _ (encode : Payload → String) (decode : String → Option Payload)
    (sha256 : String → String) where
  unfoldable pub run : Call → Db → Db
  run (saves trip_id now request) db = (save encode decode sha256 trip_id now request db).1
  run (updates trip_id request source summary now) db =
      (update encode decode sha256 trip_id request source summary now db).1
  run (deletes trip_id) db = (delete encode decode sha256 trip_id db).1
  run (restores trip_id target expected summary now row_db target_db) db =
      (restore_revision decode trip_id target expected summary now row_db target_db db).1
  run (imports trip_id request revision summary created_at now baseline_db trip_db) db =
      (import_migration_baseline encode decode sha256 trip_id request revision summary created_at
        now baseline_db trip_db db).1

  run-deletes :
      (trip_id : String) (db : Db)
      → run (deletes trip_id) db ≡ record {
        trips = delete_trip trip_id db.trips;
        trip_revisions = delete_revisions trip_id db.trip_revisions;
      }
  unfolding run delete
  run-deletes trip_id db = refl

  -- A call has an effect, or deletes a trip.
  run-Effect :
      (call : Call) (db : Db)
      → Reads (AllHashed sha256) call
      → Effect sha256 db (run call db) ⊎ ((id : String) × (call ≡ deletes id))
  unfolding run
  run-Effect (saves trip_id now request) db reads =
      inl (save-Effect encode decode sha256 trip_id now request db)
  run-Effect (updates trip_id request source summary now) db reads =
      inl (update-Effect encode decode sha256 trip_id request source summary now db)
  run-Effect (deletes trip_id) db reads = inr (trip_id, refl)
  run-Effect (restores trip_id target expected summary now row_db target_db) db reads =
      inl
        (restore-Effect decode sha256 trip_id target expected summary now row_db target_db db reads)
  run-Effect (imports trip_id request revision summary created_at now baseline_db trip_db) db
        reads =
      inl (
        import-Effect encode decode sha256 trip_id request revision summary created_at now
          baseline_db trip_db db)

  pub run-IsConsistent :
      (call : Call) (db : Db)
      → Reads (IsConsistent sha256) call
      → IsConsistent sha256 db
      → IsConsistent sha256 (run call db)
  run-IsConsistent call db reads before =
      elim (run-Effect call db
        (Reads-map (IsConsistent sha256) (AllHashed sha256) (λ d c. c.hashed) call reads)) [
          | inl effect ↦ Effect-IsConsistent sha256 db (run call db) before effect
          | inr (id, deletion) ↦
              subst (λ (c : Call). IsConsistent sha256 (run c db)) (sym deletion)
                (subst (IsConsistent sha256) (sym (run-deletes id db))
                  (delete-IsConsistent sha256 db before id))
        ]

  -- No call takes a revision row away or changes it, but a deletion of its trip. A restoration may
  -- have read its target row from any database in which each row holds the hash of its snapshot.
  pub run_keeps_revision :
      (call : Call) (db : Db) (id : String) (k : ℕ) (r : RevisionRow)
      → Reads (AllHashed sha256) call
      → is_deletion_of id call ≡ false
      → find_revision id k db.trip_revisions ≡ some r
      → find_revision id k (run call db).trip_revisions ≡ some r
  run_keeps_revision call db id k r reads stays found = elim (run-Effect call db reads) [
    | inl effect ↦ Effect-keeps_revision sha256 db (run call db) id k r found effect
    | inr (gone, deletion) ↦
        let other : is_deletion_of id (deletes gone) ≡ false =
          ap (is_deletion_of id) (sym deletion) ∙ stays in
        let rows : (run (deletes gone) db).trip_revisions
            ≡ delete_revisions gone db.trip_revisions =
          ap (λ (d : Db). d.trip_revisions) (run-deletes gone db) in
        subst (λ (c : Call). find_revision id k (run c db).trip_revisions ≡ some r) (sym deletion)
          (ap (find_revision id k) rows
            ∙ find_revision-delete_revisions gone id k db.trip_revisions
            ∙ ap (λ b. if b then none else find_revision id k db.trip_revisions) other
            ∙ found)
  ]

-- ===== src/Editing/Outcome.antt =====
-- The parts that a successful batch of edits went through.
use travel_llm_planner.Common.{ℕ, ◌≡◌, refl, subst, true, List}
use travel_llm_planner.Planner.{
  TransferBlock, MultiDayRequest, day_dates, transfer_dates, validate_request,
}
use travel_llm_planner.Editing.{EditError, ok, >>=-eq-ok, ensure, ensure-ok, TripEditOperation}
use travel_llm_planner.Editing.Reconcile.{
  ResolvedOp, resolve_accommodation_selectors, reconcile_transfers_after_transition_change,
}
use travel_llm_planner.Editing.Lodging.{apply_accommodation_ops}
use travel_llm_planner.Editing.Handlers.{handle_all}
use travel_llm_planner.Editing.Apply.{ApplyOutcome, accommodation_ops, finish, apply_operations}

-- The request after reconciliation, which was found valid.
abbrev pub Finished : List ℕ → MultiDayRequest → ApplyOutcome → Type 0
Finished dates edited out =
    (kept : List TransferBlock) × (reconcile_transfers_after_transition_change (day_dates edited)
        edited.accommodations edited.transfers dates
      ≡ ok (kept, out.removed_transfer_dates))
    × (out.request ≡ record edited { transfers = kept })
    × (validate_request out.request ≡ true)

pub finish-Finished :
    (dates : List ℕ) (edited : MultiDayRequest) {out : ApplyOutcome}
    → finish dates edited ≡ ok out
    → Finished dates edited out
unfolding finish
finish-Finished dates edited {out} e =
    let ((kept, removed), reconciled, rest) =
      >>=-eq-ok
        (reconcile_transfers_after_transition_change (day_dates edited) edited.accommodations
          edited.transfers dates)
        _ e in
    let mutated : MultiDayRequest = record edited { transfers = kept } in
    let (valid, checked, done) =
      >>=-eq-ok (ensure (validate_request mutated) EditError.trip_edit_validation) _ rest in
    let result : ApplyOutcome = record { request = mutated; removed_transfer_dates = removed } in
    let same_one : result ≡ out = cc in
    subst (Finished dates edited) same_one (
      kept,
      reconciled,
      refl,
      ensure-ok (validate_request mutated) EditError.trip_edit_validation checked,
    )

-- The request with its lodgings edited, on which the handlers run.
abbrev pub lodged : MultiDayRequest → List ResolvedOp → MultiDayRequest
lodged request resolved = record request {
  accommodations = apply_accommodation_ops resolved request.accommodations;
}

pub apply_operations-Finished :
    (request : MultiDayRequest) (operations : List TripEditOperation) {out : ApplyOutcome}
    → apply_operations request operations ≡ ok out
    → (resolved : List ResolvedOp) × (edited : MultiDayRequest) × (resolve_accommodation_selectors
          request.accommodations
          (accommodation_ops operations)
        ≡ ok resolved)
      × (handle_all (lodged request resolved) operations ≡ ok edited)
      × Finished (transfer_dates request) edited out
unfolding apply_operations
apply_operations-Finished request operations e =
    let (resolved, selected, rest) =
      >>=-eq-ok
        (resolve_accommodation_selectors request.accommodations (accommodation_ops operations)) _
        e in
    let (edited, handled, done) =
      >>=-eq-ok (handle_all (lodged request resolved) operations) _ rest in
    (resolved, edited, selected, handled, finish-Finished (transfer_dates request) edited done)

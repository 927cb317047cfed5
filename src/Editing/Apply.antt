-- ===== src/Editing/Apply.antt =====
-- `apply_operations` of src/trips/editing/apply.py.
use travel_llm_planner.Common.{ℕ, List, [], ◌∷◌}
use travel_llm_planner.Planner.{MultiDayRequest, day_dates, transfer_dates, validate_request}
use travel_llm_planner.Editing.{
  EditError, Edited, ok, ◌>>=◌, ensure, AccommodationOp, TripEditOperation, accommodation,
}
use travel_llm_planner.Editing.Reconcile.{
  resolve_accommodation_selectors, reconcile_transfers_after_transition_change,
}
use travel_llm_planner.Editing.Lodging.{apply_accommodation_ops}
use travel_llm_planner.Editing.Handlers.{handle_all}

-- `[op for op in operations if isinstance(op, _ACCOMMODATION_OPS)]`
unfoldable pub accommodation_ops : List TripEditOperation → List AccommodationOp
accommodation_ops [] = []
accommodation_ops (accommodation op ∷ ops) = op ∷ accommodation_ops ops
accommodation_ops (op ∷ ops) = accommodation_ops ops

pub record ApplyOutcome : Type 0 where
  pub request : MultiDayRequest
  pub removed_transfer_dates : List ℕ

-- Reconciliation and the one validation at the end of the batch.
unfoldable pub finish : List ℕ → MultiDayRequest → Edited ApplyOutcome
finish pre_batch_transfer_dates edited =
    reconcile_transfers_after_transition_change (day_dates edited) edited.accommodations
      edited.transfers pre_batch_transfer_dates
    >>= λ reconciled.
        let mutated : MultiDayRequest = record edited { transfers = reconciled.0 } in
        ensure (validate_request mutated) EditError.trip_edit_validation >>= λ valid.
        ok (record { request = mutated; removed_transfer_dates = reconciled.1 })

unfoldable pub apply_operations : MultiDayRequest → List TripEditOperation → Edited ApplyOutcome
unfolding apply_accommodation_ops accommodation_ops handle_all finish
apply_operations request operations =
    resolve_accommodation_selectors request.accommodations (accommodation_ops operations)
    >>= λ resolved.
        let lodged : MultiDayRequest = record request {
          accommodations = apply_accommodation_ops resolved request.accommodations;
        } in
        handle_all lodged operations >>= λ edited. finish (transfer_dates request) edited

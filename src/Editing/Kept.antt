-- ===== src/Editing/Kept.antt =====
-- Which transfers a batch of edits keeps and which it drops.
use travel_llm_planner.Common.{
  ℕ, ◌≡◌, ◌<◌, subst, sym, ltb, Bool, true, false, List, [], ◌∷◌, All, Bool-cases, &&-eq-true,
  arith, inl, inr,
}
use travel_llm_planner.Accommodations.{
  AccommodationStay, covers_a_night, validate_stay, validate_no_stay_overlaps, resolve_day,
  is_transition_day,
}
use travel_llm_planner.Accommodations.Overlaps.{AllApart, AllNights, validate_no_stay_overlaps_iff}
use travel_llm_planner.Accommodations.Anchors.{Changeover, is_transition_day_iff}
use travel_llm_planner.Planner.{
  every, is_among, TransferBlock, MultiDayRequest, day_dates, transfer_dates, validate_fields,
  validate_model, validate_transfers_on_transition_days, validate_request,
}
use travel_llm_planner.Editing.{ok, TripEditOperation}
use travel_llm_planner.Editing.Reconcile.{
  ResolvedOp, resolve_accommodation_selectors, is_kept, partition_transfers,
  reconcile_transfers_after_transition_change,
}
use travel_llm_planner.Editing.Handlers.{handle_all}
use travel_llm_planner.Editing.Outcome.{lodged, apply_operations-Finished}
use travel_llm_planner.Editing.Apply.{ApplyOutcome, accommodation_ops, apply_operations}

every-All :
    {A : Type 0} (test : A → Bool) (P : A → Type 0) (f : (a : A) → test a ≡ true → P a)
    (xs : List A)
    → every test xs ≡ true
    → All P xs
every-All test P f [] h = tt
every-All test P f (x ∷ xs) h =
    let (first, rest) = &&-eq-true (test x) (every test xs) h in
    (f x first, every-All test P f xs rest)

validate_stay-night :
    (s : AccommodationStay) → validate_stay s ≡ true → s.check_in_date < s.check_out_date
unfolding validate_stay covers_a_night
validate_stay-night s h = ground (arith, h, ltb)

-- The parts of a valid request that concern its lodgings and transfers.
validate_request-parts :
    (r : MultiDayRequest)
    → validate_request r ≡ true
    → (every validate_stay r.accommodations ≡ true)
      × (validate_no_stay_overlaps r.accommodations ≡ true)
      × (validate_transfers_on_transition_days (day_dates r) r.accommodations r.transfers ≡ true)
unfolding validate_request validate_fields validate_model
validate_request-parts r h = (ground (arith, h), ground (arith, h), ground (arith, h))

-- What is dropped was to be dropped, and what is kept passed.
partition-dropped :
    (keep : TransferBlock → Bool) (P : ℕ → Type 0)
    (f : (t : TransferBlock) → keep t ≡ false → P t.date) (ts : List TransferBlock)
    → All P (partition_transfers keep ts).1
unfolding partition_transfers
partition-dropped keep P f [] = tt
partition-dropped keep P f (t ∷ ts) = elim (Bool-cases (keep t)) [
  | inl kept ↦ rw kept (partition-dropped keep P f ts)
  | inr dropped ↦ rw dropped (f t dropped, partition-dropped keep P f ts)
]

-- The first list in its order, each of its transfers either kept or dropped with its date noted.
pub data Parts : List TransferBlock → List TransferBlock → List ℕ → Type 0 where
  done : Parts [] [] []
  keeps :
      (t : TransferBlock) {before kept : List TransferBlock} {dropped : List ℕ}
      → Parts before kept dropped
      → Parts (t ∷ before) (t ∷ kept) dropped
  drops :
      (t : TransferBlock) {before kept : List TransferBlock} {dropped : List ℕ}
      → Parts before kept dropped
      → Parts (t ∷ before) kept (t.date ∷ dropped)

partition_transfers-Parts :
    (keep : TransferBlock → Bool) (ts : List TransferBlock)
    → Parts ts (partition_transfers keep ts).0 (partition_transfers keep ts).1
unfolding partition_transfers
partition_transfers-Parts keep [] = Parts.done
partition_transfers-Parts keep (t ∷ ts) = elim (Bool-cases (keep t)) [
  | inl kept ↦ rw kept (Parts.keeps t (partition_transfers-Parts keep ts))
  | inr dropped ↦ rw dropped (Parts.drops t (partition_transfers-Parts keep ts))
]

-- The day is one of the trip, and one stay ends and another begins on it.
abbrev pub IsChangeoverDay : MultiDayRequest → ℕ → Type 0
IsChangeoverDay r day = (is_among day (day_dates r) ≡ true) × Changeover r.accommodations day

-- A transfer to be dropped stood on a reconcilable date that is no changeover.
is_kept-false :
    (dates : List ℕ) (stays : List AccommodationStay) (reconcilable : List ℕ) (t : TransferBlock)
    → AllApart stays
    → is_kept dates stays reconcilable t ≡ false
    → (is_among t.date reconcilable ≡ true)
      × ¬ ((is_among t.date dates ≡ true) × Changeover stays t.date)
unfolding is_kept
is_kept-false dates stays reconcilable t apart h =
    let (there, back) = is_transition_day_iff stays t.date apart in
    (ground (arith, h), λ p. let yet = back p.1 in ground (arith, h, yet, p.0))

reconcile-partition :
    (dates : List ℕ) (stays : List AccommodationStay) (ts : List TransferBlock)
    (reconcilable : List ℕ) {out : List TransferBlock × List ℕ}
    → reconcile_transfers_after_transition_change dates stays ts reconcilable ≡ ok out
    → partition_transfers (is_kept dates stays reconcilable) ts ≡ out
unfolding reconcile_transfers_after_transition_change
reconcile-partition dates stays [] reconcilable e = unfold partition_transfers in cc
reconcile-partition dates stays (t ∷ ts) reconcilable e =
    elim (Bool-cases (every validate_stay stays)) [
      | inl valid ↦ let done = rw valid at e in cc
      | inr invalid ↦ let failed = rw invalid at e in cc
    ]

abbrev pub WasOrphan : List ℕ → MultiDayRequest → ℕ → Type 0
WasOrphan reconcilable after day = (is_among day reconcilable ≡ true) × ¬ IsChangeoverDay after day

reconcile-WasOrphan :
    (reconcilable : List ℕ) (edited : MultiDayRequest) {kept : List TransferBlock}
    {removed : List ℕ}
    → AllApart edited.accommodations
    → reconcile_transfers_after_transition_change
        (day_dates edited)
        edited.accommodations
        edited.transfers
        reconcilable
      ≡ ok (kept, removed)
    → All (WasOrphan reconcilable edited) removed
reconcile-WasOrphan reconcilable edited apart e =
    let dates = day_dates edited in
    let stays = edited.accommodations in
    let orphan = WasOrphan reconcilable edited in
    subst (λ (p : List TransferBlock × List ℕ). All orphan p.1)
      (reconcile-partition dates stays edited.transfers reconcilable e)
      (partition-dropped (is_kept dates stays reconcilable) orphan
        (λ t h. is_kept-false dates stays reconcilable t apart h) edited.transfers)

All-both :
    {A : Type 0} (P Q : A → Type 0) (xs : List A) → All P xs → All Q xs → All (λ x. P x × Q x) xs
All-both P Q [] p q = tt
All-both P Q (x ∷ xs) (p, ps) (q, qs) = ((p, q), All-both P Q xs ps qs)

valid-IsChangeoverDay :
    (r : MultiDayRequest)
    → AllApart r.accommodations
    → validate_transfers_on_transition_days (day_dates r) r.accommodations r.transfers ≡ true
    → All (λ (t : TransferBlock). IsChangeoverDay r t.date) r.transfers
unfolding validate_transfers_on_transition_days
valid-IsChangeoverDay r apart h =
    let among = λ (t : TransferBlock). is_among t.date (day_dates r) in
    let changes = λ (t : TransferBlock). is_transition_day (resolve_day r.accommodations t.date) in
    let (all_among, all_change) =
      &&-eq-true (every among r.transfers) (every changes r.transfers) h in
    All-both (λ t. is_among t.date (day_dates r) ≡ true) (λ t. Changeover r.accommodations t.date)
      r.transfers
      (every-All among (λ t. is_among t.date (day_dates r) ≡ true) (λ t k. k) r.transfers all_among)
      (every-All changes (λ t. Changeover r.accommodations t.date)
        (λ t k. (is_transition_day_iff r.accommodations t.date apart).0 k) r.transfers all_change)

-- The transfers as the operations of the batch left them, before any was dropped.
pub record IsEdited (request : MultiDayRequest) (operations : List TripEditOperation)
    (edited : MultiDayRequest) : Type 0 where
  pub resolved : List ResolvedOp
  pub selected :
      resolve_accommodation_selectors request.accommodations (accommodation_ops operations)
      ≡ ok resolved
  pub handled : handle_all (lodged request resolved) operations ≡ ok edited

-- After a batch that succeeds, every transfer stands on a day of the trip on which the lodging
-- changes, and every date whose transfer was dropped had a transfer before the batch and is no such
-- day any more. Nothing else happens to the transfers that the operations left: in their order, each
-- is among those of the result, unchanged, or is dropped with its date noted, and no other is there
-- or noted.
pub apply_operations-TransfersFit :
    (request : MultiDayRequest) (operations : List TripEditOperation) {out : ApplyOutcome}
    → apply_operations request operations ≡ ok out
    → All (λ (t : TransferBlock). IsChangeoverDay out.request t.date) out.request.transfers
      × All (WasOrphan (transfer_dates request) out.request) out.removed_transfer_dates
      × (edited : MultiDayRequest) × IsEdited request operations edited
      × Parts edited.transfers out.request.transfers out.removed_transfer_dates
apply_operations-TransfersFit request operations {out} e =
    let (resolved, edited, selected, handled, finished) =
      apply_operations-Finished request operations e in
    let (kept, reconciled, final, valid) = finished in
    let (stays_ok, apart_ok, fit) = validate_request-parts out.request valid in
    let nights : AllNights out.request.accommodations =
      every-All validate_stay (λ s. s.check_in_date < s.check_out_date) validate_stay-night
        out.request.accommodations stays_ok in
    let apart = (validate_no_stay_overlaps_iff out.request.accommodations nights).0 apart_ok in
    let edited_apart = subst (λ (r : MultiDayRequest). AllApart r.accommodations) final apart in
    let reconcilable = transfer_dates request in
    let dates = day_dates edited in
    (
      valid-IsChangeoverDay out.request apart fit,
      subst (λ (r : MultiDayRequest). All (WasOrphan reconcilable r) out.removed_transfer_dates)
          (sym final) (reconcile-WasOrphan reconcilable edited edited_apart reconciled),
      edited,
      record { resolved = resolved; selected = selected; handled = handled },
      subst (λ (r : MultiDayRequest). Parts edited.transfers r.transfers out.removed_transfer_dates)
          (sym final)
          (subst (λ (p : List TransferBlock × List ℕ). Parts edited.transfers p.0 p.1)
            (reconcile-partition dates edited.accommodations edited.transfers reconcilable
              reconciled)
            (partition_transfers-Parts (is_kept dates edited.accommodations reconcilable)
              edited.transfers)),
    )

-- ===== src/Registry/Methods.antt =====
-- The other methods of runtime/src/resources.ts: whole cleanups, quarantine, receipts and lookups.
use ai_macos.Base.{
  ℕ, String, Bool, true, false, ◌&&◌, ◌||◌, ◌+◌, Option, none, some, List, [], ◌∷◌, map, ◌==◌,
  nat_eq, string_eq, negate, length, any, find, select, Result, ok, err, ◌>>=◌, ◌>>◌, reject_if,
  or_throw, if◌then◌else◌,
}
use ai_macos.Base.Dict
use ai_macos.Base.Dict.{Dict, values}
use ai_macos.Resource.{
  Handle, active, quarantined, handle_state_eq, CleanupOutcome, unowned, owned, complete, unknown,
  TerminalOutcome, Lease, Receipt, receipt_eq, cleanup_is_valid, cleanup_covers,
}
use ai_macos.Registry.{
  Host, Slot, Registry, RegistryError, resource_key, invalid_cleanup, receipt_unknown,
  receipt_not_exact, reconciliation_not_exact,
}
use ai_macos.Registry.Cleanup.{prepare_cleanup, commit}

unfoldable pub apply_cleanup :
    Host
    → ℕ
    → Registry
    → String
    → List Handle
    → CleanupOutcome
    → Result RegistryError (Registry × Option Receipt)
apply_cleanup host now reg operation_id handles cleanup = do
  prepared ← prepare_cleanup host now active reg operation_id handles cleanup
  done ← commit prepared.0 prepared.1
  ok (done.0, prepared.1.receipt)

abbrev is_complete_owned : CleanupOutcome → Bool
is_complete_owned (owned complete resources reason) = true
is_complete_owned _ = false

-- `reconcileCleanup`: a late cleanup of quarantined resources has to be complete.
unfoldable pub reconcile_cleanup :
    Host
    → ℕ
    → Registry
    → String
    → List Handle
    → CleanupOutcome
    → Result RegistryError (Registry × Option Receipt)
reconcile_cleanup host now reg operation_id handles cleanup = do
  reject_if (negate (cleanup_is_valid cleanup)) invalid_cleanup
  reject_if (negate (is_complete_owned cleanup) || negate (cleanup_covers handles cleanup))
      reconciliation_not_exact
  prepared ← prepare_cleanup host now quarantined reg operation_id handles cleanup
  done ← commit prepared.0 prepared.1
  ok (done.0, prepared.1.receipt)

-- The slot of a handle, marked as quarantined under a new object.
unfoldable pub quarantine_slot : Registry → Handle → Registry
quarantine_slot reg h = record reg {
  slots =
      Dict.set (resource_key h.resource)
        (record { issued = h; current = record h { state = quarantined }; object = reg.objects })
        reg.slots;
  objects = reg.objects + 1;
}

unfoldable pub quarantine_all : Registry → List Handle → Registry
unfolding quarantine_slot
quarantine_all reg [] = reg
quarantine_all reg (h ∷ rest) = quarantine_all (quarantine_slot reg h) rest

-- The handles that were issued to an operation and hold a slot.
unfoldable pub issued_to : String → Dict String Slot → List Handle
issued_to operation_id slots =
    select (λ h. h.operation_id == operation_id) (map (λ (s : Slot). s.issued) (values slots))

abbrev quarantine_outcome : List Handle → CleanupOutcome
quarantine_outcome [] = unowned
quarantine_outcome (h ∷ rest) =
    owned unknown
      (map (λ x. record { handle = x; outcome = TerminalOutcome.quarantined }) (h ∷ rest))
      (some "operation outcome или cleanup не подтверждены")

-- `quarantine`: the slots are marked before the outcome is parsed, which may throw.
unfoldable pub quarantine : Registry → String → Registry × Result RegistryError CleanupOutcome
unfolding quarantine_all issued_to
quarantine reg operation_id =
    let handles = issued_to operation_id reg.slots in
    let outcome = quarantine_outcome handles in
    (
      quarantine_all reg handles,
      if cleanup_is_valid outcome then ok outcome else err invalid_cleanup,
    )

unfoldable pub verify : Registry → Receipt → List Handle → Result RegistryError (Unit {0})
verify reg receipt handles = do
  stored ← or_throw (Dict.get receipt.receipt_id reg.receipts) receipt_unknown
  reject_if (negate (stored == receipt)) receipt_unknown
  reject_if
      (negate (length handles == length receipt.leases)
        || any
            (λ (h : Handle). negate (
              any
                (λ (l : Lease).
                  (l.lease_id == h.lease_id) && (l.lease_generation == h.lease_generation))
                receipt.leases))
            handles)
      receipt_not_exact

abbrev currents : Dict String Slot → List Handle
currents slots = map (λ (s : Slot). s.current) (values slots)

unfoldable pub handles_for_operation : Registry → String → List Handle
handles_for_operation reg operation_id =
    select (λ h. h.operation_id == operation_id) (currents reg.slots)

unfoldable pub handle_by_lease_id : Registry → String → Option Handle
handle_by_lease_id reg lease_id = elim (find (λ h. h.lease_id == lease_id) (currents reg.slots)) [
  | some h ↦ some h
  | none ↦ elim (Dict.get lease_id reg.tombstones) [ none ↦ none | some t ↦ some t.current ]
]

unfoldable pub cleanup_receipt_by_lease_id : Registry → String → Option Receipt
cleanup_receipt_by_lease_id reg lease_id = elim (Dict.get lease_id reg.tombstones) [
  | none ↦ none
  | some t ↦ t.receipt
]

unfoldable pub quarantined_count : Registry → ℕ
quarantined_count reg = length (select (λ h. h.state == quarantined) (currents reg.slots))

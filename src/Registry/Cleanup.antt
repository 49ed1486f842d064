-- ===== src/Registry/Cleanup.antt =====
-- The cleanup half of runtime/src/resources.ts: a cleanup is prepared against the slots and
-- committed later; receipts and tombstones record what was released.
use ai_macos.Base.{
  ℕ, String, Bool, true, false, ◌&&◌, ◌||◌, ◌+◌, Option, none, some, List, [], ◌∷◌, map, ◌==◌,
  nat_eq, string_eq, negate, length, repeats, leb, Result, ok, ◌>>=◌, ◌>>◌, reject_if, or_throw,
  if◌then◌else◌,
}
use ai_macos.Base.Dict
use ai_macos.Base.Dict.{Dict, values}
use ai_macos.Resource.{
  Handle, HandleState, revoked, quarantined, handle_eq, handle_state_eq, CleanupOutcome, unowned,
  owned, pending, CleanupResource, complete, TerminalOutcome, released, Lease, Receipt, receipt_eq,
  cleanup_is_valid, cleanup_covers, is_owned,
}
use ai_macos.Registry.{
  Host, Slot, Registry, RegistryError, resource_key, invalid_cleanup, cleanup_is_pending,
  cleanup_not_exact, resources_lost, foreign_resource, changed_during_staging, slot_vanished,
  invalid_receipt,
}

-- An element of `planned`; `object` is the identity of `slot.current` when it was planned.
pub record Planned : Type 0 where
  pub resource : CleanupResource
  pub key : String
  pub stored : Handle
  pub object : ℕ

-- What `prepareCleanup` returns, with the variables that its `commit` closes over.
pub record Staged : Type 0 where
  pub receipt : Option Receipt
  pub planned : List Planned
  pub committed : Bool

abbrev pub leases_of : List Handle → List Lease
leases_of = map λ h. record { lease_id = h.lease_id; lease_generation = h.lease_generation }

abbrev pub owned_resources : CleanupOutcome → List CleanupResource
owned_resources (owned state resources reason) = resources
owned_resources _ = []

abbrev pub is_complete_cleanup : CleanupOutcome → Bool
is_complete_cleanup unowned = true
is_complete_cleanup (owned complete resources reason) = true
is_complete_cleanup _ = false

abbrev is_pending_cleanup : CleanupOutcome → Bool
is_pending_cleanup (pending hs) = true
is_pending_cleanup _ = false

-- The refinements of `cleanupAuthorityReceiptSchema`.
unfoldable pub receipt_is_valid : Receipt → Bool
receipt_is_valid r =
    leb (length r.leases) 64 && negate (repeats (map (λ (l : Lease). l.lease_id) r.leases))

-- `#makeReceipt`
unfoldable pub new_receipt : Host → ℕ → ℕ → String → List Handle → Receipt
new_receipt host drawn now operation_id handles = record {
  receipt_id = host.next_id "cleanup-receipt" drawn;
  authority_ref = host.authority_ref (record {
    operation_id = operation_id;
    generation = host.generation;
    leases = leases_of handles;
  });
  operation_id = operation_id;
  generation = host.generation;
  issued_at = now;
  leases = leases_of handles;
}

-- One element of `planned`, or the refusal of a resource that is not the operation's.
unfoldable pub plan_resource :
    Dict String Slot → HandleState → String → CleanupResource → Result RegistryError Planned
plan_resource slots from operation_id resource = do
  let key = resource_key resource.handle.resource
  slot ← or_throw (Dict.get key slots) foreign_resource
  reject_if
      (negate (slot.current.state == from)
        || negate (slot.issued.operation_id == operation_id)
        || negate (slot.issued == resource.handle))
      foreign_resource
  ok (record { resource = resource; key = key; stored = slot.issued; object = slot.object })

unfoldable pub plan :
    Dict String Slot
    → HandleState
    → String
    → List CleanupResource
    → Result RegistryError (List Planned)
unfolding plan_resource
plan slots from operation_id [] = ok []
plan slots from operation_id (r ∷ rest) =
    let later = plan slots from operation_id rest in
    do first ← plan_resource slots from operation_id r; others ← later; ok (first ∷ others)

abbrev is_empty : List Handle → Bool
is_empty [] = true
is_empty _ = false

-- The end of `prepareCleanup`: only a complete cleanup gets a receipt.
unfoldable pub stage :
    Host
    → ℕ
    → Registry
    → String
    → List Handle
    → List Planned
    → Bool
    → Result RegistryError (Registry × Staged)
unfolding new_receipt receipt_is_valid
stage host now reg operation_id handles planned false =
    ok (reg, record { receipt = none; planned = planned; committed = false })
stage host now reg operation_id handles planned true = do
  let receipt = new_receipt host reg.drawn now operation_id handles
  reject_if (negate (receipt_is_valid receipt)) invalid_receipt
  ok (
    record reg { drawn = reg.drawn + 1 },
    record { receipt = some receipt; planned = planned; committed = false },
  )

-- `prepareCleanup`; drawing the receipt's identifier is its only effect on the registry.
unfoldable pub prepare_cleanup :
    Host
    → ℕ
    → HandleState
    → Registry
    → String
    → List Handle
    → CleanupOutcome
    → Result RegistryError (Registry × Staged)
unfolding plan stage
prepare_cleanup host now from reg operation_id handles cleanup = do
  reject_if (negate (cleanup_is_valid cleanup)) invalid_cleanup
  reject_if (is_pending_cleanup cleanup) cleanup_is_pending
  reject_if (negate (cleanup_covers handles cleanup)) cleanup_not_exact
  reject_if (negate (is_empty handles) && negate (is_owned cleanup)) resources_lost
  planned ← plan reg.slots from operation_id (owned_resources cleanup)
  stage host now reg operation_id handles planned (is_complete_cleanup cleanup)

-- The first loop of `commit`.
unfoldable pub check_unchanged : Dict String Slot → List Planned → Result RegistryError (Unit {0})
check_unchanged slots [] = ok tt
check_unchanged slots (p ∷ rest) =
    let later = check_unchanged slots rest in
    do
      slot ← or_throw (Dict.get p.key slots) changed_during_staging
      reject_if (negate (slot.object == p.object)) changed_during_staging
      later

-- The body of the second loop of `commit`: a released resource leaves a tombstone, any other is
-- marked under a new object.
abbrev pub free_slot : Option Receipt → Registry → Planned → Registry
free_slot receipt reg p = record reg {
  slots = Dict.delete p.key reg.slots;
  tombstones =
      Dict.set p.stored.lease_id
        (record {
          issued = p.stored;
          current = record p.stored { state = revoked };
          receipt = receipt;
        })
        reg.tombstones;
}

abbrev pub mark_slot : Registry → Planned → Slot → Registry
mark_slot reg p slot = record reg {
  slots =
      Dict.set p.key
        (record {
          issued = slot.issued;
          current = record slot.current { state = quarantined };
          object = reg.objects;
        })
        reg.slots;
  objects = reg.objects + 1;
}

unfoldable pub finish : Option Receipt → Registry → Planned → Result RegistryError Registry
finish receipt reg p = elim p.resource.outcome [
  | released ↦ ok (free_slot receipt reg p)
  | TerminalOutcome.quarantined ↦ do
    slot ← or_throw (Dict.get p.key reg.slots) slot_vanished
    ok (mark_slot reg p slot)
]

unfoldable pub finish_all : Option Receipt → Registry → List Planned → Result RegistryError Registry
unfolding finish
finish_all receipt reg [] = ok reg
finish_all receipt reg (p ∷ rest) = do next ← finish receipt reg p; finish_all receipt next rest

abbrev pub record_receipt : Option Receipt → Dict String Receipt → Dict String Receipt
record_receipt none receipts = receipts
record_receipt (some r) receipts = Dict.set r.receipt_id r receipts

-- `commit` of what `prepareCleanup` returned; a second call does nothing.
unfoldable pub commit : Registry → Staged → Result RegistryError (Registry × Staged)
unfolding check_unchanged finish_all
commit reg staged =
    let fresh = (do
      check_unchanged reg.slots staged.planned
      next ←
          finish_all staged.receipt
            (record reg { receipts = record_receipt staged.receipt reg.receipts }) staged.planned
      ok (next, record staged { committed = true })) in
    if staged.committed then ok (reg, staged) else fresh

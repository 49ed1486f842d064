-- ===== src/Registry.antt =====
-- runtime/src/resources.ts: `ResourceRegistry`, which leases resources to operations and takes them
-- back by exact cleanup. A method returns the new registry or throws and changes nothing; what an
-- object's identity decides (`!==` on `slot.current`) is decided by the number of the object.
pub mod Keys
pub mod Acquire
pub mod Grants
pub mod Invariant
pub mod Cleanup
pub mod Commit
pub mod Staging
pub mod Release
pub mod Reuse
pub mod Receipts
pub mod Interrupt
pub mod Mutation
mod Tests
pub mod Authority
pub mod Preserve
pub mod Quarantine
pub mod Requirements
pub mod Methods
use Prim.Native.Nat.{Ordering}
use ai_macos.Base.{
  ℕ, String, Bool, true, false, ◌&&◌, ◌||◌, ◌+◌, ◌*◌, Option, none, some, List, [], ◌∷◌, map, Eq,
  ◌==◌, nat_eq, string_eq, ltb, leb, negate, length, every, any, find, select, repeats, concat,
  Result, ok, err, ◌>>=◌, ◌>>◌, reject_if, or_throw, if◌then◌else◌,
}
use ai_macos.Base.Dict
use ai_macos.Base.Dict.{Dict, values}
use ai_macos.Identity.{Generation}
use ai_macos.Resource.{
  ResourceKind, desktop_input, clipboard, cdp_target, browser_trace, adb_device, capture_stream,
  ResourceRef, Handle, HandleState, active, revoked, quarantined, handle_eq, handle_state_eq,
  CleanupOutcome, unowned, owned, pending, CleanupResource, CleanupState, complete, unknown,
  TerminalOutcome, released, Lease, Receipt, receipt_eq, cleanup_is_valid, cleanup_covers, is_owned,
}
use ai_macos.Operation.{ClientSession}

pub data RegistryError : Type 0 where
  duplicate_request is_quarantined not_issued not_authorized not_owner : RegistryError
  occupied_by : (operation_id : String) → RegistryError
  invalid_cleanup cleanup_is_pending cleanup_not_exact resources_lost : RegistryError
  foreign_resource changed_during_staging slot_vanished invalid_receipt : RegistryError
  receipt_unknown receipt_not_exact reconciliation_not_exact : RegistryError

-- The payload that `hmacSha256` seals.
pub record Payload : Type 0 where
  pub operation_id : String
  pub generation : Generation
  pub leases : List Lease

-- What the registry is given: its generation, `localeCompare`, the texts that `ids.next(prefix)`
-- draws, by the number of the draw, and the authority text that the secret seals.
pub record Host : Type 0 where
  pub generation : Generation
  pub collate : String → String → Ordering
  pub next_id : String → ℕ → String
  pub authority_ref : Payload → String

pub record Slot : Type 0 where
  pub issued : Handle
  pub current : Handle
  pub object : ℕ

pub record Tombstone : Type 0 where
  pub issued : Handle
  pub current : Handle
  pub receipt : Option Receipt

pub record Registry : Type 0 where
  pub slots : Dict String Slot
  pub receipts : Dict String Receipt
  pub tombstones : Dict String Tombstone
  pub drawn : ℕ
  pub objects : ℕ

abbrev pub empty_registry : Registry
empty_registry = record { slots = []; receipts = []; tombstones = []; drawn = 0; objects = 0 }

unfoldable pub kind_name : ResourceKind → String
kind_name desktop_input = "desktop-input"
kind_name clipboard = "clipboard"
kind_name cdp_target = "cdp-target"
kind_name browser_trace = "browser-trace"
kind_name adb_device = "adb-device"
kind_name capture_stream = "capture-stream"

-- `resourceKey`
unfoldable pub resource_key : ResourceRef → String
unfolding kind_name concat
resource_key r = concat (kind_name r.kind) (concat ":" r.resource_ref)

abbrev pub resource_order : ResourceKind → ℕ
resource_order desktop_input = 0
resource_order clipboard = 1
resource_order cdp_target = 2
resource_order browser_trace = 3
resource_order adb_device = 4
resource_order capture_stream = 5

abbrev is_gt : Ordering → Bool
is_gt Ordering.gt = true
is_gt _ = false

module _ (host : Host) where
  -- The comparison of `sortRuntimeResources`, as "`a` comes after `b`".
  unfoldable pub comes_after : ResourceRef → ResourceRef → Bool
  comes_after a b =
      if resource_order a.kind == resource_order b.kind
      then is_gt (host.collate a.resource_ref b.resource_ref)
      else ltb (resource_order b.kind) (resource_order a.kind)

  -- The stable sort of a list, by insertion.
  unfoldable pub insert_resource : ResourceRef → List ResourceRef → List ResourceRef
  unfolding comes_after
  insert_resource a [] = a ∷ []
  insert_resource a (b ∷ rest) =
      if comes_after a b then b ∷ insert_resource a rest else a ∷ b ∷ rest

  unfoldable pub sort_resources : List ResourceRef → List ResourceRef
  unfolding insert_resource
  sort_resources [] = []
  sort_resources (a ∷ rest) = insert_resource a (sort_resources rest)

  -- The handle of one resource, with two fresh identifiers.
  unfoldable pub new_handle : ClientSession → String → ℕ → ℕ → ResourceRef → Handle
  new_handle session operation_id expires_at drawn resource = record {
    resource = resource;
    lease_id = host.next_id "lease" drawn;
    lease_generation = host.next_id "lease-generation" (drawn + 1);
    operation_id = operation_id;
    client_session_id = session.client_session_id;
    principal_id = session.principal_id;
    generation = host.generation;
    expires_at = expires_at;
    state = active;
  }

  unfoldable pub issue : ClientSession → String → ℕ → ℕ → List ResourceRef → List Handle
  unfolding new_handle
  issue session operation_id expires_at drawn [] = []
  issue session operation_id expires_at drawn (r ∷ rest) =
      new_handle session operation_id expires_at drawn r
      ∷ issue session operation_id expires_at (drawn + 2) rest

-- The loop over `identities` that looks for an occupied slot.
unfoldable pub check_free : Dict String Slot → List String → Result RegistryError (Unit {0})
check_free slots [] = ok tt
check_free slots (key ∷ rest) =
    let later = check_free slots rest in
    elim (Dict.get key slots) [
      | none ↦ later
      | some slot ↦
          if slot.current.state == quarantined
          then err is_quarantined
          else err (occupied_by slot.current.operation_id)
    ]

-- The loop that stores the issued handles: `issued` and `current` are one new object.
unfoldable pub store : List Handle → ℕ → Dict String Slot → Dict String Slot
store [] object slots = slots
store (h ∷ rest) object slots =
    store rest (object + 1) (
      Dict.set (resource_key h.resource) (record { issued = h; current = h; object = object })
        slots)

abbrev pub keys_of : List ResourceRef → List String
keys_of = map resource_key

unfoldable pub acquire :
    Host
    → Registry
    → ClientSession
    → String
    → List ResourceRef
    → ℕ
    → Result RegistryError (Registry × List Handle)
unfolding check_free store issue sort_resources
acquire host reg session operation_id requested expires_at = do
  let canonical = sort_resources host requested
  reject_if (repeats (keys_of canonical)) duplicate_request
  check_free reg.slots (keys_of canonical)
  let handles = issue host session operation_id expires_at reg.drawn canonical
  ok (
    record reg {
      slots = store handles reg.objects reg.slots;
      drawn = reg.drawn + 2 * length handles;
      objects = reg.objects + length handles;
    },
    handles,
  )

-- `ResourceAuthorityRequest`
pub record AuthorityRequest : Type 0 where
  pub handle : Handle
  pub operation_id : String
  pub client_session_id : String
  pub principal_id : String
  pub generation : Generation
  pub now : ℕ

unfoldable pub assert_active : Registry → AuthorityRequest → Result RegistryError (Unit {0})
assert_active reg q = do
  slot ← or_throw (Dict.get (resource_key q.handle.resource) reg.slots) not_issued
  let stored = slot.current
  reject_if (negate (stored == q.handle)) not_issued
  reject_if
      (negate (stored.state == active)
        || negate (stored.operation_id == q.operation_id)
        || negate (stored.client_session_id == q.client_session_id)
        || negate (stored.principal_id == q.principal_id)
        || negate (stored.runtime_epoch == q.generation.runtime_epoch)
        || negate (stored.login_session_id == q.generation.login_session_id)
        || leb stored.expires_at q.now)
      not_authorized

unfoldable pub assert_owned_set : Registry → String → List Handle → Result RegistryError (Unit {0})
assert_owned_set reg operation_id [] = ok tt
assert_owned_set reg operation_id (h ∷ rest) =
    let later = assert_owned_set reg operation_id rest in
    do
      slot ← or_throw (Dict.get (resource_key h.resource) reg.slots) not_owner
      let stored = slot.issued
      reject_if (negate (stored.operation_id == operation_id) || negate (stored == h)) not_owner
      later

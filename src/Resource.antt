-- ===== src/Resource.antt =====
-- shared/src/contracts/resources.ts: resources, leased handles, cleanup outcomes and receipts.
-- Timestamps are milliseconds since the epoch; identifiers are texts.
use ai_macos.Base.{
  ℕ, String, Bool, true, false, ◌&&◌, ◌||◌, Option, none, some, List, [], ◌∷◌, map, leb, negate, Eq,
  ◌==◌, nat_eq, string_eq, length, every, any, repeats, ℕ_discrete, String_discrete,
}
use ai_macos.Identity.{Generation}

pub data ResourceKind : Type 0 where
  desktop_input clipboard cdp_target browser_trace adb_device capture_stream : ResourceKind

pub record ResourceRef : Type 0 where
  pub kind : ResourceKind
  pub resource_ref : String

pub data HandleState : Type 0 where
  active revoked quarantined : HandleState

pub record Handle : Type 0 where
  pub resource : ResourceRef
  pub open resource use *
  pub lease_id : String
  pub lease_generation : String
  pub operation_id : String
  pub client_session_id : String
  pub principal_id : String
  pub generation : Generation
  pub open generation use *
  pub expires_at : ℕ
  pub state : HandleState

pub data CleanupState : Type 0 where
  complete incomplete unknown : CleanupState

-- The `outcome` of a resource of an owned cleanup.
pub data TerminalOutcome : Type 0 where
  released quarantined : TerminalOutcome

pub record CleanupResource : Type 0 where
  pub handle : Handle
  pub outcome : TerminalOutcome

-- `scope: "none"`; `scope: "owned"`; and `scope: "owned", state: "pending"`, all of whose resources
-- are held.
pub data CleanupOutcome : Type 0 where
  unowned : CleanupOutcome
  owned : CleanupState → List CleanupResource → Option String → CleanupOutcome
  pending : List Handle → CleanupOutcome

pub record Lease : Type 0 where
  pub lease_id : String
  pub lease_generation : String

pub record Receipt : Type 0 where
  pub receipt_id : String
  pub authority_ref : String
  pub operation_id : String
  pub generation : Generation
  pub open generation use *
  pub issued_at : ℕ
  pub leases : List Lease

-- `structurallyEqual` on handles and receipts.
unfoldable pub Handle_discrete : Discrete Handle
Handle_discrete = hlevel (String_discrete, ℕ_discrete)

instance abbrev pub handle_eq : Eq Handle
handle_eq = record { decide = Handle_discrete }

unfoldable pub Receipt_discrete : Discrete Receipt
Receipt_discrete = hlevel (String_discrete, ℕ_discrete)

instance abbrev pub receipt_eq : Eq Receipt
receipt_eq = record { decide = Receipt_discrete }

unfoldable pub HandleState_discrete : Discrete HandleState
HandleState_discrete = hlevel

instance abbrev pub handle_state_eq : Eq HandleState
handle_state_eq = record { decide = HandleState_discrete }

abbrev pub is_quarantined : TerminalOutcome → Bool
is_quarantined TerminalOutcome.quarantined = true
is_quarantined released = false

abbrev pub is_complete : CleanupState → Bool
is_complete complete = true
is_complete _ = false

abbrev pub is_some {ℓ} : {A : Type ℓ} → Option A → Bool
is_some none = false
is_some (some a) = true

abbrev pub lease_ids : List Handle → List String
lease_ids = map λ h. h.lease_id

abbrev pub handles_of : List CleanupResource → List Handle
handles_of = map λ r. r.handle

-- The refinements of `cleanupOutcomeSchema`: what `parse` accepts.
unfoldable pub cleanup_is_valid : CleanupOutcome → Bool
cleanup_is_valid unowned = true
cleanup_is_valid (owned state resources reason) =
    let quarantine = any (λ r. is_quarantined r.outcome) resources in
    leb 1 (length resources)
    && leb (length resources) 64
    && negate (repeats (lease_ids (handles_of resources)))
    && negate (is_complete state && quarantine)
    && (is_complete state || quarantine)
    && (is_complete state || is_some reason)
cleanup_is_valid (pending handles) =
    leb 1 (length handles) && leb (length handles) 64 && negate (repeats (lease_ids handles))

-- `cleanup.resources` with the handle of each.
abbrev pub cleanup_handles : CleanupOutcome → List Handle
cleanup_handles unowned = []
cleanup_handles (owned state resources reason) = handles_of resources
cleanup_handles (pending handles) = handles

abbrev pub is_owned : CleanupOutcome → Bool
is_owned unowned = false
is_owned _ = true

-- `cleanupCoversExactHandles`
unfoldable pub cleanup_covers : List Handle → CleanupOutcome → Bool
cleanup_covers [] cleanup = negate (is_owned cleanup)
cleanup_covers (h ∷ hs) cleanup =
    is_owned cleanup
    && (length (cleanup_handles cleanup) == length (h ∷ hs))
    && every (λ x. any (λ y. (y.lease_id == x.lease_id) && (y == x)) (cleanup_handles cleanup))
        (h ∷ hs)

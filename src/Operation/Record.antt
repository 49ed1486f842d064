-- ===== src/Operation/Record.antt =====
-- `operationOutcomeSchema` and `operationRecordSchema` of shared/src/contracts/operations.ts: what
-- a record of the journal holds, and which records `parse` accepts.
use ai_macos.Base.{
  ℕ, String, Bool, true, false, ◌&&◌, ◌||◌, Option, none, some, List, [], Eq, ◌==◌, nat_eq,
  string_eq, leb, negate, length, every, any, repeats, if◌then◌else◌,
}
use ai_macos.Failure.{ContractError, error_is_valid}
use ai_macos.Recovery.{Grant, RecoveryGate, not_authorized, send_authorized, descriptor_is_valid}
use ai_macos.Resource.{
  Handle, CleanupOutcome, unowned, owned, pending, complete, Receipt, lease_ids, cleanup_is_valid,
  cleanup_covers,
}
use ai_macos.Operation.{Context, native, clipboard_context, common, context_is_valid}
use ai_macos.Operation.Transitions.{
  OperationState, OperationState_discrete, operation_state_eq, rejected, completed, cancelled,
  is_terminal,
}

-- `unsent` is the source's "none".
pub data DispatchState : Type 0 where
  unsent attempted partial finished unknown : DispatchState

pub data TargetVerification : Type 0 where
  verified failed unknown : TargetVerification

pub data Interference : Type 0 where
  none_observed observed unknown : Interference

pub data ObservationState : Type 0 where
  available failed stale unavailable : ObservationState

pub data Restoration : Type 0 where
  restored kept_target skipped_external_change failed not_applicable unknown : Restoration

-- `effectOutcomeSchema`: a verified effect has its proofs.
pub data Effect : Type 0 where
  unverified : Effect
  proved : List String → Effect

pub record Outcome : Type 0 where
  pub dispatch : DispatchState
  pub target_verified : TargetVerification
  pub user_interference : Interference
  pub observation : ObservationState
  pub effect : Effect
  pub cleanup : CleanupOutcome
  pub restoration : Restoration
  pub last_checkpoint : Option String
  pub dispatch_attempts : ℕ
  pub ledger_revision : Option ℕ

pub record PayloadReceipt : Type 0 where
  pub key_generation : String
  pub hmac_sha256 : String

pub data Intent : Type 0 where
  read mutation admin : Intent

pub record OperationRecord : Type 0 where
  pub client_session_id : String
  pub principal_id : String
  pub intent : Intent
  pub context : Context
  pub state : OperationState
  pub outcome : Outcome
  pub resources : List Handle
  pub payload_receipt : PayloadReceipt
  pub native_recovery : Option RecoveryGate
  pub registered_at : ℕ
  pub updated_at : ℕ
  pub error : Option ContractError

unfoldable pub DispatchState_discrete : Discrete DispatchState
DispatchState_discrete = hlevel

instance abbrev pub dispatch_state_eq : Eq DispatchState
dispatch_state_eq = record { decide = DispatchState_discrete }

abbrev pub is_cleanup_complete : CleanupOutcome → Bool
is_cleanup_complete unowned = true
is_cleanup_complete (owned complete r reason) = true
is_cleanup_complete _ = false

abbrev pub is_cleanup_pending : CleanupOutcome → Bool
is_cleanup_pending (pending hs) = true
is_cleanup_pending _ = false

abbrev pub is_verified : TargetVerification → Bool
is_verified verified = true
is_verified _ = false

abbrev pub is_proved : Effect → Bool
is_proved unverified = false
is_proved (proved refs) = true

abbrev is_mutation : Intent → Bool
is_mutation mutation = true
is_mutation _ = false

abbrev is_empty : List Handle → Bool
is_empty [] = true
is_empty _ = false

-- The checks of `record.nativeRecovery` against the context.
grant_matches : Grant → Context → Bool
grant_matches g context =
    let c = common context in
    (g.operation_id == c.operation_id)
    && (g.runtime_epoch == c.runtime_epoch)
    && (g.login_session_id == c.login_session_id)

gate_matches : RecoveryGate → Context → Bool
unfolding grant_matches
gate_matches (not_authorized build generation) (native c t g f) = generation == g
gate_matches (send_authorized grant) (native c t g f) =
    (grant.native_generation == g) && grant_matches grant (native c t g f)
gate_matches (not_authorized build generation) (clipboard_context c t) = true
gate_matches (send_authorized grant) (clipboard_context c t) =
    grant_matches grant (clipboard_context c t)
gate_matches gate context = false

unfoldable pub recovery_is_valid : Option RecoveryGate → Context → Bool
unfolding gate_matches
recovery_is_valid none context = true
recovery_is_valid (some gate) context = gate_matches gate context

-- The authority of one resource handle.
unfoldable pub owns_handle : OperationRecord → Handle → Bool
owns_handle r h =
    let c = common r.context in
    (h.operation_id == c.operation_id)
    && (h.client_session_id == r.client_session_id)
    && (h.principal_id == r.principal_id)
    && (h.runtime_epoch == c.runtime_epoch)
    && (h.login_session_id == c.login_session_id)

-- The checks of the state against the outcome.
unfoldable pub state_matches_outcome : OperationRecord → Bool
unfolding OperationState_discrete is_terminal DispatchState_discrete
state_matches_outcome r =
    let o = r.outcome in
    negate ((r.state == rejected) && negate (o.dispatch == unsent))
    && negate ((r.state == cancelled) && negate (is_cleanup_complete o.cleanup))
    && negate (is_terminal r.state && is_cleanup_pending o.cleanup)
    && negate (
        negate (is_terminal r.state)
        && negate (is_empty r.resources)
        && negate (is_cleanup_pending o.cleanup))
    && negate (
        is_mutation r.intent
        && (r.state == completed)
        && is_proved o.effect
        && (negate (is_verified o.target_verified)
            || negate ((o.dispatch == partial) || (o.dispatch == finished))))

abbrev nested_are_valid : OperationRecord → Bool
nested_are_valid r =
    context_is_valid r.context
    && cleanup_is_valid r.outcome.cleanup
    && elim r.native_recovery [
      | some (send_authorized g) ↦ descriptor_is_valid g.descriptor && leb 1 g.journal_revision
      | _ ↦ true
    ]
    && elim r.error [ none ↦ true | some e ↦ error_is_valid e ]
    && elim r.outcome.effect [
      | unverified ↦ true
      | proved refs ↦ leb 1 (length refs) && leb (length refs) 64
    ]

-- What `operationRecordSchema.parse` accepts.
unfoldable pub record_is_valid : OperationRecord → Bool
unfolding recovery_is_valid owns_handle state_matches_outcome
record_is_valid r =
    let c = common r.context in
    nested_are_valid r
    && leb (length r.resources) 16
    && recovery_is_valid r.native_recovery r.context
    && (r.client_session_id == c.client_session_id)
    && (r.principal_id == c.principal_id)
    && leb r.registered_at r.updated_at
    && state_matches_outcome r
    && negate (repeats (lease_ids r.resources))
    && every (owns_handle r) r.resources
    && cleanup_covers r.resources r.outcome.cleanup

-- The comparison of a receipt with an operation, in `operationCanReleaseMutationLease` and in
-- `assertCleanupAdvance` of the journal.
unfoldable pub receipt_correlates : Receipt → OperationRecord → Bool
receipt_correlates receipt r =
    let c = common r.context in
    (receipt.operation_id == c.operation_id)
    && (receipt.runtime_epoch == c.runtime_epoch)
    && (receipt.login_session_id == c.login_session_id)
    && (length receipt.leases == length r.resources)
    && every
        (λ h.
          any (λ l. (l.lease_id == h.lease_id) && (l.lease_generation == h.lease_generation))
            receipt.leases)
        r.resources

-- `operationCanReleaseMutationLease`; `verify` is the cleanup authority's, which throws.
unfoldable pub can_release_mutation_lease :
    (Receipt → List Handle → Bool) → OperationRecord → Receipt → Option Bool
unfolding is_terminal receipt_correlates
can_release_mutation_lease verify r receipt =
    if negate (is_terminal r.state)
    then some false
    else if negate (is_cleanup_complete r.outcome.cleanup)
    then some false
    else if negate (receipt_correlates receipt r)
    then some false
    else if verify receipt r.resources
    then some true
    else none

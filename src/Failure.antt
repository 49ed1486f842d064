-- ===== src/Failure.antt =====
-- shared/src/contracts/errors.ts: the error that an operation record carries.
use ai_macos.Base.{
  String, Bool, true, false, ◌&&◌, ◌||◌, negate, Option, none, some, Eq, ℕ_discrete,
  String_discrete, List, [], ◌∷◌, includes,
}
use ai_macos.Identity.{Target}

pub data ErrorCode : Type 0 where
  invalid_request protocol_version_mismatch backend_version_mismatch unauthorized : ErrorCode
  payload_too_large deadline_exceeded target_stale target_ambiguous : ErrorCode
  inventory_incomplete permission_denied user_interference observation_stale : ErrorCode
  proof_invalid point_not_owned coordinate_space_mismatch space_transition_unavailable : ErrorCode
  operation_in_progress operation_outcome_unknown cleanup_incomplete lease_revoked : ErrorCode
  resource_quarantined unsupported_capability capability_unavailable : ErrorCode
  request_payload_mismatch receipt_expired binary_frame_mismatch cancelled : ErrorCode
  internal_error : ErrorCode

pub data RecoveryAction : Type 0 where
  no_action retry_read_only inspect_health refresh_inventory : RecoveryAction
  capture_new_observation get_operation recover_input request_user_action : RecoveryAction
  apply_compatible_update : RecoveryAction

-- `unsent` is the source's "none", here and in `Operation.DispatchState`.
pub data ProbeDispatch : Type 0 where
  unsent attempted partial finished unknown : ProbeDispatch

pub data ProbeCleanup : Type 0 where
  complete incomplete unknown : ProbeCleanup

pub data ProbeInterference : Type 0 where
  none_observed observed unknown : ProbeInterference

pub data ProbeRestoration : Type 0 where
  not_attempted restored skipped_user_takeover failed unknown : ProbeRestoration

-- `inputReadinessDiagnosticsSchema`; its `probe` and `inputReady` are literals.
pub record InputReadiness : Type 0 where
  pub quarantined : Bool
  pub move_posted : Bool
  pub move_observed : Bool
  pub move_readback_confirmed : Bool
  pub restore_posted : Bool
  pub restore_observed : Bool
  pub restore_readback_confirmed : Bool
  pub dispatch : ProbeDispatch
  pub cleanup : ProbeCleanup
  pub interference : ProbeInterference
  pub restoration : ProbeRestoration
  pub reason : String

abbrev is_observed : ProbeInterference → Bool
is_observed observed = true
is_observed _ = false

abbrev is_takeover : ProbeRestoration → Bool
is_takeover skipped_user_takeover = true
is_takeover _ = false

-- The refinement of the diagnostics: no stage without the stage before it.
unfoldable pub readiness_is_valid : InputReadiness → Bool
readiness_is_valid d =
    (d.move_posted || negate d.move_observed)
    && (d.move_observed || negate d.move_readback_confirmed)
    && (d.move_posted || negate d.restore_posted)
    && (d.restore_posted || negate d.restore_observed)
    && (d.restore_observed || negate d.restore_readback_confirmed)
    && (is_observed d.interference || negate (is_takeover d.restoration))

pub record ErrorContext : Type 0 where
  pub capability_id : Option String
  pub operation_id : Option String
  pub target : Option Target
  pub resource_ref : Option String
  pub checkpoint : Option String
  pub input_readiness : Option InputReadiness

pub record ContractError : Type 0 where
  pub code : ErrorCode
  pub message : String
  pub stage : String
  pub retryable : Bool
  pub replay_allowed : Bool
  pub recovery_action : RecoveryAction
  pub context : Option ErrorContext

unfoldable pub ErrorCode_discrete : Discrete ErrorCode
ErrorCode_discrete = hlevel

instance abbrev pub error_code_eq : Eq ErrorCode
error_code_eq = record { decide = ErrorCode_discrete }

abbrev no_replay_codes : List ErrorCode
no_replay_codes =
    operation_outcome_unknown ∷ cleanup_incomplete ∷ binary_frame_mismatch ∷ user_interference ∷ []

abbrev context_is_valid : Option ErrorContext → Bool
context_is_valid none = true
context_is_valid (some c) = elim c.input_readiness [ none ↦ true | some d ↦ readiness_is_valid d ]

-- The refinement of `contractErrorSchema`.
unfoldable pub error_is_valid : ContractError → Bool
unfolding ErrorCode_discrete readiness_is_valid
error_is_valid e =
    context_is_valid e.context && negate (includes no_replay_codes e.code && e.replay_allowed)

unfoldable pub ContractError_discrete : Discrete ContractError
ContractError_discrete = hlevel (String_discrete, ℕ_discrete)

instance abbrev pub contract_error_eq : Eq ContractError
contract_error_eq = record { decide = ContractError_discrete }

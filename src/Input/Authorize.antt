-- ===== src/Input/Authorize.antt =====
-- `prepareInputAction` of input/src/authorization.ts: what is checked before an input action may be
-- sent to the native host, in the order of the checks, and the error of each.
use ai_macos.Base.{
  ◌&&◌, nat_eq, every, leb, length, ℕ, String, Bool, true, false, ◌||◌, Option, none, some, List,
  [], ◌∷◌, ◌==◌, nat_eq, string_eq, negate, Result, ok, err, ◌>>◌, reject_if,
}
use ai_macos.Identity.{
  Generation, NativeTarget, Target, native_target, DisplayRef, application_bundle, window, surface,
  display, desktop_layout, NativeGeneration, target_eq, same_native_generation,
  target_native_generation,
}
use ai_macos.Failure.{
  ContractError, ErrorCode, RecoveryAction, invalid_request, payload_too_large, deadline_exceeded,
  target_stale, observation_stale, proof_invalid, lease_revoked, cancelled,
}
use ai_macos.Resource.{ResourceRef, ResourceKind, Handle}
use ai_macos.Operation.{ClientSession, CommonContext, ObservationRef}
use ai_macos.Registry.Requirements.{ResourceAuthority, Owner, RequirementError, refused}
use ai_macos.Input.{
  TextHost, Numbers, short_sequence_ms, drag_points, typing_utf16_units, shortcut_steps, PlanError,
  budget_exceeded, Excess,
}
use ai_macos.Input.Pointer.{Point, or_default}
use ai_macos.Input.Budget.{InputAction, hover, click, scroll, drag, text, key, shortcut, InputPlan}

-- What may be caught: an error that carries a valid contract, an abort, or any other error.
pub data Thrown : Type 0 where
  contracted : ContractError → Thrown
  aborted failed : (message : String) → Thrown

-- The native context of the operation, its session and its handles.
pub record InputContext : Type 0 where
  pub session : ClientSession
  pub shared : CommonContext
  pub target : NativeTarget
  pub native_generation : String
  pub resources : List Handle

-- `TargetResolution`
pub record TargetResolution : Type 0 where
  pub target : Target
  pub resolution_id : String
  pub proof_ref : String
  pub inventory_id : String
  pub inventory_revision : ℕ
  pub display_layout_revision : ℕ
  pub native_generation : Option String

-- The `space` of an authorized point
pub data PointSpace : Type 0 where
  macos_screen : DisplayRef → PointSpace
  other_space : PointSpace

-- `AuthorizedObservationPoint`
pub record AuthorizedPoint (N : Type 0) : Type 0 where
  pub authorized : Bool
  pub observation_id : String
  pub image_point : Point N
  pub interaction_target : Target
  pub space : PointSpace
  pub capture_target : Target
  pub destination_point : Point N
  pub ownership_proof_ref : String

pub data Capability : Type 0 where
  input_drag input_pointer input_keyboard : Capability

-- What the action is prepared with: the host's generation and capabilities, the services, and the
-- texts of messages and numbers.
pub record Preparation (N : Type 0) : Type 0 where
  pub generation : Generation
  pub is_ready : Capability → Bool
  pub schema_message : InputAction N → String
  pub checkpoint : String → Result Thrown (Unit {0})
  pub session_active : ClientSession → ℕ → Result Thrown (Unit {0})
  pub resources : ResourceAuthority Thrown
  pub resolve : InputContext → Result Thrown TargetResolution
  pub resolve_point : InputContext → ObservationRef → Point N → Result Thrown (AuthorizedPoint N)
  pub clip : String → String
  pub plan_message : PlanError → String
  pub resource_message : ResourceRef → String
  pub show_index : ℕ → String

-- `PreparedInputAction`
pub record PreparedAction (N : Type 0) : Type 0 where
  pub action : InputAction N
  pub plan : InputPlan N
  pub target : TargetResolution
  pub points : List (AuthorizedPoint N)

-- The `recoveryAction` of a code.
unfoldable pub recovery_of : ErrorCode → RecoveryAction
recovery_of observation_stale = RecoveryAction.capture_new_observation
recovery_of proof_invalid = RecoveryAction.capture_new_observation
recovery_of target_stale = RecoveryAction.refresh_inventory
recovery_of lease_revoked = RecoveryAction.get_operation
recovery_of cancelled = RecoveryAction.get_operation
recovery_of _ = RecoveryAction.no_action

-- `inputBudgetErrorCode`, and the code of any other error of a plan.
unfoldable pub plan_error_code : PlanError → ErrorCode
plan_error_code (budget_exceeded Excess.too_many_units) = payload_too_large
plan_error_code (budget_exceeded Excess.too_many_points) = payload_too_large
plan_error_code (budget_exceeded excess) = deadline_exceeded
plan_error_code _ = invalid_request

abbrev pub capability_of : {N : Type 0} → InputAction N → Capability
capability_of (drag d) = input_drag
capability_of (hover p) = input_pointer
capability_of (click c) = input_pointer
capability_of (scroll s) = input_pointer
capability_of (text t) = input_keyboard
capability_of (key k m) = input_keyboard
capability_of (shortcut s) = input_keyboard

-- `pointerActionPoints`, for the actions that `isPointerAction` accepts.
abbrev pub pointer_points : {N : Type 0} → InputAction N → Option (List (Point N))
pointer_points (hover p) = some (p ∷ [])
pointer_points (click c) = some (c.point ∷ [])
pointer_points (scroll s) = some (s.anchor ∷ [])
pointer_points (drag d) = some d.points
pointer_points _ = none

-- `pointerTargetKinds` and `keyboardTargetKinds`
abbrev pub is_pointer_target : NativeTarget → Bool
is_pointer_target (window r) = true
is_pointer_target (surface r) = true
is_pointer_target (display r) = true
is_pointer_target (desktop_layout r) = true
is_pointer_target _ = false

abbrev pub is_keyboard_target : NativeTarget → Bool
is_keyboard_target (window r) = true
is_keyboard_target (surface r) = true
is_keyboard_target _ = false

abbrev pub own_generation : InputContext → NativeGeneration
own_generation c = record {
  generation = c.shared.generation;
  native_generation = c.native_generation;
}

-- `nativeTargetMatchesGeneration`
unfoldable pub target_matches : Target → InputContext → Bool
target_matches (native_target (application_bundle r)) c = false
target_matches (native_target t) c =
    same_native_generation (target_native_generation t) (own_generation c)
target_matches _ c = false

abbrev pub desktop_input : ResourceRef
desktop_input = record { kind = ResourceKind.desktop_input; resource_ref = "desktop" }

abbrev pub input_owner : InputContext → ℕ → Owner
input_owner c now = record {
  operation_id = c.shared.operation_id;
  client_session_id = c.shared.client_session_id;
  principal_id = c.shared.principal_id;
  generation = c.shared.generation;
  now = now;
}

abbrev is_absent : Option ℕ → Bool
is_absent none = true
is_absent (some n) = false

-- `min(low).max(high)` on the length of a text or a list.
abbrev is_between : (low high : ℕ) → ℕ → Bool
is_between low high n = leb low n && leb n high

abbrev delay_is_valid : Option ℕ → Bool
delay_is_valid none = true
delay_is_valid (some ms) = leb ms short_sequence_ms

abbrev count_is_valid : Option ℕ → Bool
count_is_valid none = true
count_is_valid (some n) = n == 1 || n == 2 || n == 3

abbrev modifiers_are_valid : TextHost → List String → Bool
modifiers_are_valid host names =
    leb (length names) 16 && every (λ name. is_between 1 32 (host.units name)) names

module _ {N : Type 0} (numbers : Numbers N) (host : TextHost) where
  abbrev is_point : Point N → Bool
  is_point q = numbers.is_finite q.x && numbers.is_finite q.y

  -- What `inputActionSchema` accepts; what is left out gets its default from the planner.
  unfoldable pub action_is_valid : InputAction N → Bool
  action_is_valid (hover q) = is_point q
  action_is_valid (click c) = is_point c.point && count_is_valid c.count
  action_is_valid (scroll s) =
      let dx = or_default s.dx numbers.zero_number in
      let dy = or_default s.dy numbers.zero_number in
      is_point s.anchor
      && (numbers.is_finite dx && numbers.is_finite dy)
      && (negate (numbers.is_zero dx) || negate (numbers.is_zero dy))
  action_is_valid (drag d) =
      every is_point d.points
      && is_between 2 drag_points (length d.points)
      && is_between 1 short_sequence_ms d.duration_ms
      && modifiers_are_valid host (or_default d.modifiers [])
  action_is_valid (text t) =
      is_between 1 typing_utf16_units (length t.text)
      && delay_is_valid t.delay_ms
      && is_absent t.chunk_utf16_units
  action_is_valid (key k modifiers) =
      is_between 1 64 (host.units k) && modifiers_are_valid host modifiers
  action_is_valid (shortcut s) =
      is_between 1 shortcut_steps (length s.shortcuts)
      && every (λ x. is_between 1 256 (host.units x)) s.shortcuts
      && delay_is_valid s.delay_ms

module _ {N : Type 0} (p : Preparation N) where
  -- `throwInput`
  unfoldable pub throw_input : Thrown → ErrorCode → String → ContractError
  throw_input (contracted e) code stage = e
  throw_input (aborted message) code stage = record {
    code = cancelled;
    message = p.clip message;
    stage = stage;
    retryable = false;
    replay_allowed = false;
    recovery_action = recovery_of cancelled;
    context = none;
  }
  throw_input (failed message) code stage = record {
    code = code;
    message = p.clip message;
    stage = stage;
    retryable = false;
    replay_allowed = false;
    recovery_action = recovery_of code;
    context = none;
  }

  -- `try … catch (error) { throwInput(error, code, stage) }`
  abbrev pub attempt {ℓ} :
      {A : Type ℓ} → Result Thrown A → ErrorCode → String → Result ContractError A
  attempt (ok a) code stage = ok a
  attempt (err thrown) code stage = err (throw_input thrown code stage)

  abbrev pub fail : String → ErrorCode → String → ContractError
  fail message code stage = throw_input (failed message) code stage

  -- `authorizeAdapterContext`
  unfoldable pub authorize_context : InputContext → ℕ → Result Thrown (Unit {0})
  authorize_context c now = do
    reject_if
        (negate (c.shared.runtime_epoch == p.generation.runtime_epoch)
          || negate (c.shared.login_session_id == p.generation.login_session_id))
        (failed "Operation context принадлежит другой runtime/login generation")
    reject_if
        (negate (c.session.client_session_id == c.shared.client_session_id)
          || negate (c.session.principal_id == c.shared.principal_id)
          || negate (c.session.runtime_epoch == c.shared.runtime_epoch)
          || negate (c.session.login_session_id == c.shared.login_session_id))
        (failed "Runtime client session не совпадает с operation authority")
    p.session_active c.session now

  -- The errors of `requireAuthorizedResourceHandles` as they are caught.
  abbrev pub thrown_of : Result (RequirementError Thrown) (Unit {0}) → Result Thrown (Unit {0})
  thrown_of (ok done) = ok tt
  thrown_of (err (refused thrown)) = err thrown
  thrown_of (err other) = err (failed (p.resource_message desktop_input))

  abbrev pub planned_as : Result PlanError (InputPlan N) → Result ContractError (InputPlan N)
  planned_as (ok plan) = ok plan
  planned_as (err e) = err (fail (p.plan_message e) (plan_error_code e) "input-plan")

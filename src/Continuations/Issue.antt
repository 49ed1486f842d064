-- ===== src/Continuations/Issue.antt =====
-- `issue` of `NativeContinuationRegistry` (runtime/src/continuations.ts) and the schema of the control
-- that it returns. A control that the schema refuses has still drawn its identifiers, so that a call
-- returns the registry on every branch.
use ai_macos.Base.{
  ℕ, String, ◌+◌, ◌-◌, Bool, true, false, ◌&&◌, ◌||◌, min, max, Option, none, some, ◌==◌, nat_eq,
  string_eq, leb, ltb, negate, Result, ok, err, ◌>>=◌, ◌>>◌, reject_if, or_throw,
}
use ai_macos.Base.Dict
use ai_macos.Identity.{FenceToken, fence_eq, fence_matches_generation}
use ai_macos.Resource.{Handle, HandleState}
use ai_macos.Continuations.{
  TaskBinding, Purpose, IssueRequest, CleanupControl, Continuation, IdempotencyKey, Continuations,
  ContinuationHost, Surroundings, ContinuationError, task_key_eq, idempotency_key_eq,
  task_not_confirmed, lease_not_held, release_not_permitted, only_release, deadline_expired,
  invalid_control,
}
use ai_macos.Continuations.Tasks.{NativeOperation, native_operation, task_key, is_none}

-- `continuationIdempotencyKey`
abbrev pub idempotency_key : IssueRequest → IdempotencyKey
idempotency_key request = record {
  operation_id = request.operation_id;
  task_ref = request.task_ref;
  purpose = request.purpose;
  expected_revision = request.expected_revision;
}

-- What `issue` has found before it looks at the clock.
pub record Confirmed : Type 0 where
  pub operation : NativeOperation
  pub binding : TaskBinding
  pub high_water : FenceToken
  pub handle : Handle

abbrev pub is_active : HandleState → Bool
is_active HandleState.active = true
is_active _ = false

abbrev pub is_revoked : HandleState → Bool
is_revoked HandleState.revoked = true
is_revoked _ = false

-- `["active", "quarantined", "revoked"].includes(handle.state)`
abbrev is_held : HandleState → Bool
is_held HandleState.active = true
is_held HandleState.quarantined = true
is_held HandleState.revoked = true

-- The conditions of a purpose.
unfoldable pub check_purpose :
    Surroundings → Purpose → TaskBinding → Handle → Result ContinuationError (Unit {0})
check_purpose around Purpose.release binding handle =
    let is_over = negate (is_none binding.terminal_receipt_ref) in
    reject_if
      (negate (is_active handle.state && is_over)
        && negate
            (is_revoked handle.state && is_over && around.has_cleanup_receipt handle.lease_id))
      release_not_permitted
check_purpose around _ binding handle = reject_if (is_revoked handle.state) only_release

unfoldable pub confirm :
    Surroundings → Continuations → IssueRequest → Result ContinuationError Confirmed
confirm around registry request = do
  operation ← native_operation around request.operation_id
  binding ←
      or_throw (Dict.get (task_key request.operation_id request.task_ref) registry.tasks)
        task_not_confirmed
  high_water ← or_throw around.high_water_fence task_not_confirmed
  reject_if
      (negate (binding.operation_id == request.operation_id)
        || negate (request.expected_revision == binding.status_revision)
        || negate (binding.accepted_fence == operation.fence))
      task_not_confirmed
  handle ← or_throw (around.lookup_handle binding.resource_lease_id) lease_not_held
  reject_if (negate (handle.operation_id == request.operation_id) || negate (is_held handle.state))
      lease_not_held
  check_purpose around request.purpose binding handle
  ok (record { operation = operation; binding = binding; high_water = high_water; handle = handle })

module _ (host : ContinuationHost) where
  -- `requestedDeadline`; a text that is no date has none.
  abbrev pub requested_deadline : ℕ → Option String → Option ℕ
  requested_deadline now none = some (now + 1000)
  requested_deadline now (some text) = host.parse_date text

-- `maximumDeadline`
abbrev pub maximum_deadline : ℕ → Purpose → HandleState → ℕ → ℕ
maximum_deadline now Purpose.result HandleState.active deadline = max (now + 1000) (deadline + 1000)
maximum_deadline now _ _ deadline = now + 1000

-- What `nativeCleanupControlSchema` accepts.
unfoldable pub control_is_valid : CleanupControl → Bool
control_is_valid control =
    fence_matches_generation control.accepted_fence control.native
    && fence_matches_generation control.current_high_water_fence control.native
    && leb control.accepted_fence.counter control.current_high_water_fence.counter
    && ltb control.expected_status_revision 9007199254740992

module _ (host : ContinuationHost) where
  -- `deadlineAt`
  unfoldable pub deadline_of : Surroundings → IssueRequest → Confirmed → Result ContinuationError ℕ
  deadline_of around request c = do
    requested ←
        or_throw (requested_deadline host around.now request.requested_deadline_at) deadline_expired
    reject_if (leb requested around.now) deadline_expired
    ok (
        min requested (
          maximum_deadline around.now request.purpose c.handle.state
            c.operation.shared.deadline_at))

  -- `cleanupRequestId`: the one that the key has, or a new one.
  unfoldable pub cleanup_request_id : Continuations → IdempotencyKey → String × Continuations
  cleanup_request_id registry key = elim (Dict.get key registry.cleanup_ids) [
    | some id ↦ (id, registry)
    | none ↦
        let id = host.next_id "native-cleanup" registry.drawn in
        (
          id,
          record registry {
            cleanup_ids = Dict.set key id registry.cleanup_ids;
            drawn = registry.drawn + 1;
          },
        )
  ]

  abbrev pub control_of :
      Continuations → IssueRequest → Confirmed → ℕ → (cleanup_id : String) → CleanupControl
  control_of registry request c deadline cleanup_id = record {
    purpose = request.purpose;
    request_id = host.next_id "native-cleanup-rpc" registry.drawn;
    cleanup_request_id = cleanup_id;
    operation_id = request.operation_id;
    native = record {
      generation = host.generation;
      native_generation = c.operation.native_generation;
    };
    accepted_fence = c.operation.fence;
    current_high_water_fence = c.high_water;
    deadline_at = deadline;
    expected_status_revision = request.expected_revision;
    expected_drained_evidence_ref = c.binding.drained_evidence_ref;
  }

  -- The part of `issue` that draws identifiers.
  unfoldable pub issue_control :
      ℕ
      → Continuations
      → IssueRequest
      → Confirmed
      → ℕ
      → Result ContinuationError Continuation × Continuations
  issue_control now registry request c deadline =
      let (cleanup_id, kept) = cleanup_request_id registry (idempotency_key request) in
      let control = control_of kept request c deadline cleanup_id in
      let made : Continuation = record {
        aborts_after = deadline - now;
        cleanup_control = control;
      } in
      (
        (do reject_if (negate (control_is_valid control)) invalid_control; ok made),
        record kept { drawn = kept.drawn + 1 },
      )

  -- The checks of `issue`, and the deadline.
  unfoldable pub prepare :
      Surroundings → Continuations → IssueRequest → Result ContinuationError (Confirmed × ℕ)
  prepare around registry request = do
    c ← confirm around registry request
    deadline ← deadline_of around request c
    ok (c, deadline)

  -- `issue`
  unfoldable pub issue :
      Surroundings
      → Continuations
      → IssueRequest
      → Result ContinuationError Continuation × Continuations
  issue around registry request = elim (prepare around registry request) [
    | err thrown ↦ (err thrown, registry)
    | ok (c, deadline) ↦ issue_control around.now registry request c deadline
  ]

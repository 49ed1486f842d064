-- ===== src/Continuations/Tasks.antt =====
-- The operations of `NativeContinuationRegistry` that change a task's binding
-- (runtime/src/continuations.ts). A call returns the new registry or throws and changes nothing.
use ai_macos.Base.{
  String, Bool, true, false, ◌&&◌, ◌||◌, Option, none, some, ◌==◌, nat_eq, string_eq, leb, ltb,
  negate, Result, ok, err, ◌>>=◌, ◌>>◌, reject_if, or_throw, if◌then◌else◌,
}
use ai_macos.Base.Dict
use ai_macos.Identity.{NativeTarget, FenceToken, fence_eq}
use ai_macos.Resource.{CleanupState, is_complete}
use ai_macos.Operation.{CommonContext, Context, native}
use ai_macos.Continuations.{
  TaskBinding, Report, start_report, status_report, terminal_report, capture_task_start,
  capture_task_status, capture_task_terminal, Registration, StatusAdvance, TerminalMark, TaskKey,
  Continuations, Surroundings, ContinuationError, StartFacts, StatusFacts, TerminalFacts,
  task_binding_eq, start_facts_eq, status_facts_eq, task_key_eq, unverified_receipt,
  start_facts_differ, status_facts_differ, terminal_facts_differ, operation_not_found,
  foreign_binding, task_rebound, foreign_status, stale_revision, conflicting_same_revision,
  already_terminal, foreign_terminal, conflicting_terminal, terminal_not_above,
}

-- The native context of an operation.
pub record NativeOperation : Type 0 where
  pub shared : CommonContext
  pub target : NativeTarget
  pub native_generation : String
  pub fence : FenceToken

abbrev pub native_context : Context → Option NativeOperation
native_context (native c t g f) =
    some (record { shared = c; target = t; native_generation = g; fence = f })
native_context _ = none

abbrev pub is_none {ℓ} : {A : Type ℓ} → Option A → Bool
is_none none = true
is_none (some a) = false

-- `#nativeOperation`
unfoldable pub native_operation : Surroundings → String → Result ContinuationError NativeOperation
native_operation around id = do
  operation ← or_throw (around.lookup_operation id) operation_not_found
  or_throw (native_context operation.context) operation_not_found

abbrev pub task_key : String → String → TaskKey
task_key operation task = record { operation_id = operation; task_ref = task }

abbrev starts : Option StartFacts → StartFacts → Bool
starts none facts = false
starts (some reported) facts = reported == facts

abbrev start_of : Report → Option StartFacts
start_of (start_report facts) = some facts
start_of _ = none

abbrev status_of : Report → Option StatusFacts
status_of (status_report facts) = some facts
status_of _ = none

abbrev states : Option StatusFacts → StatusFacts → Bool
states none facts = false
states (some reported) facts = reported == facts

abbrev terminal_of : Report → Option TerminalFacts
terminal_of (terminal_report facts) = some facts
terminal_of _ = none

abbrev is_receipt : Option String → String → Bool
is_receipt none ref = false
is_receipt (some r) ref = r == ref

abbrev ends : Option TerminalFacts → TerminalMark → Bool
ends none request = false
ends (some reported) request =
    (reported.operation_id == request.operation_id)
    && (reported.task_ref == request.task_ref)
    && (reported.accepted_fence == request.accepted_fence)
    && (reported.status_revision == request.status_revision)
    && (reported.drained_evidence_ref == request.drained_evidence_ref)
    && is_receipt reported.terminal_receipt_ref request.terminal_receipt_ref
    && is_complete reported.cleanup
    && reported.drained

-- The binding that `registerAcceptedTask` makes.
abbrev pub new_binding : Registration → TaskBinding
new_binding request = record {
  operation_id = request.facts.operation_id;
  task_ref = request.facts.task_ref;
  resource_lease_id = request.resource_lease_id;
  accepted_fence = request.facts.accepted_fence;
  status_revision = request.facts.status_revision;
  status_evidence_ref = request.facts.status_evidence_ref;
  cleanup = CleanupState.unknown;
  drained = false;
  drained_evidence_ref = request.facts.status_evidence_ref;
  terminal_receipt_ref = none;
}

abbrev differs : Option TaskBinding → TaskBinding → Bool
differs none binding = false
differs (some old) binding = negate (old == binding)

abbrev pub store_binding : Continuations → TaskBinding → Continuations
store_binding registry binding = record registry {
  tasks = Dict.set (task_key binding.operation_id binding.task_ref) binding registry.tasks;
}

-- `#registerTask`
unfoldable pub register_task :
    Surroundings → Continuations → TaskBinding → Result ContinuationError Continuations
register_task around registry binding = do
  operation ← native_operation around binding.operation_id
  handle ← or_throw (around.lookup_handle binding.resource_lease_id) foreign_binding
  reject_if
      (negate (handle.operation_id == binding.operation_id)
        || negate (binding.accepted_fence == operation.fence))
      foreign_binding
  reject_if
      (differs (Dict.get (task_key binding.operation_id binding.task_ref) registry.tasks) binding)
      task_rebound
  ok (store_binding registry binding)

-- `registerAcceptedTask`
unfoldable pub register_accepted_task :
    Surroundings → Continuations → Registration → Result ContinuationError Continuations
register_accepted_task around registry request = do
  report ← or_throw (around.verified_report request.receipt capture_task_start) unverified_receipt
  reject_if (negate (starts (start_of report) request.facts)) start_facts_differ
  register_task around registry (new_binding request)

-- The binding with the facts of a status.
abbrev pub with_status : TaskBinding → StatusFacts → TaskBinding
with_status binding facts = record binding {
  status_revision = facts.status_revision;
  status_evidence_ref = facts.status_evidence_ref;
  cleanup = facts.cleanup;
  drained = facts.drained;
  drained_evidence_ref = facts.status_evidence_ref;
}

-- What `advanceVerifiedStatus` does with a binding of the same fence.
unfoldable pub advance_binding :
    TaskBinding → StatusFacts → Result ContinuationError (Option TaskBinding)
advance_binding binding facts =
    let next = with_status binding facts in
    let repeated = (do reject_if (negate (binding == next)) conflicting_same_revision; ok none) in
    let advanced = (do
      reject_if (negate (is_none binding.terminal_receipt_ref)) already_terminal
      ok (some next)) in
    if ltb facts.status_revision binding.status_revision
    then err stale_revision
    else if facts.status_revision == binding.status_revision
    then repeated
    else advanced

-- `tasks.set(key, next)`, or nothing on an early return.
abbrev pub put : Continuations → TaskKey → Option TaskBinding → Continuations
put registry key none = registry
put registry key (some binding) = record registry { tasks = Dict.set key binding registry.tasks }

-- `advanceVerifiedStatus`
unfoldable pub advance_verified_status :
    Surroundings → Continuations → StatusAdvance → Result ContinuationError Continuations
advance_verified_status around registry request =
    let facts = request.facts in
    let key = task_key facts.operation_id facts.task_ref in
    do
      report ←
          or_throw (around.verified_report request.receipt capture_task_status) unverified_receipt
      reject_if (negate (states (status_of report) facts)) status_facts_differ
      binding ← or_throw (Dict.get key registry.tasks) foreign_status
      reject_if (negate (binding.accepted_fence == facts.accepted_fence)) foreign_status
      next ← advance_binding binding facts
      ok (put registry key next)

-- The binding with its terminal facts.
abbrev pub with_terminal : TaskBinding → TerminalMark → TaskBinding
with_terminal binding request = record binding {
  status_revision = request.status_revision;
  status_evidence_ref = request.drained_evidence_ref;
  cleanup = CleanupState.complete;
  drained = true;
  drained_evidence_ref = request.drained_evidence_ref;
  terminal_receipt_ref = some request.terminal_receipt_ref;
}

-- What `#markTerminal` does with the binding of its key.
unfoldable pub terminate_binding :
    TaskBinding → TerminalMark → Result ContinuationError (Option TaskBinding)
terminate_binding binding request = elim binding.terminal_receipt_ref [
  | some ref ↦ do
    reject_if
        (negate (
          (binding.status_revision == request.status_revision)
          && (binding.drained_evidence_ref == request.drained_evidence_ref)
          && (ref == request.terminal_receipt_ref)))
        conflicting_terminal
    ok none
  | none ↦ do
    reject_if (leb request.status_revision binding.status_revision) terminal_not_above
    ok (some (with_terminal binding request))
]

-- `#markTerminal`
unfoldable pub mark_terminal : Continuations → TerminalMark → Result ContinuationError Continuations
mark_terminal registry request =
    let key = task_key request.operation_id request.task_ref in
    do
      binding ← or_throw (Dict.get key registry.tasks) foreign_terminal
      reject_if
          (negate (binding.operation_id == request.operation_id)
            || negate (binding.accepted_fence == request.accepted_fence))
          foreign_terminal
      next ← terminate_binding binding request
      ok (put registry key next)

-- `markVerifiedTerminal`
unfoldable pub mark_verified_terminal :
    Surroundings → Continuations → TerminalMark → Result ContinuationError Continuations
mark_verified_terminal around registry request = do
  report ←
      or_throw (around.verified_report request.receipt capture_task_terminal) unverified_receipt
  reject_if (negate (ends (terminal_of report) request)) terminal_facts_differ
  mark_terminal registry request

-- ===== src/Continuations/Tests.antt =====
-- Runs of the continuation registry on one task, to which the theorems apply.
use ai_macos.Base.{
  ℕ, ◌+◌, ◌≤◌, ◌<◌, ◌≡◌, refl, true, false, Option, none, some, [], ◌∷◌, string_eq, ok, err,
  String_discrete, ℕ_discrete,
}
use ai_macos.Base.Dict
use ai_macos.Identity.{
  Generation, NativeGeneration, FenceToken, display, FenceToken_discrete, fence_matches_generation,
  same_native_generation, same_runtime_generation,
}
use ai_macos.Resource.{Handle, HandleState, ResourceKind, CleanupState, unowned}
use ai_macos.Operation.{native}
use ai_macos.Operation.Transitions.{OperationState}
use ai_macos.Operation.Record.{
  OperationRecord, Intent, DispatchState, TargetVerification, Interference, ObservationState,
  Effect, Restoration,
}
use ai_macos.Continuations.{
  task_key_eq, TaskBinding, TaskKey_discrete, IdempotencyKey_discrete, StartFacts_discrete,
  StatusFacts_discrete, FactKind, EvidenceReceipt, StartFacts, StatusFacts, TerminalFacts, Report,
  Registration, TerminalMark, Purpose, IssueRequest, Continuation, Continuations, ContinuationHost,
  Surroundings, stale_revision, release_not_permitted,
}
use ai_macos.Continuations.Tasks.{
  register_accepted_task, register_task, native_operation, advance_verified_status, advance_binding,
  mark_verified_terminal, mark_terminal, terminate_binding, task_key,
}
use ai_macos.Continuations.Issue.{
  Confirmed, issue, issue_control, prepare, confirm, check_purpose, deadline_of, cleanup_request_id,
  control_is_valid, maximum_deadline, requested_deadline, idempotency_key,
}
use ai_macos.Continuations.Facts.{Follows}
use ai_macos.Continuations.Writes.{IsSound}
use ai_macos.Continuations.History.{Step, Calls, tasks_keep, Calls-IsSound}
use ai_macos.Continuations.Checked.{IsConfirmed}
use ai_macos.Continuations.Requests.{issue-IsConfirmed, issue-deadline, issue-again}

abbrev generation : Generation
generation = record { runtime_epoch = "epoch"; login_session_id = "login" }

abbrev own : NativeGeneration
own = record { generation = generation; native_generation = "native" }

abbrev fence : FenceToken
fence = record { native = own; counter = 3 }

abbrev operation : OperationRecord
operation = record {
  client_session_id = "client";
  principal_id = "principal";
  intent = Intent.read;
  context =
      native
        (record {
          operation_id = "op";
          client_request_id = "request";
          client_session_id = "client";
          principal_id = "principal";
          generation = generation;
          inventory_id = "inventory";
          inventory_revision = 1;
          observation_ref = none;
          deadline_at = 90000;
        })
        (display (record { native = own; display_ref = "display"; display_layout_revision = 1 }))
        "native" fence;
  state = OperationState.registered;
  outcome = record {
    dispatch = DispatchState.unsent;
    target_verified = TargetVerification.unknown;
    user_interference = Interference.unknown;
    observation = ObservationState.unavailable;
    effect = Effect.unverified;
    cleanup = unowned;
    restoration = Restoration.not_applicable;
    last_checkpoint = none;
    dispatch_attempts = 0;
    ledger_revision = none;
  };
  resources = [];
  payload_receipt = record { key_generation = "key"; hmac_sha256 = "hmac" };
  native_recovery = none;
  registered_at = 10;
  updated_at = 10;
  error = none;
}

abbrev handle : Handle
handle = record {
  resource = record { kind = ResourceKind.capture_stream; resource_ref = "stream" };
  lease_id = "lease";
  lease_generation = "lease-generation";
  operation_id = "op";
  client_session_id = "client";
  principal_id = "principal";
  generation = generation;
  expires_at = 99000;
  state = HandleState.active;
}

abbrev receipt : FactKind → EvidenceReceipt
receipt kind = record {
  evidence_receipt_id = "receipt";
  adapter_instance_ref = "adapter";
  backend_build_id = "build";
  native = own;
  source_response_ref = "response";
  source_response_sha256 = "sha";
  inventory_id = "inventory";
  inventory_revision = 1;
  display_layout_revision = 1;
  observed_at = 11;
  fact_kind = kind;
  fact_sha256 = "sha";
  issued_at = 12;
}

abbrev start_facts : StartFacts
start_facts = record {
  operation_id = "op";
  task_ref = "task";
  accepted_fence = fence;
  status_revision = 1;
  status_evidence_ref = "evidence-1";
}

abbrev status_facts : ℕ → StatusFacts
status_facts revision = record {
  operation_id = "op";
  task_ref = "task";
  accepted_fence = fence;
  status_revision = revision;
  status_evidence_ref = "evidence-2";
  cleanup = CleanupState.incomplete;
  drained = false;
}

abbrev terminal_facts : TerminalFacts
terminal_facts = record {
  operation_id = "op";
  task_ref = "task";
  accepted_fence = fence;
  status_revision = 3;
  drained_evidence_ref = "evidence-3";
  terminal_receipt_ref = some "terminal";
  cleanup = CleanupState.complete;
  drained = true;
}

abbrev reports : ℕ → EvidenceReceipt → FactKind → Option Report
reports revision r FactKind.capture_task_start = some (Report.start_report start_facts)
reports revision r FactKind.capture_task_status =
    some (Report.status_report (status_facts revision))
reports revision r FactKind.capture_task_terminal = some (Report.terminal_report terminal_facts)
reports revision r _ = none

abbrev around : ℕ → Surroundings
around revision = record {
  lookup_operation = λ id. some operation;
  lookup_handle = λ id. some handle;
  has_cleanup_receipt = λ id. false;
  high_water_fence = some (record { native = own; counter = 5 });
  verified_report = reports revision;
  now = 50000;
}

abbrev host : ContinuationHost
host = record {
  generation = generation;
  next_id = λ prefix n. prefix;
  parse_date = λ text. some 50400;
}

abbrev empty : Continuations
empty = record { tasks = []; cleanup_ids = []; drawn = 0 }

abbrev registration : Registration
registration = record {
  receipt = receipt FactKind.capture_task_start;
  facts = start_facts;
  resource_lease_id = "lease";
}

abbrev bound : TaskBinding
bound = record {
  operation_id = "op";
  task_ref = "task";
  resource_lease_id = "lease";
  accepted_fence = fence;
  status_revision = 1;
  status_evidence_ref = "evidence-1";
  cleanup = CleanupState.unknown;
  drained = false;
  drained_evidence_ref = "evidence-1";
  terminal_receipt_ref = none;
}

abbrev running : TaskBinding
running = record bound {
  status_revision = 2;
  status_evidence_ref = "evidence-2";
  cleanup = CleanupState.incomplete;
  drained_evidence_ref = "evidence-2";
}

abbrev over : TaskBinding
over = record running {
  status_revision = 3;
  status_evidence_ref = "evidence-3";
  cleanup = CleanupState.complete;
  drained = true;
  drained_evidence_ref = "evidence-3";
  terminal_receipt_ref = some "terminal";
}

abbrev holding : TaskBinding → Continuations
holding b = record { tasks = (task_key "op" "task", b) ∷ []; cleanup_ids = []; drawn = 0 }

registers : register_accepted_task (around 2) empty registration ≡ ok (holding bound)
unfolding register_accepted_task register_task native_operation Dict.get Dict.set String_discrete
    ℕ_discrete FenceToken_discrete StartFacts_discrete
registers = refl

advances :
    advance_verified_status
      (around 2)
      (holding bound)
      (record { receipt = receipt FactKind.capture_task_status; facts = status_facts 2 })
    ≡ ok (holding running)
unfolding advance_verified_status advance_binding Dict.get Dict.set String_discrete ℕ_discrete
    FenceToken_discrete StatusFacts_discrete TaskKey_discrete
advances = refl

-- A status of an earlier revision is refused.
goes_back :
    advance_verified_status
      (around 1)
      (holding running)
      (record { receipt = receipt FactKind.capture_task_status; facts = status_facts 1 })
    ≡ err stale_revision
unfolding advance_verified_status advance_binding Dict.get Dict.set String_discrete ℕ_discrete
    FenceToken_discrete StatusFacts_discrete TaskKey_discrete
goes_back = refl

abbrev mark : TerminalMark
mark = record {
  receipt = receipt FactKind.capture_task_terminal;
  operation_id = "op";
  task_ref = "task";
  accepted_fence = fence;
  status_revision = 3;
  drained_evidence_ref = "evidence-3";
  terminal_receipt_ref = "terminal";
}

ends : mark_verified_terminal (around 2) (holding running) mark ≡ ok (holding over)
unfolding mark_verified_terminal mark_terminal terminate_binding Dict.get Dict.set String_discrete
    ℕ_discrete FenceToken_discrete TaskKey_discrete
ends = refl

abbrev request : Purpose → ℕ → IssueRequest
request purpose revision = record {
  operation_id = "op";
  task_ref = "task";
  purpose = purpose;
  expected_revision = revision;
  requested_deadline_at = some "2026-01-01T00:00:50.400Z";
}

abbrev issued_from : Continuations → ℕ → Continuations
issued_from registry drawn = record {
  tasks = registry.tasks;
  cleanup_ids = (idempotency_key (request Purpose.release 3), "native-cleanup") ∷ [];
  drawn = drawn;
}

abbrev made : Continuation
made = record {
  aborts_after = 400;
  cleanup_control = record {
    purpose = Purpose.release;
    request_id = "native-cleanup-rpc";
    cleanup_request_id = "native-cleanup";
    operation_id = "op";
    native = own;
    accepted_fence = fence;
    current_high_water_fence = record { native = own; counter = 5 };
    deadline_at = 50400;
    expected_status_revision = 3;
    expected_drained_evidence_ref = "evidence-3";
  };
}

issues :
    issue host (around 2) (holding over) (request Purpose.release 3)
    ≡ (ok made, issued_from (holding over) 2)
unfolding issue issue_control prepare confirm check_purpose deadline_of cleanup_request_id
    control_is_valid native_operation Dict.get Dict.set String_discrete ℕ_discrete
    FenceToken_discrete TaskKey_discrete fence_matches_generation same_native_generation
    same_runtime_generation
issues = refl

issues_again :
    issue host (around 2) (issued_from (holding over) 2) (request Purpose.release 3)
    ≡ (ok made, issued_from (holding over) 3)
unfolding issue issue_control prepare confirm check_purpose deadline_of cleanup_request_id
    control_is_valid native_operation Dict.get Dict.set String_discrete ℕ_discrete
    FenceToken_discrete TaskKey_discrete IdempotencyKey_discrete fence_matches_generation
    same_native_generation same_runtime_generation
issues_again = refl

-- A running task is not released, and no identifier is drawn.
releases_running :
    issue host (around 2) (holding running) (request Purpose.release 2)
    ≡ (err release_not_permitted, holding running)
unfolding issue prepare confirm check_purpose native_operation Dict.get String_discrete ℕ_discrete
    FenceToken_discrete TaskKey_discrete
releases_running = refl

bound_found : Dict.get (task_key "op" "task") (holding bound).tasks ≡ some bound
unfolding Dict.get TaskKey_discrete String_discrete
bound_found = refl

abbrev calls : Calls host (holding bound) (holding over)
calls =
    Calls.onward
      (Calls.onward Calls.none_yet (
        Step.advanced (around 2)
          (record { receipt = receipt FactKind.capture_task_status; facts = status_facts 2 })
          advances))
      (Step.ended (around 2) mark ends)

tasks_keep_example :
    (new : TaskBinding) × (Dict.get (task_key "op" "task") (holding over).tasks ≡ some new)
    × Follows bound new
tasks_keep_example = tasks_keep host (task_key "op" "task") bound calls bound_found

empty-IsSound : IsSound empty
unfolding Dict.get
empty-IsSound = record { fits = λ key b found. cc }

Calls-IsSound_example : IsSound (holding bound)
Calls-IsSound_example =
    Calls-IsSound host empty-IsSound
      (Calls.onward Calls.none_yet (Step.registered (around 2) registration registers))

issue-IsConfirmed_example :
    IsConfirmed (around 2) (holding over) (request Purpose.release 3) made.cleanup_control
issue-IsConfirmed_example =
    issue-IsConfirmed host (around 2) (holding over) (request Purpose.release 3) issues

issue-deadline_example :
    (c : Confirmed) × (confirm (around 2) (holding over) (request Purpose.release 3) ≡ ok c)
    × (50000 < 50400)
    × (50400 ≤ maximum_deadline 50000 Purpose.release c.handle.state c.operation.shared.deadline_at)
    × ((requested : ℕ)
        → requested_deadline host 50000 (some "2026-01-01T00:00:50.400Z") ≡ some requested
        → 50400 ≤ requested)
    × (50000 + 400 ≡ 50400)
issue-deadline_example =
    issue-deadline host (around 2) (holding over) (request Purpose.release 3) issues

issue-again_example : made.cleanup_control.cleanup_request_id ≡ "native-cleanup"
issue-again_example =
    issue-again host (around 2) (around 2) (request Purpose.release 3) (request Purpose.release 3)
      (holding over) (issued_from (holding over) 2) refl issues Calls.none_yet issues_again

-- ===== src/Continuations.antt =====
-- runtime/src/continuations.ts: `NativeContinuationRegistry`, which binds the capture tasks of the
-- native host to operations and issues the controls that may still reach a task after its operation
-- has lost its authority. The contracts are those of shared/src/contracts/evidence.ts and
-- native-lifecycle.ts. Keys that the source makes by `canonicalJson` are records here.
pub mod Tasks
pub mod Issue
pub mod Facts
pub mod Writes
pub mod History
pub mod Checked
pub mod Requests
mod Tests
use ai_macos.Base.{ℕ, String, Bool, Option, Eq, ℕ_discrete, String_discrete}
use ai_macos.Base.Dict.{Dict}
use ai_macos.Identity.{Generation, NativeGeneration, FenceToken}
use ai_macos.Resource.{Handle, CleanupState}
use ai_macos.Operation.Record.{OperationRecord}

-- `NativeTaskBinding`
pub record TaskBinding : Type 0 where
  pub operation_id : String
  pub task_ref : String
  pub resource_lease_id : String
  pub accepted_fence : FenceToken
  pub status_revision : ℕ
  pub status_evidence_ref : String
  pub cleanup : CleanupState
  pub drained : Bool
  pub drained_evidence_ref : String
  pub terminal_receipt_ref : Option String

-- The `factKind` of a receipt
pub data FactKind : Type 0 where
  application_bundle_identity native_target_identity target_resolution : FactKind
  window_cg_ax_correlation frame point_hit : FactKind
  capture_task_start capture_task_terminal capture_task_status : FactKind

-- `nativeEvidenceCommonShape` and what else a receipt has: `verifiedNativeEvidenceReceiptSchema`
pub record EvidenceReceipt : Type 0 where
  pub evidence_receipt_id : String
  pub adapter_instance_ref : String
  pub backend_build_id : String
  pub native : NativeGeneration
  pub source_response_ref : String
  pub source_response_sha256 : String
  pub inventory_id : String
  pub inventory_revision : ℕ
  pub display_layout_revision : ℕ
  pub observed_at : ℕ
  pub fact_kind : FactKind
  pub fact_sha256 : String
  pub issued_at : ℕ

-- The facts of a report of kind "capture-task-start".
pub record StartFacts : Type 0 where
  pub operation_id : String
  pub task_ref : String
  pub accepted_fence : FenceToken
  pub status_revision : ℕ
  pub status_evidence_ref : String

-- The facts of a report of kind "capture-task-status".
pub record StatusFacts : Type 0 where
  pub operation_id : String
  pub task_ref : String
  pub accepted_fence : FenceToken
  pub status_revision : ℕ
  pub status_evidence_ref : String
  pub cleanup : CleanupState
  pub drained : Bool

-- The facts of a report of kind "capture-task-terminal".
pub record TerminalFacts : Type 0 where
  pub operation_id : String
  pub task_ref : String
  pub accepted_fence : FenceToken
  pub status_revision : ℕ
  pub drained_evidence_ref : String
  pub terminal_receipt_ref : Option String
  pub cleanup : CleanupState
  pub drained : Bool

-- What `verifiedReport` returns: the reports of capture tasks, and any other report.
pub data Report : Type 0 where
  start_report : StartFacts → Report
  status_report : StatusFacts → Report
  terminal_report : TerminalFacts → Report
  other_report : FactKind → Report

-- The requests of `NativeContinuationRegistrar`
pub record Registration : Type 0 where
  pub receipt : EvidenceReceipt
  pub facts : StartFacts
  pub resource_lease_id : String

pub record StatusAdvance : Type 0 where
  pub receipt : EvidenceReceipt
  pub facts : StatusFacts

pub record TerminalMark : Type 0 where
  pub receipt : EvidenceReceipt
  pub operation_id : String
  pub task_ref : String
  pub accepted_fence : FenceToken
  pub status_revision : ℕ
  pub drained_evidence_ref : String
  pub terminal_receipt_ref : String

-- The `purpose` of a control
pub data Purpose : Type 0 where
  result status cancel release : Purpose

-- `NativeContinuationIssueRequest`
pub record IssueRequest : Type 0 where
  pub operation_id : String
  pub task_ref : String
  pub purpose : Purpose
  pub expected_revision : ℕ
  pub requested_deadline_at : Option String

-- `nativeCleanupControlSchema`
pub record CleanupControl : Type 0 where
  pub purpose : Purpose
  pub request_id : String
  pub cleanup_request_id : String
  pub operation_id : String
  pub native : NativeGeneration
  pub accepted_fence : FenceToken
  pub current_high_water_fence : FenceToken
  pub deadline_at : ℕ
  pub expected_status_revision : ℕ
  pub expected_drained_evidence_ref : String

-- `NativeContinuation`: the adapter's control aborts after so many milliseconds.
pub record Continuation : Type 0 where
  pub aborts_after : ℕ
  pub cleanup_control : CleanupControl

-- `taskKey` and `continuationIdempotencyKey`
pub record TaskKey : Type 0 where
  pub operation_id : String
  pub task_ref : String

pub record IdempotencyKey : Type 0 where
  pub operation_id : String
  pub task_ref : String
  pub purpose : Purpose
  pub expected_revision : ℕ

-- The maps of the registry, and how many identifiers it has drawn.
pub record Continuations : Type 0 where
  pub tasks : Dict TaskKey TaskBinding
  pub cleanup_ids : Dict IdempotencyKey String
  pub drawn : ℕ

-- What the registry is given once: its generation, the texts that `ids.next(prefix)` returns, and
-- `Date.parse`, which has no value for a text that is no date.
pub record ContinuationHost : Type 0 where
  pub generation : Generation
  pub next_id : String → ℕ → String
  pub parse_date : String → Option ℕ

-- What the lookups and the clock return at a call; `verified_report` has no value where it throws.
pub record Surroundings : Type 0 where
  pub lookup_operation : String → Option OperationRecord
  pub lookup_handle : String → Option Handle
  pub has_cleanup_receipt : String → Bool
  pub high_water_fence : Option FenceToken
  pub verified_report : EvidenceReceipt → FactKind → Option Report
  pub now : ℕ

pub data ContinuationError : Type 0 where
  unverified_receipt start_facts_differ status_facts_differ terminal_facts_differ :
      ContinuationError
  operation_not_found foreign_binding task_rebound foreign_status : ContinuationError
  stale_revision conflicting_same_revision already_terminal : ContinuationError
  foreign_terminal conflicting_terminal terminal_not_above : ContinuationError
  task_not_confirmed lease_not_held release_not_permitted only_release : ContinuationError
  deadline_expired invalid_control : ContinuationError

unfoldable pub TaskBinding_discrete : Discrete TaskBinding
TaskBinding_discrete = hlevel (String_discrete, ℕ_discrete)

unfoldable pub StartFacts_discrete : Discrete StartFacts
StartFacts_discrete = hlevel (String_discrete, ℕ_discrete)

unfoldable pub StatusFacts_discrete : Discrete StatusFacts
StatusFacts_discrete = hlevel (String_discrete, ℕ_discrete)

unfoldable pub TaskKey_discrete : Discrete TaskKey
TaskKey_discrete = hlevel (String_discrete, ℕ_discrete)

unfoldable pub IdempotencyKey_discrete : Discrete IdempotencyKey
IdempotencyKey_discrete = hlevel (String_discrete, ℕ_discrete)

instance abbrev pub task_binding_eq : Eq TaskBinding
task_binding_eq = record { decide = TaskBinding_discrete }

instance abbrev pub start_facts_eq : Eq StartFacts
start_facts_eq = record { decide = StartFacts_discrete }

instance abbrev pub status_facts_eq : Eq StatusFacts
status_facts_eq = record { decide = StatusFacts_discrete }

instance abbrev pub task_key_eq : Eq TaskKey
task_key_eq = record { decide = TaskKey_discrete }

instance abbrev pub idempotency_key_eq : Eq IdempotencyKey
idempotency_key_eq = record { decide = IdempotencyKey_discrete }

-- ===== src/Journal.antt =====
-- runtime/src/storage/operation-journal.ts: `FileOperationJournal`, which keeps the last accepted
-- revision of every operation's record in a directory of files. The directory is a map from paths;
-- a call returns the new directory or throws and writes nothing.
pub mod Reach
pub mod Advance
pub mod Persist
pub mod Order
pub mod Facts
pub mod History
pub mod Readback
mod Tests
use ai_macos.Base.{ℕ, String, Bool, Option, List, Eq, ℕ_discrete, String_discrete}
use ai_macos.Base.Dict.{Dict}
use ai_macos.Operation.{Context, common}
use ai_macos.Recovery.{Descriptor}
use ai_macos.Resource.{Handle, CleanupOutcome, unowned}
use ai_macos.Operation.Record.{OperationRecord, Outcome, Intent, PayloadReceipt}

-- `OperationJournalKey`
pub record JournalKey : Type 0 where
  pub runtime_epoch : String
  pub login_session_id : String
  pub operation_id : String

-- `operationEnvelopeSchema`; its format and version are literals.
pub record Envelope : Type 0 where
  pub key : JournalKey
  pub revision : ℕ
  pub checksum : String
  pub content : OperationRecord

-- `StoredOperationEvidence`
pub record Evidence : Type 0 where
  pub revision : ℕ
  pub content : OperationRecord

abbrev pub Store : Type 0
Store = Dict String Envelope

-- What the journal is given: `#path` of a key, `operationChecksum`, the SHA-256 of the canonical
-- text of a context and of a descriptor, and the bytes of an envelope.
pub record JournalHost : Type 0 where
  pub path : JournalKey → String
  pub checksum : JournalKey → ℕ → OperationRecord → String
  pub context_digest : Context → String
  pub descriptor_digest : Descriptor → String
  pub bytes : Envelope → ℕ

pub data JournalError : Type 0 where
  invalid_record invalid_revision missing_marker : JournalError
  revision_below_durable conflicting_same_revision authority_changed : JournalError
  state_rolled_back time_rolled_back : JournalError
  gate_is_retrospective gate_vanished grant_changed gate_rebound : JournalError
  terminal_is_authorized grant_mismatch : JournalError
  attempts_rolled_back ledger_rolled_back dispatch_rolled_back : JournalError
  target_lost interference_lost observation_lost effect_lost proof_lost : JournalError
  terminal_outcome_changed terminal_error_changed : JournalError
  complete_cleanup_changed terminal_cleanup_changed receipt_required : JournalError
  invalid_receipt receipt_not_correlated : JournalError
  capacity_exceeded file_too_large : JournalError
  invalid_file wrong_filename wrong_checksum wrong_key : JournalError

-- `operationAuthority`
pub record Authority : Type 0 where
  pub client_session_id : String
  pub principal_id : String
  pub intent : Intent
  pub context : Context
  pub resources : List Handle
  pub payload_receipt : PayloadReceipt
  pub registered_at : ℕ

abbrev pub operation_authority : OperationRecord → Authority
operation_authority r = record {
  client_session_id = r.client_session_id;
  principal_id = r.principal_id;
  intent = r.intent;
  context = r.context;
  resources = r.resources;
  payload_receipt = r.payload_receipt;
  registered_at = r.registered_at;
}

-- `operationKey`
abbrev pub operation_key : OperationRecord → JournalKey
operation_key r =
    let c = common r.context in
    record {
      runtime_epoch = c.runtime_epoch;
      login_session_id = c.login_session_id;
      operation_id = c.operation_id;
    }

-- `terminalOutcomeFacts`: the outcome without its cleanup.
abbrev pub terminal_facts : Outcome → Outcome
terminal_facts o = record o { cleanup = unowned }

-- `stableJson(a) === stableJson(b)`
unfoldable pub JournalKey_discrete : Discrete JournalKey
JournalKey_discrete = hlevel (String_discrete, ℕ_discrete)

unfoldable pub Authority_discrete : Discrete Authority
Authority_discrete = hlevel (String_discrete, ℕ_discrete)

unfoldable pub Outcome_discrete : Discrete Outcome
Outcome_discrete = hlevel (String_discrete, ℕ_discrete)

unfoldable pub CleanupOutcome_discrete : Discrete CleanupOutcome
CleanupOutcome_discrete = hlevel (String_discrete, ℕ_discrete)

unfoldable pub OperationRecord_discrete : Discrete OperationRecord
OperationRecord_discrete = hlevel (String_discrete, ℕ_discrete)

instance abbrev pub journal_key_eq : Eq JournalKey
journal_key_eq = record { decide = JournalKey_discrete }

instance abbrev pub authority_eq : Eq Authority
authority_eq = record { decide = Authority_discrete }

instance abbrev pub outcome_eq : Eq Outcome
outcome_eq = record { decide = Outcome_discrete }

instance abbrev pub cleanup_eq : Eq CleanupOutcome
cleanup_eq = record { decide = CleanupOutcome_discrete }

instance abbrev pub operation_record_eq : Eq OperationRecord
operation_record_eq = record { decide = OperationRecord_discrete }

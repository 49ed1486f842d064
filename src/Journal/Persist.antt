-- ===== src/Journal/Persist.antt =====
-- The operations of `FileOperationJournal` (runtime/src/storage/operation-journal.ts). Two calls do
-- not overlap: `#exclusive` queues them.
use ai_macos.Base.{
  ℕ, String, Bool, true, false, ◌&&◌, Option, none, some, ◌==◌, nat_eq, string_eq, ltb, leb, negate,
  length, Result, ok, err, ◌>>=◌, ◌>>◌, reject_if, if◌then◌else◌,
}
use ai_macos.Base.Dict
use ai_macos.Resource.{Receipt}
use ai_macos.Recovery.{RecoveryGate, send_authorized}
use ai_macos.Operation.Transitions.{OperationState, operation_state_eq}
use ai_macos.Operation.Record.{OperationRecord, record_is_valid}
use ai_macos.Journal.{
  JournalHost, JournalKey, Envelope, Evidence, Store, JournalError, operation_key,
  operation_authority, authority_eq, journal_key_eq, operation_record_eq, invalid_record,
  invalid_revision, missing_marker, revision_below_durable, conflicting_same_revision,
  authority_changed, state_rolled_back, time_rolled_back, capacity_exceeded, file_too_large,
  invalid_file, wrong_filename, wrong_checksum, wrong_key,
}
use ai_macos.Journal.Reach.{can_reach}
use ai_macos.Journal.Advance.{assert_monotonic}

abbrev max_records : ℕ
max_records = 10000

abbrev max_bytes : ℕ
max_bytes = 1048576

-- `Number.isSafeInteger(n) && n >= 1`, below 2 ^ 53.
abbrev pub is_revision : ℕ → Bool
is_revision n = leb 1 n && ltb n 9007199254740992

-- What the schema of a stored file accepts.
abbrev file_is_valid : JournalHost → Envelope → Bool
file_is_valid host env =
    leb (host.bytes env) max_bytes && is_revision env.revision && record_is_valid env.content

abbrev pub is_absent : Option Envelope → Bool
is_absent none = true
is_absent (some env) = false

module _ (host : JournalHost) where
  -- `#readEnvelope`
  unfoldable pub read_envelope : Store → String → Result JournalError (Option Envelope)
  read_envelope store path = elim (Dict.get path store) [
    | none ↦ ok none
    | some env ↦ do
      reject_if (negate (file_is_valid host env)) invalid_file
      reject_if (negate (host.path env.key == path)) wrong_filename
      reject_if (negate (host.checksum env.key env.revision env.content == env.checksum))
          wrong_checksum
      reject_if (negate (operation_key env.content == env.key)) wrong_key
      ok (some env)
  ]

  -- `createOperationEnvelope`
  unfoldable pub new_envelope : OperationRecord → ℕ → Envelope
  new_envelope r revision = record {
    key = operation_key r;
    revision = revision;
    checksum = host.checksum (operation_key r) revision r;
    content = r;
  }

  -- The capacity, the byte limit and the atomic replacement of the file.
  unfoldable pub write_record : Store → OperationRecord → ℕ → Result JournalError (Evidence × Store)
  write_record store r revision =
      let path = host.path (operation_key r) in
      let env = new_envelope r revision in
      do
        reject_if (is_absent (Dict.get path store) && leb max_records (length store))
            capacity_exceeded
        reject_if (ltb max_bytes (host.bytes env)) file_too_large
        ok (record { revision = revision; content = r }, Dict.set path env store)

  abbrev is_reachable : OperationState → OperationState → Bool
  is_reachable from to = elim (can_reach from to) [ none ↦ false | some b ↦ b ]

  -- The checks of a revision above the durable one.
  unfoldable pub assert_successor :
      OperationRecord → OperationRecord → Option Receipt → ℕ → Result JournalError (Unit {0})
  assert_successor previous next offered revision = do
    reject_if (negate (operation_authority next == operation_authority previous)) authority_changed
    reject_if
        (negate (next.state == previous.state) && negate (is_reachable previous.state next.state))
        state_rolled_back
    reject_if (ltb next.updated_at previous.updated_at) time_rolled_back
    assert_monotonic host previous next offered revision

  abbrev pub starts_authorized : Option RecoveryGate → Bool
  starts_authorized (some (send_authorized g)) = true
  starts_authorized _ = false

  -- `persist` against what the file holds.
  unfoldable pub persist_over :
      Store
      → Option Envelope
      → OperationRecord
      → ℕ
      → Option Receipt
      → Result JournalError (Evidence × Store)
  persist_over store none r revision offered = do
    reject_if (starts_authorized r.native_recovery) missing_marker
    write_record store r revision
  persist_over store (some old) r revision offered =
      let replayed = (do
        reject_if (negate (r == old.content)) conflicting_same_revision
        ok (record { revision = revision; content = old.content }, store)) in
      let replaced = (do
        assert_successor old.content r offered revision
        write_record store r revision) in
      if ltb revision old.revision
      then err revision_below_durable
      else if revision == old.revision
      then replayed
      else replaced

  unfoldable pub persist :
      Store → OperationRecord → ℕ → Option Receipt → Result JournalError (Evidence × Store)
  persist store r revision offered = do
    reject_if (negate (record_is_valid r)) invalid_record
    reject_if (negate (is_revision revision)) invalid_revision
    existing ← read_envelope store (host.path (operation_key r))
    persist_over store existing r revision offered

  abbrev evidence_of : Envelope → Evidence
  evidence_of env = record { revision = env.revision; content = env.content }

  -- `read`
  unfoldable pub read : Store → JournalKey → Result JournalError (Option Evidence)
  read store key = do
    existing ← read_envelope store (host.path key)
    ok (elim existing [ none ↦ none | some env ↦ some (evidence_of env) ])

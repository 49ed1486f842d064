-- ===== src/Ledger/Persist.antt =====
-- `FileHeldInputLedger` of runtime/src/storage/held-ledger.ts: the last snapshot of every ledger in
-- a directory of files. Two calls do not overlap: `#exclusive` queues them. Request identifiers are
-- ones that the schema of the answer accepts.
use ai_macos.Base.{
  ℕ, String, Bool, true, false, ◌&&◌, ◌||◌, Option, none, some, ◌==◌, nat_eq, string_eq, ltb, leb,
  negate, length, Result, ok, err, ◌>>=◌, ◌>>◌, reject_if, if◌then◌else◌,
}
use ai_macos.Base.Dict
use ai_macos.Base.Dict.{Dict}
use ai_macos.Ledger.{
  Snapshot, LedgerKey, Ack, LedgerError, ledger_key_eq, snapshot_is_valid, ack_matches,
  validate_transition, invalid_snapshot, revision_below_durable, conflicting_same_revision,
  first_revision, capacity_exceeded, file_too_large, unmatched_ack, invalid_file, wrong_filename,
  wrong_digest, wrong_checksum, wrong_key,
}

-- `ledgerEnvelopeSchema`; its format and version are literals.
pub record Envelope : Type 0 where
  pub key : LedgerKey
  pub request_id : String
  pub persisted_at : ℕ
  pub digest : String
  pub checksum : String
  pub snapshot : Snapshot

-- What the ledger is given: `#path` of a key, `heldInputLedgerDigest`, `ledgerChecksum`, and the
-- bytes of an envelope.
pub record LedgerHost : Type 0 where
  pub path : LedgerKey → String
  pub digest : Snapshot → String
  pub checksum : LedgerKey → String → ℕ → String → Snapshot → String
  pub bytes : Envelope → ℕ

abbrev pub LedgerStore : Type 0
LedgerStore = Dict String Envelope

abbrev pub is_absent : Option Envelope → Bool
is_absent none = true
is_absent (some env) = false

abbrev pub has_previous : Snapshot → Bool
has_previous s = elim s.previous_digest [ none ↦ false | some d ↦ true ]

module _ (host : LedgerHost) where
  -- `#readEnvelope`
  unfoldable pub read_envelope : LedgerStore → String → Result LedgerError (Option Envelope)
  read_envelope store path = elim (Dict.get path store) [
    | none ↦ ok none
    | some env ↦ do
      reject_if (negate (leb (host.bytes env) 1048576 && snapshot_is_valid env.snapshot))
          invalid_file
      reject_if (negate (host.path env.key == path)) wrong_filename
      reject_if (negate (host.digest env.snapshot == env.digest)) wrong_digest
      reject_if
          (negate (
            host.checksum env.key env.request_id env.persisted_at env.digest env.snapshot
            == env.checksum))
          wrong_checksum
      reject_if (negate (env.snapshot.owner == env.key)) wrong_key
      ok (some env)
  ]

  -- `ledgerAck`
  unfoldable pub ledger_ack : String → Envelope → Result LedgerError Ack
  ledger_ack request_id env =
      let ack : Ack = record {
        request_id = request_id;
        owner = env.snapshot.owner;
        revision = env.snapshot.revision;
        digest = env.digest;
        persisted_at = env.persisted_at;
      } in
      do
        reject_if (negate (ack_matches host.digest request_id env.snapshot ack)) unmatched_ack
        ok ack

  -- `createLedgerEnvelope`
  unfoldable pub new_envelope : String → ℕ → Snapshot → Envelope
  new_envelope request_id now s = record {
    key = s.owner;
    request_id = request_id;
    persisted_at = now;
    digest = host.digest s;
    checksum = host.checksum s.owner request_id now (host.digest s) s;
    snapshot = s;
  }

  -- The capacity, the byte limit, the atomic replacement of the file and the answer.
  unfoldable pub write_snapshot :
      LedgerStore → String → ℕ → Snapshot → Result LedgerError (Ack × LedgerStore)
  write_snapshot store request_id now s =
      let path = host.path s.owner in
      let env = new_envelope request_id now s in
      do
        reject_if (is_absent (Dict.get path store) && leb 10000 (length store)) capacity_exceeded
        reject_if (ltb 1048576 (host.bytes env)) file_too_large
        ack ← ledger_ack request_id env
        ok (ack, Dict.set path env store)

  -- `persist` against what the file holds.
  unfoldable pub persist_over :
      LedgerStore → Option Envelope → String → ℕ → Snapshot → Result LedgerError (Ack × LedgerStore)
  persist_over store none request_id now s = do
    reject_if (negate (s.revision == 1) || has_previous s) first_revision
    write_snapshot store request_id now s
  persist_over store (some old) request_id now s =
      let replayed = (do
        reject_if (negate (host.digest s == old.digest)) conflicting_same_revision
        ack ← ledger_ack request_id old
        ok (ack, store)) in
      let replaced = (do
        ack ← ledger_ack old.request_id old
        validate_transition host.digest old.snapshot s ack
        write_snapshot store request_id now s) in
      if ltb s.revision old.snapshot.revision
      then err revision_below_durable
      else if s.revision == old.snapshot.revision
      then replayed
      else replaced

  unfoldable pub persist :
      LedgerStore → String → ℕ → Snapshot → Result LedgerError (Ack × LedgerStore)
  persist store request_id now s = do
    reject_if (negate (snapshot_is_valid s)) invalid_snapshot
    existing ← read_envelope store (host.path s.owner)
    persist_over store existing request_id now s

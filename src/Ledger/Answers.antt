-- ===== src/Ledger/Answers.antt =====
-- The answer of `persist` (`ledgerAck` of runtime/src/storage/held-ledger.ts).
use ai_macos.Base.{
  ℕ, String, ◌≡◌, refl, inl, inr, Option, none, some, arith, ◌==◌, nat_eq, ok, Result-cases,
  Bool-cases,
}
use ai_macos.Ledger.{Snapshot, Ack, validate_transition}
use ai_macos.Ledger.Persist.{
  LedgerHost, LedgerStore, Envelope, read_envelope, ledger_ack, new_envelope, write_snapshot,
  persist_over, persist,
}

-- What the answer acknowledges.
pub record IsAnswered (host : LedgerHost) (request_id : String) (s : Snapshot) (ack : Ack)
    : Type 0 where
  pub request : ack.request_id ≡ request_id
  pub revision : ack.revision ≡ s.revision
  pub digest : ack.digest ≡ host.digest s

module _ (host : LedgerHost) where
  IsAnswered-of_ack :
      (request_id : String) (s : Snapshot) (env : Envelope) {ack : Ack}
      → ledger_ack host request_id env ≡ ok ack
      → env.snapshot.revision ≡ s.revision
      → env.digest ≡ host.digest s
      → IsAnswered host request_id s ack
  unfolding ledger_ack
  IsAnswered-of_ack request_id s env made revision digest = record {
    request = ground arith;
    revision = ground arith;
    digest = ground arith;
  }

  module _ (store : LedgerStore) (request_id : String) (now : ℕ) (s : Snapshot) {ack : Ack}
      {after : LedgerStore} where
    write_snapshot-IsAnswered :
        write_snapshot host store request_id now s ≡ ok (ack, after)
        → IsAnswered host request_id s ack
    unfolding write_snapshot
    write_snapshot-IsAnswered h =
        let env = new_envelope host request_id now s in
        elim (Result-cases (ledger_ack host request_id env)) [
          | inr (e, failed) ↦ absurd (ground arith)
          | inl (a, made) ↦
              IsAnswered-of_ack request_id s env (ground arith) (unfold new_envelope in refl)
                (unfold new_envelope in refl)
        ]

    persist_over-IsAnswered :
        (o : Option Envelope)
        → persist_over host store o request_id now s ≡ ok (ack, after)
        → IsAnswered host request_id s ack
    unfolding persist_over
    persist_over-IsAnswered none h = write_snapshot-IsAnswered (ground arith)
    persist_over-IsAnswered (some old) h = elim (Bool-cases (s.revision == old.snapshot.revision)) [
      | inl same ↦ elim (Result-cases (ledger_ack host request_id old)) [
        | inr (e, failed) ↦ absurd (ground arith)
        | inl (a, made) ↦
            IsAnswered-of_ack request_id s old (ground arith) (ground arith) (ground arith)
      ]
      | inr other ↦ elim (Result-cases (ledger_ack host old.request_id old)) [
        | inr (e, failed) ↦ absurd (ground arith)
        | inl (a, made) ↦ elim (Result-cases (validate_transition host.digest old.snapshot s a)) [
          | inr (e, failed) ↦ absurd (ground arith)
          | inl (t, checked) ↦ write_snapshot-IsAnswered (ground arith)
        ]
      ]
    ]

    pub persist-IsAnswered :
        persist host store request_id now s ≡ ok (ack, after) → IsAnswered host request_id s ack
    unfolding persist
    persist-IsAnswered h = elim (Result-cases (read_envelope host store (host.path s.owner))) [
      | inr (e, failed) ↦ absurd (ground arith)
      | inl (o, returned) ↦ persist_over-IsAnswered o (ground arith)
    ]

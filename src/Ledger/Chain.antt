-- ===== src/Ledger/Chain.antt =====
-- The chain of snapshots under one path (runtime/src/storage/held-ledger.ts).
use ai_macos.Base.{
  ℕ, String, ◌+◌, ◌≤◌, ◌≡◌, refl, ap, subst, ◌∙◌, inl, inr, true, false, none, some, arith, ◌==◌,
  string_eq, nat_eq, ok, Bool-cases, eq_of_==, ==_refl,
}
use ai_macos.Base.Dict
use ai_macos.Base.Dict.{get-set}
use ai_macos.Ledger.{Snapshot, Ack, ledger_key_eq, validate_transition, snapshot_is_valid}
use ai_macos.Ledger.Persist.{LedgerHost, LedgerStore, Envelope, new_envelope, persist}
use ai_macos.Ledger.Entries.{validate_transition-Advances}
use ai_macos.Ledger.History.{
  KeepsEntries, KeepsEntries-refl, KeepsEntries-trans, Leads, IsPersisted, persist-IsPersisted,
}
use ai_macos.Ledger.Answers.{persist-IsAnswered}

-- A link of the chain.
pub record IsNext (digest : Snapshot → String) (before after : Snapshot) : Type 0 where
  pub revision : after.revision ≡ before.revision + 1
  pub chained : after.previous_digest ≡ some (digest before)
  pub entries : KeepsEntries before after

module _ (digest : Snapshot → String) (previous next : Snapshot) (ack : Ack) where
  validate_transition-IsNext :
      snapshot_is_valid previous ≡ true
      → ack.digest ≡ digest previous
      → validate_transition digest previous next ack ≡ ok tt
      → IsNext digest previous next
  unfolding validate_transition
  validate_transition-IsNext valid same h = record {
    revision = ground arith;
    chained = ground (arith, same);
    entries = λ old here.
        let (e, there, a) =
          validate_transition-Advances digest previous next ack old valid h here in
        (
          e,
          there,
          record {
            sequence = a.sequence;
            kind = a.kind;
            code = a.code;
            state = Leads.steps Leads.stays a.state;
          },
        );
  }

-- One file is written, and the others are left as they are.
pub record Writes (before : LedgerStore) (path : String) (env : Envelope) (after : LedgerStore)
    : Type 0 where
  pub written : Dict.get path after ≡ some env
  pub others :
      (other : String) → (path == other) ≡ false → Dict.get other after ≡ Dict.get other before

set-Writes :
    (store : LedgerStore) (path : String) (env : Envelope)
    → Writes store path env (Dict.set path env store)
set-Writes store path env = record {
  written = get-set path path env store ∙ rw (==_refl path) refl;
  others = λ other apart. get-set path other env store ∙ rw apart refl;
}

module _ (host : LedgerHost) where
  -- What the path of the snapshot had before a `persist` that has returned, and what it did.
  pub data Chains (store : LedgerStore) (request_id : String) (now : ℕ) (s : Snapshot)
      (after : LedgerStore) : Type 0 where
    opens :
        Dict.get (host.path s.owner) store ≡ none
        → s.revision ≡ 1
        → Writes store (host.path s.owner) (new_envelope host request_id now s) after
        → Chains store request_id now s after
    repeats :
        {old : Envelope}
        → Dict.get (host.path s.owner) store ≡ some old
        → s.revision ≡ old.snapshot.revision
        → host.digest s ≡ host.digest old.snapshot
        → after ≡ store
        → Chains store request_id now s after
    adds :
        {old : Envelope}
        → Dict.get (host.path s.owner) store ≡ some old
        → IsNext host.digest old.snapshot s
        → Writes store (host.path s.owner) (new_envelope host request_id now s) after
        → Chains store request_id now s after

  IsPersisted-Chains :
      {store : LedgerStore} {request_id : String} {now : ℕ} {s : Snapshot} {after : LedgerStore}
      → IsPersisted host store request_id now s after
      → Chains store request_id now s after
  IsPersisted-Chains {store} {request_id} {now} {s} (IsPersisted.created missing first) =
      Chains.opens missing first
        (set-Writes store (host.path s.owner) (new_envelope host request_id now s))
  IsPersisted-Chains (IsPersisted.replayed found same equal) = Chains.repeats found same equal refl
  IsPersisted-Chains {store} {request_id} {now} {s}
        (IsPersisted.replaced {old} ack found valid same checked) =
      Chains.adds found
        (validate_transition-IsNext host.digest old.snapshot s ack valid same checked)
        (set-Writes store (host.path s.owner) (new_envelope host request_id now s))

  -- A `persist` that returns does one of three things. Where the path has no file, the snapshot has
  -- revision 1 and opens the chain: its new envelope is the path's file. Where the file has the
  -- revision and the digest of the snapshot, the directory is as before. Where the snapshot is the
  -- next link after the one in the file (the next revision, with its digest, keeping its entries),
  -- its new envelope is the path's file. No other path's file changes. The answer has the request's
  -- identifier and the snapshot's revision and digest.
  pub persist_chains :
      (store : LedgerStore) (request_id : String) (now : ℕ) (s : Snapshot) {ack : Ack}
      {after : LedgerStore}
      → persist host store request_id now s ≡ ok (ack, after)
      → Chains store request_id now s after
        × (ack.request_id ≡ request_id)
        × (ack.revision ≡ s.revision)
        × (ack.digest ≡ host.digest s)
  persist_chains store request_id now s h =
      let answer = persist-IsAnswered host store request_id now s h in
      (
        IsPersisted-Chains (persist-IsPersisted host store request_id now s h),
        answer.request,
        answer.revision,
        answer.digest,
      )

  abbrev Keeps : LedgerStore → LedgerStore → Type 0
  Keeps before after =
      (path : String) (old : Envelope)
      → Dict.get path before ≡ some old
      → (new : Envelope) × (Dict.get path after ≡ some new)
        × (old.snapshot.revision ≤ new.snapshot.revision)
        × KeepsEntries old.snapshot new.snapshot

  Keeps-refl : (store : LedgerStore) → Keeps store store
  Keeps-refl store path old found = (old, found, omega arith, KeepsEntries-refl old.snapshot)

  Keeps-trans : (a b c : LedgerStore) → Keeps a b → Keeps b c → Keeps a c
  Keeps-trans a b c f g path old found =
      let (mid, there, up, kept) = f path old found in
      let (new, last, higher, still) = g path mid there in
      (
        new,
        last,
        omega (arith, up, higher),
        KeepsEntries-trans old.snapshot mid.snapshot new.snapshot kept still,
      )

  set-Keeps :
      (store : LedgerStore) (path : String) (env : Envelope)
      → ((old : Envelope)
          → Dict.get path store ≡ some old
          → (old.snapshot.revision ≤ env.snapshot.revision)
            × KeepsEntries old.snapshot env.snapshot)
      → Keeps store (Dict.set path env store)
  set-Keeps store path env newer other old found = elim (Bool-cases (path == other)) [
    | inl same ↦
        let (up, kept) =
          newer old (ap (λ p. Dict.get p store) (eq_of_== path other same) ∙ found) in
        (env, get-set path other env store ∙ rw same refl, up, kept)
    | inr different ↦ (
      old,
      get-set path other env store ∙ rw different found,
      omega arith,
      KeepsEntries-refl old.snapshot,
    )
  ]

  IsPersisted-Keeps :
      (store : LedgerStore) (request_id : String) (now : ℕ) (s : Snapshot) {after : LedgerStore}
      → IsPersisted host store request_id now s after
      → Keeps store after
  unfolding new_envelope
  IsPersisted-Keeps store request_id now s (IsPersisted.created missing first) =
      set-Keeps store (host.path s.owner) (new_envelope host request_id now s) (λ old found. cc)
  IsPersisted-Keeps store request_id now s (IsPersisted.replayed found same equal) =
      Keeps-refl store
  IsPersisted-Keeps store request_id now s
        (IsPersisted.replaced {old} ack found valid same checked) =
      let next = validate_transition-IsNext host.digest old.snapshot s ack valid same checked in
      set-Keeps store (host.path s.owner) (new_envelope host request_id now s) (λ o there.
        subst (λ (x : Envelope). (x.snapshot.revision ≤ s.revision) × KeepsEntries x.snapshot s)
          {x = old} {y = o} (cc (found, there)) (omega (arith, next.revision), next.entries))

  -- The directories that calls of `persist` lead to.
  pub data Calls (start : LedgerStore) : LedgerStore → Type 0 where
    none_yet : Calls start start
    persisted :
        {before after : LedgerStore} {ack : Ack} (request_id : String) (now : ℕ) (s : Snapshot)
        → Calls start before
        → persist host before request_id now s ≡ ok (ack, after)
        → Calls start after

  -- Whatever calls of `persist` return, in any order and for any ledgers, no held input is lost:
  -- each entry under a path is still there, under its sequence, with its key or button, in a state
  -- to which the table leads, and the revision has not gone back.
  pub no_entry_is_lost :
      {start after : LedgerStore} (path : String) (old : Envelope)
      → Calls start after
      → Dict.get path start ≡ some old
      → (new : Envelope) × (Dict.get path after ≡ some new)
        × (old.snapshot.revision ≤ new.snapshot.revision)
        × KeepsEntries old.snapshot new.snapshot
  no_entry_is_lost path old calls found = go calls path old found
    where
      go : {start after : LedgerStore} → Calls start after → Keeps start after
      go {start} none_yet = Keeps-refl start
      go {start} {after} (persisted {before} request_id now s earlier h) =
          Keeps-trans start before after (go earlier) (
            IsPersisted-Keeps before request_id now s
              (persist-IsPersisted host before request_id now s h))

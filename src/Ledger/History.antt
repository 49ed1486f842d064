-- ===== src/Ledger/History.antt =====
-- Whole calls of the ledger and their sequences (runtime/src/storage/held-ledger.ts).
use mathlib.Core.List.{Memᴰ}
use ai_macos.Base.{
  ℕ, String, ◌≡◌, refl, sym, subst, ◌∙◌, inl, inr, true, Option, none, some, arith, ◌==◌, string_eq,
  nat_eq, ok, Result-cases, Bool-cases, Option-cases, includes,
}
use ai_macos.Base.Dict
use ai_macos.Base.Dict.{get-set}
use ai_macos.Ledger.{
  Entry, HeldState, held_state_eq, Snapshot, Ack, ledger_key_eq, allowed, snapshot_is_valid,
  validate_transition,
}
use ai_macos.Ledger.Persist.{
  LedgerHost, LedgerStore, Envelope, read_envelope, ledger_ack, new_envelope, write_snapshot,
  persist_over, persist,
}

-- The states that an entry can take, step by step.
pub data Leads (from : HeldState) : HeldState → Type 0 where
  stays : Leads from from
  steps : {mid to : HeldState} → Leads from mid → includes (allowed mid) to ≡ true → Leads from to

Leads-trans : {a b c : HeldState} → Leads a b → Leads b c → Leads a c
Leads-trans p Leads.stays = p
Leads-trans p (Leads.steps q allowed_step) = Leads.steps (Leads-trans p q) allowed_step

-- What later snapshots keep of an entry.
pub record IsLater (old e : Entry) : Type 0 where
  pub sequence : e.sequence ≡ old.sequence
  pub kind : e.kind ≡ old.kind
  pub code : e.code ≡ old.code
  pub state : Leads old.state e.state

-- Every entry is still there, and its state has only moved along the table.
abbrev pub KeepsEntries : Snapshot → Snapshot → Type 0
KeepsEntries before after =
    (old : Entry) → Memᴰ old before.entries → (e : Entry) × Memᴰ e after.entries × IsLater old e

pub KeepsEntries-refl : (s : Snapshot) → KeepsEntries s s
KeepsEntries-refl s old here =
    (old, here, record { sequence = refl; kind = refl; code = refl; state = Leads.stays })

pub KeepsEntries-trans : (a b c : Snapshot) → KeepsEntries a b → KeepsEntries b c → KeepsEntries a c
KeepsEntries-trans a b c f g old here =
    let (mid, there, first) = f old here in
    let (last, end, second) = g mid there in
    (
      last,
      end,
      record {
        sequence = second.sequence ∙ first.sequence;
        kind = second.kind ∙ first.kind;
        code = second.code ∙ first.code;
        state = Leads-trans first.state second.state;
      },
    )

module _ (host : LedgerHost) where
  -- How the file under the path of the snapshot became what it is.
  pub data IsPersisted (store : LedgerStore) (request_id : String) (now : ℕ) (s : Snapshot)
      : LedgerStore → Type 0 where
    created :
        Dict.get (host.path s.owner) store ≡ none
        → s.revision ≡ 1
        → IsPersisted store request_id now s
            (Dict.set (host.path s.owner) (new_envelope host request_id now s) store)
    replayed :
        {old : Envelope}
        → Dict.get (host.path s.owner) store ≡ some old
        → s.revision ≡ old.snapshot.revision
        → host.digest s ≡ host.digest old.snapshot
        → IsPersisted store request_id now s store
    replaced :
        {old : Envelope} (ack : Ack)
        → Dict.get (host.path s.owner) store ≡ some old
        → snapshot_is_valid old.snapshot ≡ true
        → ack.digest ≡ host.digest old.snapshot
        → validate_transition host.digest old.snapshot s ack ≡ ok tt
        → IsPersisted store request_id now s
            (Dict.set (host.path s.owner) (new_envelope host request_id now s) store)

  found_of_read :
      (store : LedgerStore) (path : String) {o : Option Envelope}
      → read_envelope host store path ≡ ok o
      → Dict.get path store ≡ o
  unfolding read_envelope
  found_of_read store path h = elim (Option-cases (Dict.get path store)) [
    | inl missing ↦ ground arith
    | inr (env, found) ↦ ground arith
  ]

  checked_of_read :
      (store : LedgerStore) (path : String) {env : Envelope}
      → read_envelope host store path ≡ ok (some env)
      → (snapshot_is_valid env.snapshot ≡ true) × (env.digest ≡ host.digest env.snapshot)
  unfolding read_envelope
  checked_of_read store path h = elim (Option-cases (Dict.get path store)) [
    | inl missing ↦ absurd (ground arith)
    | inr (old, found) ↦ (ground arith, ground arith)
  ]

  written :
      (store : LedgerStore) (request_id : String) (now : ℕ) (s : Snapshot) {ack : Ack}
      {after : LedgerStore}
      → write_snapshot host store request_id now s ≡ ok (ack, after)
      → after ≡ Dict.set (host.path s.owner) (new_envelope host request_id now s) store
  unfolding write_snapshot
  written store request_id now s h =
      elim (Result-cases (ledger_ack host request_id (new_envelope host request_id now s))) [
        | inr (e, failed) ↦ absurd (ground arith)
        | inl (ack, made) ↦ ground arith
      ]

  acked :
      (request_id : String) (env : Envelope) {ack : Ack}
      → ledger_ack host request_id env ≡ ok ack
      → ack.digest ≡ env.digest
  unfolding ledger_ack
  acked request_id env h = ground arith

  module _ (store : LedgerStore) (request_id : String) (now : ℕ) (s : Snapshot) {ack : Ack}
      {after : LedgerStore} where
    over_cases :
        (o : Option Envelope)
        → read_envelope host store (host.path s.owner) ≡ ok o
        → persist_over host store o request_id now s ≡ ok (ack, after)
        → IsPersisted store request_id now s after
    unfolding persist_over
    over_cases none returned h =
        subst (IsPersisted store request_id now s)
          (sym (written store request_id now s {ack = ack} (ground arith)))
          (created (found_of_read store (host.path s.owner) returned) (ground arith))
    over_cases (some old) returned h =
        let found = found_of_read store (host.path s.owner) returned in
        let (valid, digest) = checked_of_read store (host.path s.owner) returned in
        elim (Bool-cases (s.revision == old.snapshot.revision)) [
          | inl same ↦ elim (Result-cases (ledger_ack host request_id old)) [
            | inr (e, failed) ↦ absurd (ground arith)
            | inl (a, made) ↦
                subst (IsPersisted store request_id now s) (ground arith)
                  (replayed found (ground arith) (ground arith))
          ]
          | inr other ↦ elim (Result-cases (ledger_ack host old.request_id old)) [
            | inr (e, failed) ↦ absurd (ground arith)
            | inl (a, made) ↦
                elim (Result-cases (validate_transition host.digest old.snapshot s a)) [
                  | inr (e, failed) ↦ absurd (ground arith)
                  | inl (t, checked) ↦
                      subst (IsPersisted store request_id now s)
                        (sym (written store request_id now s {ack = ack} (ground arith)))
                        (replaced a found valid (acked old.request_id old made ∙ digest) checked)
                ]
          ]
        ]

    pub persist-IsPersisted :
        persist host store request_id now s ≡ ok (ack, after)
        → IsPersisted store request_id now s after
    unfolding persist
    persist-IsPersisted h = elim (Result-cases (read_envelope host store (host.path s.owner))) [
      | inr (e, failed) ↦ absurd (ground arith)
      | inl (o, returned) ↦ over_cases o returned (ground arith)
    ]

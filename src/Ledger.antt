-- ===== src/Ledger.antt =====
-- The ledger of held keys and buttons: `heldInputLedgerSnapshotSchema` and
-- `validateLedgerTransition` of shared/src/contracts/native-lifecycle.ts.
pub mod Persist
pub mod Entries
pub mod History
pub mod Answers
pub mod Chain
mod Tests
use ai_macos.Base.{
  ℕ, String, Bool, true, false, ◌&&◌, ◌||◌, ◌+◌, max, Option, none, some, List, [], ◌∷◌, map, Eq,
  ◌==◌, nat_eq, string_eq, ltb, leb, negate, length, every, includes, select, repeats, Result, ok,
  err, ◌>>=◌, ◌>>◌, reject_if, ℕ_discrete, String_discrete, if◌then◌else◌,
}
use ai_macos.Base.Dict
use ai_macos.Base.Dict.{Dict}

pub data HeldKind : Type 0 where
  key button : HeldKind

pub data HeldState : Type 0 where
  pending_down confirmed_down pending_up released uncertain : HeldState

-- `HeldInputLedgerEntry`
pub record Entry : Type 0 where
  pub sequence : ℕ
  pub kind : HeldKind
  pub code : ℕ
  pub state : HeldState

-- `HeldLedgerKey`
pub record LedgerKey : Type 0 where
  pub runtime_epoch : String
  pub login_session_id : String
  pub native_generation : String
  pub operation_id : String

-- `HeldInputLedgerSnapshot`; its version is a literal.
pub record Snapshot : Type 0 where
  pub owner : LedgerKey
  pub revision : ℕ
  pub previous_digest : Option String
  pub entries : List Entry

-- `HeldInputLedgerAck`; `durable` is a literal.
pub record Ack : Type 0 where
  pub request_id : String
  pub owner : LedgerKey
  pub revision : ℕ
  pub digest : String
  pub persisted_at : ℕ

pub data LedgerError : Type 0 where
  invalid_snapshot revision_below_durable conflicting_same_revision first_revision : LedgerError
  foreign_transition unconfirmed_previous broken_chain : LedgerError
  new_entry_not_pending sequence_below_high_water forbidden_entry entry_lost : LedgerError
  capacity_exceeded file_too_large unmatched_ack : LedgerError
  invalid_file wrong_filename wrong_digest wrong_checksum wrong_key : LedgerError

unfoldable pub HeldKind_discrete : Discrete HeldKind
HeldKind_discrete = hlevel

unfoldable pub HeldState_discrete : Discrete HeldState
HeldState_discrete = hlevel

unfoldable pub LedgerKey_discrete : Discrete LedgerKey
LedgerKey_discrete = hlevel (String_discrete, ℕ_discrete)

instance abbrev pub held_kind_eq : Eq HeldKind
held_kind_eq = record { decide = HeldKind_discrete }

instance abbrev pub held_state_eq : Eq HeldState
held_state_eq = record { decide = HeldState_discrete }

instance abbrev pub ledger_key_eq : Eq LedgerKey
ledger_key_eq = record { decide = LedgerKey_discrete }

abbrev pub is_pending_down : HeldState → Bool
is_pending_down pending_down = true
is_pending_down _ = false

abbrev is_released : HeldState → Bool
is_released released = true
is_released _ = false

abbrev pub sequences : List Entry → List ℕ
sequences = map λ e. e.sequence

ascending : List ℕ → Bool
ascending [] = true
ascending (a ∷ []) = true
ascending (a ∷ b ∷ rest) = ltb a b && ascending (b ∷ rest)

-- Two entries for one held input, neither of which is released.
held_twice : List Entry → Bool
held_twice [] = false
held_twice (e ∷ rest) = is_held_in rest || held_twice rest
  where
    is_held_in : List Entry → Bool
    is_held_in [] = false
    is_held_in (f ∷ es) = (e.kind == f.kind) && (e.code == f.code) || is_held_in es

abbrev pub is_revision : ℕ → Bool
is_revision n = leb 1 n && ltb n 9007199254740992

-- What `heldInputLedgerSnapshotSchema.parse` accepts.
unfoldable pub snapshot_is_valid : Snapshot → Bool
unfolding ascending held_twice
snapshot_is_valid s =
    is_revision s.revision
    && leb (length s.entries) 512
    && every (λ e. is_revision e.sequence && leb e.code 4294967295) s.entries
    && negate (repeats (sequences s.entries))
    && ascending (sequences s.entries)
    && negate (held_twice (select (λ e. negate (is_released e.state)) s.entries))

-- The table `allowed` of `validateLedgerTransition`.
abbrev pub allowed : HeldState → List HeldState
allowed pending_down = pending_down ∷ confirmed_down ∷ uncertain ∷ []
allowed confirmed_down = confirmed_down ∷ pending_up ∷ uncertain ∷ []
allowed pending_up = pending_up ∷ released ∷ uncertain ∷ []
allowed released = released ∷ []
allowed uncertain = uncertain ∷ []

-- `previousBySequence`, as the `Map` is built.
unfoldable pub index_onto : Dict ℕ Entry → List Entry → Dict ℕ Entry
index_onto m [] = m
index_onto m (e ∷ rest) = index_onto (Dict.set e.sequence e m) rest

-- `previousMaximum`
unfoldable pub high_water : List Entry → ℕ
high_water [] = 0
high_water (e ∷ rest) = max e.sequence (high_water rest)

-- One turn of the loop over the new entries; the map keeps the entries not yet met.
unfoldable pub advance_entry : ℕ → Dict ℕ Entry → Entry → Result LedgerError (Dict ℕ Entry)
advance_entry maximum before e = elim (Dict.get e.sequence before) [
  | none ↦ do
    reject_if (negate (is_pending_down e.state)) new_entry_not_pending
    reject_if (leb e.sequence maximum) sequence_below_high_water
    ok before
  | some old ↦ do
    reject_if
        (negate (old.kind == e.kind)
          || negate (old.code == e.code)
          || negate (includes (allowed old.state) e.state))
        forbidden_entry
    ok (Dict.delete e.sequence before)
]

unfoldable pub advance_entries : ℕ → Dict ℕ Entry → List Entry → Result LedgerError (Dict ℕ Entry)
advance_entries maximum before [] = ok before
advance_entries maximum before (e ∷ rest) = do
  next ← advance_entry maximum before e
  advance_entries maximum next rest

abbrev pub is_nonempty : Dict ℕ Entry → Bool
is_nonempty [] = false
is_nonempty _ = true

module _ (digest : Snapshot → String) where
  -- `heldInputLedgerAckMatches`
  unfoldable pub ack_matches : String → Snapshot → Ack → Bool
  ack_matches request_id s ack =
      (ack.request_id == request_id)
      && (ack.owner == s.owner)
      && (ack.revision == s.revision)
      && (ack.digest == digest s)

  abbrev is_chained : Option String → String → Bool
  is_chained none d = false
  is_chained (some c) d = c == d

  -- `validateLedgerTransition`
  unfoldable pub validate_transition : Snapshot → Snapshot → Ack → Result LedgerError (Unit {0})
  validate_transition previous next ack = do
    reject_if (negate (previous.owner == next.owner)) foreign_transition
    reject_if (negate (ack_matches ack.request_id previous ack)) unconfirmed_previous
    reject_if
        (negate (next.revision == previous.revision + 1)
          || negate (is_chained next.previous_digest ack.digest))
        broken_chain
    lost ←
        advance_entries (high_water previous.entries) (index_onto [] previous.entries) next.entries
    reject_if (is_nonempty lost) entry_lost

-- ===== src/Ledger/Tests.antt =====
-- Runs of the ledger on a small input, to which the theorems apply.
use ai_macos.Base.{◌≤◌, ◌≡◌, refl, none, some, [], ◌∷◌, string_eq, ok, String_discrete, ℕ_discrete}
use ai_macos.Base.Dict
use ai_macos.Ledger.{
  Entry, HeldKind, HeldState, HeldState_discrete, HeldKind_discrete, LedgerKey, LedgerKey_discrete,
  Snapshot, Ack, snapshot_is_valid, ack_matches, validate_transition, advance_entries,
  advance_entry, index_onto, high_water,
}
use ai_macos.Ledger.Persist.{
  LedgerHost, LedgerStore, Envelope, read_envelope, ledger_ack, new_envelope, write_snapshot,
  persist_over, persist,
}
use ai_macos.Ledger.History.{KeepsEntries}
use ai_macos.Ledger.Chain.{Calls, Chains, persist_chains, no_entry_is_lost}

abbrev host : LedgerHost
host = record {
  path = λ k. k.operation_id;
  digest = λ s. "digest";
  checksum = λ k r n d s. "sum";
  bytes = λ env. 100;
}

abbrev owner : LedgerKey
owner = record {
  runtime_epoch = "epoch";
  login_session_id = "login";
  native_generation = "native";
  operation_id = "op";
}

abbrev key_down : HeldState → Entry
key_down state = record { sequence = 1; kind = HeldKind.key; code = 30; state = state }

abbrev first : Snapshot
first = record {
  owner = owner;
  revision = 1;
  previous_digest = none;
  entries = key_down HeldState.pending_down ∷ [];
}

abbrev second : Snapshot
second = record {
  owner = owner;
  revision = 2;
  previous_digest = some "digest";
  entries = key_down HeldState.confirmed_down ∷ [];
}

abbrev envelope_of : Snapshot → Envelope
envelope_of s = record {
  key = owner;
  request_id = "request";
  persisted_at = 5;
  digest = "digest";
  checksum = "sum";
  snapshot = s;
}

abbrev ack_of : Snapshot → Ack
ack_of s = record {
  request_id = "request";
  owner = owner;
  revision = s.revision;
  digest = "digest";
  persisted_at = 5;
}

abbrev store_of : Snapshot → LedgerStore
store_of s = ("op", envelope_of s) ∷ []

persists_second :
    persist host (store_of first) "request" 5 second ≡ ok (ack_of second, store_of second)
unfolding persist read_envelope persist_over ledger_ack write_snapshot new_envelope
    snapshot_is_valid ack_matches validate_transition advance_entries advance_entry index_onto
    high_water Dict.get Dict.set Dict.delete String_discrete ℕ_discrete HeldState_discrete
    HeldKind_discrete LedgerKey_discrete
persists_second = refl

first_found : Dict.get "op" (store_of first) ≡ some (envelope_of first)
unfolding Dict.get String_discrete
first_found = refl

no_entry_is_lost_example :
    (new : Envelope) × (Dict.get "op" (store_of second) ≡ some new)
    × (1 ≤ new.snapshot.revision)
    × KeepsEntries first new.snapshot
no_entry_is_lost_example =
    no_entry_is_lost host "op" (envelope_of first)
      (Calls.persisted "request" 5 second Calls.none_yet persists_second) first_found

persist_chains_example :
    Chains host (store_of first) "request" 5 second (store_of second)
    × ((ack_of second).request_id ≡ "request")
    × ((ack_of second).revision ≡ second.revision)
    × ((ack_of second).digest ≡ host.digest second)
persist_chains_example = persist_chains host (store_of first) "request" 5 second persists_second

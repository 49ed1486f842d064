-- ===== src/Journal/Tests.antt =====
-- Runs of the journal on a small input, to which the theorems apply.
use ai_macos.Base.{
  ℕ, ◌≤◌, ◌≡◌, ◌↔◌, refl, Bool, true, Option, none, some, [], ◌∷◌, string_eq, ok, String_discrete,
  ℕ_discrete,
}
use ai_macos.Base.Dict
use ai_macos.Base.Dict.{Dict}
use ai_macos.Identity.{Generation, clipboard, same_runtime_generation, target_runtime_generation}
use ai_macos.Resource.{unowned, Receipt, cleanup_is_valid, cleanup_covers}
use ai_macos.Operation.{Context, clipboard_context, context_is_valid}
use ai_macos.Operation.Transitions.{
  OperationState, OperationState_discrete, is_terminal, can_transition, operation_transitions,
}
use ai_macos.Operation.Record.{
  OperationRecord, Outcome, Intent, DispatchState, DispatchState_discrete, TargetVerification,
  Interference, ObservationState, Effect, Restoration, record_is_valid, recovery_is_valid,
  owns_handle, state_matches_outcome,
}
use ai_macos.Journal.{
  JournalHost, JournalKey, Envelope, Store, operation_key, JournalKey_discrete, Authority_discrete,
  CleanupOutcome_discrete,
}
use ai_macos.Journal.Reach.{Reaches, can_reach, can_reach-Reaches, search, candidates}
use ai_macos.Journal.Advance.{
  assert_gate, dispatch_can_advance, assert_effect, assert_terminal_facts, assert_cleanup,
  assert_monotonic,
}
use ai_macos.Journal.Persist.{
  read_envelope, new_envelope, write_record, assert_successor, persist_over, persist, read,
}
use ai_macos.Journal.Facts.{Follows}
use ai_macos.Journal.History.{Calls, Calls-keep}
use ai_macos.Journal.Readback.{read-persist, read-persist_other}

abbrev host : JournalHost
host = record {
  path = λ k. k.operation_id;
  checksum = λ k n r. "sum";
  context_digest = λ c. "context";
  descriptor_digest = λ d. "descriptor";
  bytes = λ env. 100;
}

abbrev generation : Generation
generation = record { runtime_epoch = "epoch"; login_session_id = "login" }

abbrev context : Context
context =
    clipboard_context
      (record {
        operation_id = "op";
        client_request_id = "request";
        client_session_id = "client";
        principal_id = "principal";
        generation = generation;
        inventory_id = "inventory";
        inventory_revision = 1;
        observation_ref = none;
        deadline_at = 90;
      })
      (clipboard (record { generation = generation }))

abbrev outcome : Outcome
outcome = record {
  dispatch = DispatchState.unsent;
  target_verified = TargetVerification.unknown;
  user_interference = Interference.unknown;
  observation = ObservationState.unavailable;
  effect = Effect.unverified;
  cleanup = unowned;
  restoration = Restoration.not_applicable;
  last_checkpoint = none;
  dispatch_attempts = 0;
  ledger_revision = none;
}

abbrev entry : OperationState → ℕ → OperationRecord
entry state at = record {
  client_session_id = "client";
  principal_id = "principal";
  intent = Intent.read;
  context = context;
  state = state;
  outcome = outcome;
  resources = [];
  payload_receipt = record { key_generation = "key"; hmac_sha256 = "hmac" };
  native_recovery = none;
  registered_at = 10;
  updated_at = at;
  error = none;
}

abbrev first : OperationRecord
first = entry OperationState.registered 10

abbrev second : OperationRecord
second = entry OperationState.rejected 20

abbrev envelope_of : OperationRecord → ℕ → Envelope
envelope_of r n = record { key = operation_key r; revision = n; checksum = "sum"; content = r }

abbrev store_one : Store
store_one = ("op", envelope_of first 1) ∷ []

abbrev store_two : Store
store_two = ("op", envelope_of second 2) ∷ []

persists_first :
    persist host [] first 1 none ≡ ok (record { revision = 1; content = first }, store_one)
unfolding persist read_envelope persist_over write_record new_envelope record_is_valid
    recovery_is_valid owns_handle state_matches_outcome context_is_valid cleanup_is_valid
    cleanup_covers OperationState_discrete DispatchState_discrete String_discrete ℕ_discrete
    is_terminal same_runtime_generation target_runtime_generation Dict.get Dict.set
persists_first = refl

persists_second :
    persist host store_one second 2 none ≡ ok (record { revision = 2; content = second }, store_two)
unfolding persist read_envelope persist_over write_record new_envelope record_is_valid
    recovery_is_valid owns_handle state_matches_outcome context_is_valid cleanup_is_valid
    cleanup_covers OperationState_discrete DispatchState_discrete String_discrete ℕ_discrete
    is_terminal same_runtime_generation target_runtime_generation Dict.get Dict.set assert_successor
    assert_monotonic assert_gate dispatch_can_advance assert_effect assert_terminal_facts
    assert_cleanup can_reach search candidates can_transition operation_transitions
    JournalKey_discrete Authority_discrete CleanupOutcome_discrete
persists_second = refl

one_found : Dict.get "op" store_one ≡ some (envelope_of first 1)
unfolding Dict.get String_discrete
one_found = refl

Calls-keep_example :
    (new : Envelope) × (Dict.get "op" store_two ≡ some new)
    × (1 ≤ new.revision)
    × Follows first new.content
    × ((1 ≡ new.revision) → new.content ≡ first)
Calls-keep_example =
    Calls-keep host "op" (envelope_of first 1)
      (Calls.persisted second 2 none Calls.none_yet persists_second) one_found

read-persist_example :
    (read host store_one (operation_key first)
      ≡ ok (some (record { revision = 1; content = first })))
    × ((again : Option Receipt)
        → persist host store_one first 1 again
          ≡ ok (record { revision = 1; content = first }, store_one))
read-persist_example = read-persist host [] first 1 none persists_first

abbrev other_key : JournalKey
other_key = record { runtime_epoch = "epoch"; login_session_id = "login"; operation_id = "other" }

read-persist_other_example : read host store_one other_key ≡ read host [] other_key
read-persist_other_example =
    read-persist_other host [] first 1 none other_key (λ e. cc e) persists_first

can_reach-Reaches_example :
    (b : Bool) × (can_reach OperationState.registered OperationState.completed ≡ some b)
    × ((b ≡ true) ↔ Reaches OperationState.registered OperationState.completed)
can_reach-Reaches_example = can_reach-Reaches OperationState.registered OperationState.completed

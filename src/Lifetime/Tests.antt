-- ===== src/Lifetime/Tests.antt =====
-- Runs of the lifetime store on a small input, to which the theorems apply.
use ai_macos.Base.{
  ◌≡◌, ◌<◌, refl, ◌⊎◌, none, some, [], ◌∷◌, string_eq, ok, String_discrete, ℕ_discrete, err,
}
use ai_macos.Base.Dict
use ai_macos.Lifetime.{
  LifetimeRecord, LifetimeState, LifetimeState_discrete, LifetimeTarget, LifetimeTarget_discrete,
  OwnershipKey, OwnershipKey_discrete, EndpointHost, StableOwner, StableOwner_discrete,
  ReservationHandle, HandleState, ExternalGeneration, record_is_valid, same_life, assert_transition,
  immutable_changed,
}
use ai_macos.Lifetime.Persist.{
  LifetimeHost, LifetimeStore, Envelope, read, new_envelope, write_record, persist, load_all,
}
use ai_macos.Lifetime.Moves.{Lives}
use ai_macos.Lifetime.History.{Calls, Ended, lifetimes_keep, Listed, load_all-persist}
use ai_macos.Lifetime.Ownership.{view, Assigned, Calls-Assigned}

abbrev host : LifetimeHost
host = record { path = λ k. "chrome"; checksum = λ r. "sum"; bytes = λ env. 100 }

abbrev target : LifetimeTarget
target = LifetimeTarget.browser_instance (record {
  generation = record { runtime_epoch = "epoch"; login_session_id = "login" };
  browser_instance_ref = "browser";
  transport_generation = "transport";
})

abbrev handle : ReservationHandle
handle = record {
  reservation_id = "reservation";
  reservation_generation = "generation";
  runtime_epoch = "epoch";
  login_session_id = "login";
  principal_id = "principal";
  lineage_ref = "lineage";
  target = target;
  external_generation = ExternalGeneration.browser_generation "transport";
  created_at = 1;
  expires_at = 90;
  state = HandleState.active;
  status_revision = 0;
}

abbrev connecting : LifetimeRecord
connecting = record {
  runtime_epoch = "epoch";
  login_session_id = "login";
  binding_id = "binding";
  owner = StableOwner.browser "browser";
  config_fingerprint = "config";
  physical_ownership_key = OwnershipKey.chrome_cdp EndpointHost.localhost 9222 "/profile";
  lineage_id = "lineage";
  operation_id = "op";
  initial_target = target;
  target = target;
  handle = none;
  state = LifetimeState.connecting;
  revision = 1;
  operation_ids = "op" ∷ [];
  updated_at = 5;
}

abbrev connected : LifetimeRecord
connected = record connecting { handle = some handle; state = LifetimeState.active; revision = 2 }

abbrev store_of : LifetimeRecord → LifetimeStore
store_of r = ("chrome", record { checksum = "sum"; content = r }) ∷ []

creates : persist host [] connecting ≡ ok (connecting, store_of connecting)
unfolding persist read new_envelope write_record record_is_valid Dict.get Dict.set String_discrete
    ℕ_discrete
creates = refl

connects : persist host (store_of connecting) connected ≡ ok (connected, store_of connected)
unfolding persist read new_envelope write_record record_is_valid assert_transition same_life
    Dict.get Dict.set String_discrete ℕ_discrete LifetimeState_discrete LifetimeTarget_discrete
    OwnershipKey_discrete StableOwner_discrete
connects = refl

-- Another binding cannot take the key of an active record.
takes_over :
    persist host (store_of connected) (record connected { binding_id = "other"; revision = 3 })
    ≡ err immutable_changed
unfolding persist read new_envelope write_record record_is_valid assert_transition same_life
    Dict.get Dict.set String_discrete ℕ_discrete LifetimeState_discrete LifetimeTarget_discrete
    OwnershipKey_discrete StableOwner_discrete
takes_over = refl

connecting_found :
    Dict.get "chrome" (store_of connecting)
    ≡ some (record { checksum = "sum"; content = connecting })
unfolding Dict.get String_discrete
connecting_found = refl

connected_found :
    Dict.get "chrome" (store_of connected) ≡ some (record { checksum = "sum"; content = connected })
unfolding Dict.get String_discrete
connected_found = refl

connects_once : Calls host (store_of connecting) (store_of connected)
connects_once = Calls.persisted connected Calls.none_yet connects

lifetimes_keep_example :
    (new : Envelope) × (Dict.get "chrome" (store_of connected) ≡ some new)
    × ((1 < new.content.revision) ⊎ (new.content ≡ connecting))
    × (Lives connecting new.content ⊎ Ended host connects_once "chrome" connecting new.content)
lifetimes_keep_example =
    lifetimes_keep host "chrome" (record { checksum = "sum"; content = connecting }) connects_once
      connecting_found

load_all-persist_example : load_all host (store_of connected) ("chrome" ∷ []) ≡ ok (connected ∷ [])
load_all-persist_example =
    load_all-persist host
      (Calls.persisted connected (Calls.persisted connecting Calls.none_yet creates) connects)
      (Listed.file connected_found Listed.nothing)

Calls-Assigned_example : Assigned (view []) (view (store_of connected))
Calls-Assigned_example =
    Calls-Assigned host
      (Calls.persisted connected (Calls.persisted connecting Calls.none_yet creates) connects)

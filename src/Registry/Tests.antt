-- ===== src/Registry/Tests.antt =====
-- Runs of the registry on a small input, to which the theorems apply.
use Prim.Native.Nat.{Ordering}
use mathlib.Core.Logic.Or
use mathlib.Core.List.{mem-cons, Perm, Mem, Nodup, Nodup-cons, Nodup-nil, not-mem-nil}
use ai_macos.Base.{
  err, ◌≡◌, ◌≢◌, ◌↔◌, refl, ◌⊎◌, true, false, none, some, [], ◌∷◌, arith, All, ok, IsOk,
  String_discrete, ℕ_discrete, concat, string_eq,
}
use ai_macos.Base.Dict
use ai_macos.Operation.{ClientSession}
use ai_macos.Resource.{
  ResourceRef, adb_device, Handle, active, CleanupOutcome, owned, complete, released, Receipt,
  Handle_discrete, HandleState, HandleState_discrete, cleanup_is_valid, cleanup_covers,
}
use ai_macos.Registry.{
  Host, Registry, empty_registry, AuthorityRequest, resource_key, kind_name, acquire, check_free,
  store, issue, sort_resources, insert_resource, comes_after, new_handle, assert_active,
}
use ai_macos.Registry.{changed_during_staging}
use ai_macos.Registry.Cleanup.{
  Staged, is_complete_cleanup, prepare_cleanup, plan, plan_resource, stage, new_receipt,
  receipt_is_valid, commit, check_unchanged, finish_all, finish,
}
use ai_macos.Registry.Interrupt.{commit-quarantine}
use ai_macos.Identity.{Target}
use ai_macos.Operation.{clipboard_context}
use ai_macos.Operation.Transitions.{OperationState, is_terminal}
use ai_macos.Operation.Record.{
  OperationRecord, Intent, DispatchState, TargetVerification, Interference, ObservationState,
  Effect, Restoration, can_release_mutation_lease,
}
use ai_macos.Registry.Mutation.{returned, can_release-apply_cleanup}
use ai_macos.Registry.Keys.{resource_key_inj}
use ai_macos.Registry.Acquire.{IsFree, acquire-IsOk_iff}
use ai_macos.Registry.Invariant.{IsSound, empty-IsSound}
use ai_macos.Registry.Grants.{IsGrant, IsHeld, acquire_grants, acquire-IsSound}
use ai_macos.Registry.Reuse.{IsCleaned, apply_cleanup-IsCleaned, acquire-apply_cleanup}
use ai_macos.Registry.Receipts.{verify-apply_cleanup}
use ai_macos.Registry.Quarantine.{IsMarked, quarantine_marks}
use ai_macos.Registry.Authority.{
  own_request, Reachable, Reachable-IsSound, quarantine_revokes, acquire_authorizes,
}
use ai_macos.Registry.Requirements.{
  require_authorized, registry_authority, owner_of, require-acquire, require-quarantine,
}
use ai_macos.Registry.Methods.{apply_cleanup, verify, quarantine, issued_to, quarantine_all}

abbrev host : Host
host = record {
  generation = record { runtime_epoch = "epoch"; login_session_id = "login" };
  collate = λ a b. Ordering.eq;
  next_id = λ prefix n. prefix;
  authority_ref = λ p. p.operation_id;
}

abbrev session : ClientSession
session = record {
  client_session_id = "client";
  principal_id = "principal";
  generation = host.generation;
  authentication_generation = "auth";
  authenticated_at = 1;
  expires_at = 100;
}

abbrev device : ResourceRef
device = record { kind = adb_device; resource_ref = "phone" }

abbrev handle : Handle
handle = record {
  resource = device;
  lease_id = "lease";
  lease_generation = "lease-generation";
  operation_id = "op";
  client_session_id = "client";
  principal_id = "principal";
  generation = host.generation;
  expires_at = 50;
  state = active;
}

abbrev held : Registry
held = record {
  slots = (resource_key device, record { issued = handle; current = handle; object = 0 }) ∷ [];
  receipts = [];
  tombstones = [];
  drawn = 2;
  objects = 1;
}

granted : acquire host empty_registry session "op" (device ∷ []) 50 ≡ ok (held, handle ∷ [])
unfolding acquire check_free store issue new_handle sort_resources insert_resource comes_after
    Dict.get Dict.set String_discrete
granted = refl

abbrev cleanup : CleanupOutcome
cleanup = owned complete (record { handle = handle; outcome = released } ∷ []) none

abbrev receipt : Receipt
receipt = record {
  receipt_id = "cleanup-receipt";
  authority_ref = "op";
  operation_id = "op";
  generation = host.generation;
  issued_at = 10;
  leases = record { lease_id = "lease"; lease_generation = "lease-generation" } ∷ [];
}

abbrev freed : Registry
freed = record {
  slots = [];
  receipts = ("cleanup-receipt", receipt) ∷ [];
  tombstones =
      (
        "lease",
        record {
          issued = handle;
          current = record handle { state = HandleState.revoked };
          receipt = some receipt;
        },
      )
      ∷ [];
  drawn = 3;
  objects = 1;
}

cleaned : apply_cleanup host 10 held "op" (handle ∷ []) cleanup ≡ ok (freed, some receipt)
unfolding apply_cleanup prepare_cleanup plan plan_resource stage new_receipt receipt_is_valid commit
    check_unchanged finish_all finish Dict.get Dict.set Dict.delete cleanup_is_valid cleanup_covers
    String_discrete ℕ_discrete Handle_discrete HandleState_discrete resource_key kind_name concat
cleaned = refl

verify-apply_cleanup_example :
    (is_complete_cleanup cleanup ≡ true)
      × ((r : Receipt) × (some receipt ≡ some r) × (verify freed r (handle ∷ []) ≡ ok tt))
    ⊎ (is_complete_cleanup cleanup ≡ false) × (some receipt ≡ none)
verify-apply_cleanup_example = verify-apply_cleanup host 10 held "op" (handle ∷ []) cleanup cleaned

device_at :
    Dict.get (resource_key device) held.slots
    ≡ some (record { issued = handle; current = handle; object = 0 })
unfolding Dict.get String_discrete resource_key
device_at = refl

held-IsSound : IsSound held.slots held.objects
held-IsSound =
    acquire-IsSound host empty_registry session "op" (device ∷ []) 50 granted empty-IsSound

Reachable-IsSound_example : IsSound held.slots held.objects
Reachable-IsSound_example =
    Reachable-IsSound host
      (Reachable.acquired session "op" (device ∷ []) 50 Reachable.initially granted)

abbrev mine : AuthorityRequest
mine = own_request host session "op" handle 10

still_active : assert_active (quarantine held "nobody").0 mine ≡ ok tt
unfolding assert_active quarantine issued_to quarantine_all Dict.get String_discrete resource_key
    kind_name concat Handle_discrete HandleState_discrete ℕ_discrete
still_active = refl

quarantine_revokes_example : mine.operation_id ≢ "nobody"
quarantine_revokes_example = quarantine_revokes held held-IsSound "nobody" mine still_active

quarantine_marks_example :
    ((handle.operation_id ≡ "op")
      → IsMarked (quarantine held "op").0.slots (resource_key device) handle)
    × ((handle.operation_id ≢ "op")
        → Dict.get (resource_key device) (quarantine held "op").0.slots
          ≡ Dict.get (resource_key device) held.slots)
quarantine_marks_example =
    quarantine_marks held held-IsSound "op" (resource_key device)
      (record { issued = handle; current = handle; object = 0 }) device_at

acquire_authorizes_example :
    All (λ h. assert_active held (own_request host session "op" h 10) ≡ ok tt) (handle ∷ [])
acquire_authorizes_example =
    acquire_authorizes host empty_registry session "op" (device ∷ []) 50 10 granted (omega arith)

acquire-IsOk_iff_example :
    IsOk (acquire host held session "op" (device ∷ []) 50)
    ↔ (Nodup (device ∷ []) × ((r : ResourceRef) → Mem r (device ∷ []) → IsFree held r))
acquire-IsOk_iff_example = acquire-IsOk_iff host held (device ∷ []) session "op" 50

acquire_grants_example :
    Perm (device ∷ []) (device ∷ [])
    × All (IsGrant host session "op" 50) (handle ∷ [])
    × All (IsHeld held.slots) (handle ∷ [])
    × ((r : ResourceRef)
        → ¬ Mem r (device ∷ [])
        → Dict.get (resource_key r) held.slots ≡ Dict.get (resource_key r) empty_registry.slots)
    × (held.receipts ≡ [])
    × (held.tombstones ≡ [])
acquire_grants_example = acquire_grants host empty_registry session "op" (device ∷ []) 50 granted

acquire-apply_cleanup_example : IsOk (acquire host freed session "next" (device ∷ []) 50)
acquire-apply_cleanup_example =
    acquire-apply_cleanup host 10 held "op" (handle ∷ [])
      (record { handle = handle; outcome = released } ∷ []) none cleaned session "next"
      (device ∷ []) 50 (Nodup-cons.1 (not-mem-nil, Nodup-nil)) (λ r m. m)

apply_cleanup-IsCleaned_example : IsCleaned held freed (handle ∷ []) cleanup
apply_cleanup-IsCleaned_example =
    apply_cleanup-IsCleaned host 10 held "op" (handle ∷ []) cleanup cleaned

resource_key_inj_example : device ≡ device
resource_key_inj_example = resource_key_inj device device refl

abbrev prepared : Registry
prepared = record held { drawn = 3 }

abbrev staged : Staged
staged = record {
  receipt = some receipt;
  planned =
      record {
        resource = record { handle = handle; outcome = released };
        key = resource_key device;
        stored = handle;
        object = 0;
      }
      ∷ [];
  committed = false;
}

prepares : prepare_cleanup host 10 active held "op" (handle ∷ []) cleanup ≡ ok (prepared, staged)
unfolding prepare_cleanup plan plan_resource stage new_receipt receipt_is_valid Dict.get
    cleanup_is_valid cleanup_covers String_discrete ℕ_discrete Handle_discrete HandleState_discrete
    resource_key kind_name concat
prepares = refl

commit-quarantine_example : commit (quarantine prepared "op").0 staged ≡ err changed_during_staging
commit-quarantine_example =
    commit-quarantine host 10 held "op" (handle ∷ []) complete
      (record { handle = handle; outcome = released }) [] none held-IsSound prepares

abbrev finished : OperationRecord
finished = record {
  client_session_id = "client";
  principal_id = "principal";
  intent = Intent.mutation;
  context =
      clipboard_context
        (record {
          operation_id = "op";
          client_request_id = "request";
          client_session_id = "client";
          principal_id = "principal";
          generation = host.generation;
          inventory_id = "inventory";
          inventory_revision = 1;
          observation_ref = none;
          deadline_at = 90;
        })
        (Target.clipboard (record { generation = host.generation }));
  state = OperationState.completed;
  outcome = record {
    dispatch = DispatchState.finished;
    target_verified = TargetVerification.verified;
    user_interference = Interference.none_observed;
    observation = ObservationState.available;
    effect = Effect.unverified;
    cleanup = cleanup;
    restoration = Restoration.not_applicable;
    last_checkpoint = none;
    dispatch_attempts = 1;
    ledger_revision = none;
  };
  resources = handle ∷ [];
  payload_receipt = record { key_generation = "key"; hmac_sha256 = "hmac" };
  native_recovery = none;
  registered_at = 1;
  updated_at = 10;
  error = none;
}

is_over : is_terminal finished.state ≡ true
unfolding is_terminal
is_over = refl

can_release-apply_cleanup_example :
    can_release_mutation_lease (λ x hs. returned (verify freed x hs)) finished receipt ≡ some true
can_release-apply_cleanup_example =
    can_release-apply_cleanup host 10 held "op" (handle ∷ []) cleanup cleaned finished is_over refl
      refl refl refl

require-acquire_example :
    require_authorized
      (registry_authority held)
      (handle ∷ [])
      (owner_of host session "op" 10)
      (device ∷ [])
    ≡ ok tt
require-acquire_example =
    require-acquire host empty_registry session "op" (device ∷ []) (device ∷ []) 50 10 granted
      (omega arith) (mem-cons.1 (Or.inl refl), tt)

require-quarantine_example : ¬ IsOk (
    require_authorized
      (registry_authority (quarantine held "op").0)
      (handle ∷ [])
      (owner_of host session "op" 10)
      (device ∷ []))
require-quarantine_example =
    require-quarantine held held-IsSound (owner_of host session "op" 10) (handle ∷ []) device []

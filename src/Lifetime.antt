-- ===== src/Lifetime.antt =====
-- runtime/src/lifetime-state.ts and the reservation handle of shared/src/contracts/reservations.ts:
-- the record of a browser that is owned beyond one operation, its refinements, and which record may
-- follow another.
pub mod Persist
pub mod Moves
pub mod Writes
pub mod Readable
pub mod History
pub mod Ownership
mod Tests
use ai_macos.Base.{
  ℕ, String, Bool, true, false, ◌&&◌, ◌||◌, Option, none, some, List, [], ◌∷◌, ◌==◌, nat_eq,
  string_eq, Eq, leb, ltb, negate, includes, repeats, length, Result, ok, ◌>>=◌, ◌>>◌, reject_if,
  if◌then◌else◌, ℕ_discrete, String_discrete,
}
use ai_macos.Identity.{BrowserInstanceRef, DeviceBrowserInstanceRef}

-- `lifetimePhysicalOwnershipKeySchema`; the `remoteSocket` of a forward is a literal.
pub data EndpointHost : Type 0 where
  loopback_v4 localhost loopback_v6 : EndpointHost

pub data OwnershipKey : Type 0 where
  chrome_cdp :
      (endpoint_host : EndpointHost) → (endpoint_port : ℕ) → (profile_path : String) → OwnershipKey
  android_forward : (serial : String) → (local_port : ℕ) → OwnershipKey

-- `lifetimeStableOwnerSchema`
pub data StableOwner : Type 0 where
  browser : (browser_instance_ref : String) → StableOwner
  device_browser :
      (device_ref : String) → (serial : String) → (browser_instance_ref : String) → StableOwner

-- The `target` of `lifetimeReservationHandleSchema`
pub data LifetimeTarget : Type 0 where
  browser_instance : BrowserInstanceRef → LifetimeTarget
  device_browser_instance : DeviceBrowserInstanceRef → LifetimeTarget

-- Its `externalGeneration`
pub data ExternalGeneration : Type 0 where
  browser_generation : (browser_transport : String) → ExternalGeneration
  device_generation :
      (device_transport : String) → (browser_transport : String) → ExternalGeneration

-- The `state` of a handle
pub data HandleState : Type 0 where
  active quarantined released : HandleState

-- `lifetimeReservationHandleSchema`
pub record ReservationHandle : Type 0 where
  pub reservation_id : String
  pub reservation_generation : String
  pub runtime_epoch : String
  pub login_session_id : String
  pub principal_id : String
  pub lineage_ref : String
  pub target : LifetimeTarget
  pub external_generation : ExternalGeneration
  pub created_at : ℕ
  pub expires_at : ℕ
  pub state : HandleState
  pub status_revision : ℕ

-- The `state` of a record
pub data LifetimeState : Type 0 where
  connecting active quarantined released : LifetimeState

-- `lifetimeStateRecordSchema`
pub record LifetimeRecord : Type 0 where
  pub runtime_epoch : String
  pub login_session_id : String
  pub binding_id : String
  pub owner : StableOwner
  pub config_fingerprint : String
  pub physical_ownership_key : OwnershipKey
  pub lineage_id : String
  pub operation_id : String
  pub initial_target : LifetimeTarget
  pub target : LifetimeTarget
  pub handle : Option ReservationHandle
  pub state : LifetimeState
  pub revision : ℕ
  pub operation_ids : List String
  pub updated_at : ℕ

unfoldable pub OwnershipKey_discrete : Discrete OwnershipKey
OwnershipKey_discrete = hlevel (String_discrete, ℕ_discrete)

unfoldable pub StableOwner_discrete : Discrete StableOwner
StableOwner_discrete = hlevel (String_discrete, ℕ_discrete)

unfoldable pub LifetimeTarget_discrete : Discrete LifetimeTarget
LifetimeTarget_discrete = hlevel (String_discrete, ℕ_discrete)

unfoldable pub LifetimeState_discrete : Discrete LifetimeState
LifetimeState_discrete = hlevel (String_discrete, ℕ_discrete)

instance abbrev pub ownership_key_eq : Eq OwnershipKey
ownership_key_eq = record { decide = OwnershipKey_discrete }

instance abbrev pub stable_owner_eq : Eq StableOwner
stable_owner_eq = record { decide = StableOwner_discrete }

instance abbrev pub lifetime_target_eq : Eq LifetimeTarget
lifetime_target_eq = record { decide = LifetimeTarget_discrete }

instance abbrev pub lifetime_state_eq : Eq LifetimeState
lifetime_state_eq = record { decide = LifetimeState_discrete }

pub data LifetimeError : Type 0 where
  invalid_record stale_revision immutable_changed forbidden_transition : LifetimeError
  capacity_exceeded file_too_large : LifetimeError
  invalid_file wrong_filename wrong_checksum record_vanished : LifetimeError

-- `int().min(1).max(65_535)`
abbrev is_port : ℕ → Bool
is_port n = leb 1 n && leb n 65535

abbrev ports_are_valid : OwnershipKey → Bool
ports_are_valid (chrome_cdp host port profile) = is_port port
ports_are_valid (android_forward serial port) = is_port port

-- `int().safe()`
abbrev is_safe : ℕ → Bool
is_safe n = ltb n 9007199254740992

abbrev pub has_handle : Option ReservationHandle → Bool
has_handle none = false
has_handle (some handle) = true

abbrev handle_is_valid : Option ReservationHandle → Bool
handle_is_valid none = true
handle_is_valid (some handle) = is_safe handle.status_revision

-- A connecting record has no handle yet, an active one needs it.
abbrev state_fits_handle : LifetimeState → Option ReservationHandle → Bool
state_fits_handle LifetimeState.connecting handle = negate (has_handle handle)
state_fits_handle LifetimeState.active handle = has_handle handle
state_fits_handle _ handle = true

-- The ownership domain is that of the target.
abbrev key_fits_target : OwnershipKey → LifetimeTarget → Bool
key_fits_target (chrome_cdp host port profile) (browser_instance ref) = true
key_fits_target (android_forward serial port) (device_browser_instance ref) = true
key_fits_target _ _ = false

-- The owner is that of the target.
abbrev owner_fits_target : StableOwner → LifetimeTarget → Bool
owner_fits_target (browser name) (browser_instance ref) = name == ref.browser_instance_ref
owner_fits_target (device_browser device serial name) (device_browser_instance ref) =
    (device == ref.device.device_ref)
    && (serial == ref.device.serial)
    && (name == ref.browser_instance_ref)
owner_fits_target _ _ = false

-- What `lifetimeStateRecordSchema` accepts.
unfoldable pub record_is_valid : LifetimeRecord → Bool
record_is_valid r =
    ports_are_valid r.physical_ownership_key
    && handle_is_valid r.handle
    && (leb 1 r.revision && is_safe r.revision)
    && (leb 1 (length r.operation_ids) && leb (length r.operation_ids) 10000)
    && state_fits_handle r.state r.handle
    && negate (repeats r.operation_ids)
    && key_fits_target r.physical_ownership_key r.target
    && owner_fits_target r.owner r.target

-- The table `allowed` of `assertLifetimeTransition`.
abbrev pub allowed : LifetimeState → List LifetimeState
allowed connecting =
    LifetimeState.connecting ∷ LifetimeState.active ∷ LifetimeState.quarantined ∷ []
allowed active = LifetimeState.active ∷ LifetimeState.quarantined ∷ LifetimeState.released ∷ []
allowed quarantined = LifetimeState.quarantined ∷ LifetimeState.released ∷ []
allowed released = []

-- The immutable fields, compared by their canonical texts.
unfoldable pub same_life : LifetimeRecord → LifetimeRecord → Bool
same_life previous next =
    (previous.binding_id == next.binding_id)
    && (previous.owner == next.owner)
    && (previous.config_fingerprint == next.config_fingerprint)
    && (previous.physical_ownership_key == next.physical_ownership_key)
    && (previous.lineage_id == next.lineage_id)
    && (previous.operation_id == next.operation_id)
    && (previous.initial_target == next.initial_target)

-- `assertLifetimeTransition`
unfoldable pub assert_transition : LifetimeRecord → LifetimeRecord → Result LifetimeError (Unit {0})
assert_transition previous next =
    let continued = (do
      reject_if (negate (same_life previous next)) immutable_changed
      reject_if (negate (includes (allowed previous.state) next.state)) forbidden_transition) in
    do
      reject_if (leb next.revision previous.revision) stale_revision
      if negate (previous.state == LifetimeState.released) then continued else ok tt

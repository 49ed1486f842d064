-- ===== src/Operation.antt =====
-- shared/src/contracts/operations.ts: client sessions, operation states and their transitions,
-- outcomes, and the records that the runtime keeps and writes to its journal.
pub mod Transitions
pub mod Record
use ai_macos.Base.{
  ℕ, String, Bool, true, false, ◌&&◌, Option, Eq, leb, ltb, ℕ_discrete, String_discrete,
}
use ai_macos.Identity.{
  Generation, NativeGeneration, NativeTarget, Target, FenceToken, browser_instance, browser_target,
  device, device_browser_instance, device_browser_target, clipboard, same_runtime_generation,
  same_native_generation, fence_matches_generation, target_native_generation,
  target_runtime_generation,
}

-- `RuntimeClientSession`
pub record ClientSession : Type 0 where
  pub client_session_id : String
  pub principal_id : String
  pub generation : Generation
  pub open generation use *
  pub authentication_generation : String
  pub authenticated_at : ℕ
  pub expires_at : ℕ

unfoldable pub session_is_valid : ClientSession → Bool
session_is_valid s = ltb s.authenticated_at s.expires_at

unfoldable pub ClientSession_discrete : Discrete ClientSession
ClientSession_discrete = hlevel (String_discrete, ℕ_discrete)

instance abbrev pub client_session_eq : Eq ClientSession
client_session_eq = record { decide = ClientSession_discrete }

pub record ObservationRef : Type 0 where
  pub observation_id : String
  pub inventory_revision : ℕ
  pub display_layout_revision : ℕ
  pub proof_ref : String

-- `commonOperationContextShape`
pub record CommonContext : Type 0 where
  pub operation_id : String
  pub client_request_id : String
  pub client_session_id : String
  pub principal_id : String
  pub generation : Generation
  pub open generation use *
  pub inventory_id : String
  pub inventory_revision : ℕ
  pub observation_ref : Option ObservationRef
  pub deadline_at : ℕ

-- `SerializableOperationContext`
pub data Context : Type 0 where
  native : CommonContext → NativeTarget → (native_generation : String) → FenceToken → Context
  browser_context : CommonContext → Target → Context
  device_context : CommonContext → Target → Context
  clipboard_context : CommonContext → Target → Context

abbrev pub common : Context → CommonContext
common (native c t g f) = c
common (browser_context c t) = c
common (device_context c t) = c
common (clipboard_context c t) = c

-- The targets that the schema of each kind of context allows.
abbrev is_browser_kind : Target → Bool
is_browser_kind (browser_instance r) = true
is_browser_kind (browser_target r) = true
is_browser_kind _ = false

abbrev is_device_kind : Target → Bool
is_device_kind (device r) = true
is_device_kind (device_browser_instance r) = true
is_device_kind (device_browser_target r) = true
is_device_kind _ = false

abbrev is_clipboard_kind : Target → Bool
is_clipboard_kind (clipboard r) = true
is_clipboard_kind _ = false

-- The refinements of the four context schemas, with the bounds of the fence's counter.
unfoldable pub context_is_valid : Context → Bool
unfolding same_runtime_generation same_native_generation fence_matches_generation
    target_native_generation target_runtime_generation
context_is_valid (native c t g f) =
    let own : NativeGeneration = record { generation = c.generation; native_generation = g } in
    (leb 1 f.counter && ltb f.counter 9007199254740992)
    && fence_matches_generation f own
    && same_native_generation (target_native_generation t) own
context_is_valid (browser_context c t) =
    is_browser_kind t && same_runtime_generation c.generation (target_runtime_generation t)
context_is_valid (device_context c t) =
    is_device_kind t && same_runtime_generation c.generation (target_runtime_generation t)
context_is_valid (clipboard_context c t) =
    is_clipboard_kind t && same_runtime_generation c.generation (target_runtime_generation t)

unfoldable pub Context_discrete : Discrete Context
Context_discrete = hlevel (String_discrete, ℕ_discrete)

instance abbrev pub context_eq : Eq Context
context_eq = record { decide = Context_discrete }

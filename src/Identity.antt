-- ===== src/Identity.antt =====
-- shared/src/contracts/identities.ts: generations, fences, and the targets of an operation.
use ai_macos.Base.{ℕ, String, Bool, ◌&&◌, Eq, ◌==◌, string_eq, Option, ℕ_discrete, String_discrete}

-- `RuntimeGeneration`
pub record Generation : Type 0 where
  pub runtime_epoch : String
  pub login_session_id : String

pub record NativeGeneration : Type 0 where
  pub generation : Generation
  pub open generation use *
  pub native_generation : String

pub record FenceToken : Type 0 where
  pub native : NativeGeneration
  pub open native use *
  pub counter : ℕ

pub record ProcessRef : Type 0 where
  pub native : NativeGeneration
  pub application_ref : String
  pub pid : ℕ
  pub launched_at : ℕ
  pub registration_nonce : String

pub record ApplicationBundleRef : Type 0 where
  pub native : NativeGeneration
  pub bundle_ref : String
  pub bundle_id : String
  pub path : String
  pub device : String
  pub inode : String
  pub modified_at_ns : String

pub record WindowRef : Type 0 where
  pub native : NativeGeneration
  pub application_ref : String
  pub window_ref : String

pub record SurfaceRef : Type 0 where
  pub native : NativeGeneration
  pub application_ref : String
  pub surface_ref : String
  pub owner_window_ref : Option String

pub record ElementRef : Type 0 where
  pub native : NativeGeneration
  pub application_ref : String
  pub element_ref : String
  pub snapshot_id : String

pub record DisplayRef : Type 0 where
  pub native : NativeGeneration
  pub display_ref : String
  pub display_layout_revision : ℕ

pub record DesktopLayoutRef : Type 0 where
  pub native : NativeGeneration
  pub layout_ref : String
  pub display_layout_revision : ℕ

pub record BrowserInstanceRef : Type 0 where
  pub generation : Generation
  pub browser_instance_ref : String
  pub transport_generation : String

pub record BrowserTargetRef : Type 0 where
  pub instance_ref : BrowserInstanceRef
  pub target_id : String
  pub resource_ref : String

pub record DeviceRef : Type 0 where
  pub generation : Generation
  pub device_ref : String
  pub serial : String
  pub transport_generation : String

pub record DeviceBrowserInstanceRef : Type 0 where
  pub device : DeviceRef
  pub browser_instance_ref : String
  pub browser_transport_generation : String

pub record DeviceBrowserTargetRef : Type 0 where
  pub instance_ref : DeviceBrowserInstanceRef
  pub target_id : String
  pub resource_ref : String

-- The `clipboardRef` of a clipboard is the literal "system".
pub record ClipboardRef : Type 0 where
  pub generation : Generation

-- `NativeOperationTarget`
pub data NativeTarget : Type 0 where
  application_bundle : ApplicationBundleRef → NativeTarget
  application : ProcessRef → NativeTarget
  window : WindowRef → NativeTarget
  surface : SurfaceRef → NativeTarget
  element : ElementRef → NativeTarget
  display : DisplayRef → NativeTarget
  desktop_layout : DesktopLayoutRef → NativeTarget

-- `OperationTarget`
pub data Target : Type 0 where
  native_target : NativeTarget → Target
  browser_instance : BrowserInstanceRef → Target
  browser_target : BrowserTargetRef → Target
  device : DeviceRef → Target
  device_browser_instance : DeviceBrowserInstanceRef → Target
  device_browser_target : DeviceBrowserTargetRef → Target
  clipboard : ClipboardRef → Target

-- The generation in the `ref` of a native target.
unfoldable pub target_native_generation : NativeTarget → NativeGeneration
target_native_generation (application_bundle r) = r.native
target_native_generation (application r) = r.native
target_native_generation (window r) = r.native
target_native_generation (surface r) = r.native
target_native_generation (element r) = r.native
target_native_generation (display r) = r.native
target_native_generation (desktop_layout r) = r.native

-- `targetRuntimeGeneration`
unfoldable pub target_runtime_generation : Target → Generation
unfolding target_native_generation
target_runtime_generation (native_target t) = (target_native_generation t).generation
target_runtime_generation (browser_instance r) = r.generation
target_runtime_generation (browser_target r) = r.instance_ref.generation
target_runtime_generation (device r) = r.generation
target_runtime_generation (device_browser_instance r) = r.device.generation
target_runtime_generation (device_browser_target r) = r.instance_ref.device.generation
target_runtime_generation (clipboard r) = r.generation

-- `sameRuntimeGeneration`
unfoldable pub same_runtime_generation : Generation → Generation → Bool
same_runtime_generation a b =
    (a.runtime_epoch == b.runtime_epoch) && (a.login_session_id == b.login_session_id)

-- `sameNativeGeneration`
unfoldable pub same_native_generation : NativeGeneration → NativeGeneration → Bool
unfolding same_runtime_generation
same_native_generation a b =
    same_runtime_generation a.generation b.generation
    && (a.native_generation == b.native_generation)

-- `fenceMatchesGeneration`
unfoldable pub fence_matches_generation : FenceToken → NativeGeneration → Bool
unfolding same_native_generation
fence_matches_generation fence generation = same_native_generation fence.native generation

-- `structurallyEqual` on fences and targets.
unfoldable pub FenceToken_discrete : Discrete FenceToken
FenceToken_discrete = hlevel (String_discrete, ℕ_discrete)

instance abbrev pub fence_eq : Eq FenceToken
fence_eq = record { decide = FenceToken_discrete }

unfoldable pub NativeTarget_discrete : Discrete NativeTarget
NativeTarget_discrete = hlevel (String_discrete, ℕ_discrete)

unfoldable pub Target_discrete : Discrete Target
Target_discrete = hlevel (String_discrete, ℕ_discrete)

instance abbrev pub target_eq : Eq Target
target_eq = record { decide = Target_discrete }

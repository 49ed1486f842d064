-- ===== src/Input/Prepared/Tests.antt =====
-- A hover that is prepared, to which the theorem applies.
use ai_macos.Base.{
  ℕ, ◌≡◌, refl, true, Option, some, [], ◌∷◌, ◌==◌, nat_eq, string_eq, ok, concat, String_discrete,
  ℕ_discrete,
}
use ai_macos.Identity.{
  Generation, NativeGeneration, NativeTarget, window, native_target, Target_discrete,
  same_native_generation, same_runtime_generation, target_native_generation,
}
use ai_macos.Resource.{Handle, HandleState, ResourceKind}
use ai_macos.Operation.{ClientSession, ObservationRef}
use ai_macos.Registry.Requirements.{require_authorized, ResourceKind_discrete}
use ai_macos.Input.{TextHost, Numbers}
use ai_macos.Input.Pointer.{Point, plan_hover, normalize_point}
use ai_macos.Input.Budget.{InputAction, InputPlan, plan_input_action}
use ai_macos.Input.Authorize.{
  action_is_valid, InputContext, TargetResolution, PointSpace, AuthorizedPoint, Preparation,
  PreparedAction, authorize_context, target_matches,
}
use ai_macos.Input.Prepare.{
  target_is_current, point_is_bound, assert_target, authorize_points, authorize_pointer,
  admit_action, bind_action, prepare_action,
}
use ai_macos.Input.Prepared.{IsPrepared, prepare_action-IsPrepared}

abbrev generation : Generation
generation = record { runtime_epoch = "epoch"; login_session_id = "login" }

abbrev own : NativeGeneration
own = record { generation = generation; native_generation = "native" }

abbrev target : NativeTarget
target = window (record { native = own; application_ref = "app"; window_ref = "window" })

abbrev session : ClientSession
session = record {
  client_session_id = "client";
  principal_id = "principal";
  generation = generation;
  authentication_generation = "auth";
  authenticated_at = 1;
  expires_at = 100;
}

abbrev observation : ObservationRef
observation = record {
  observation_id = "observation";
  inventory_revision = 1;
  display_layout_revision = 1;
  proof_ref = "proof";
}

abbrev handle : Handle
handle = record {
  resource = record { kind = ResourceKind.desktop_input; resource_ref = "desktop" };
  lease_id = "lease";
  lease_generation = "lease-generation";
  operation_id = "op";
  client_session_id = "client";
  principal_id = "principal";
  generation = generation;
  expires_at = 50;
  state = HandleState.active;
}

abbrev context : Option ObservationRef → InputContext
context ref = record {
  session = session;
  shared = record {
    operation_id = "op";
    client_request_id = "request";
    client_session_id = "client";
    principal_id = "principal";
    generation = generation;
    inventory_id = "inventory";
    inventory_revision = 1;
    observation_ref = ref;
    deadline_at = 90;
  };
  target = target;
  native_generation = "native";
  resources = handle ∷ [];
}

abbrev numbers : Numbers ℕ
numbers = record { zero_number = 0; is_finite = λ n. true; is_zero = λ n. n == 0 }

abbrev host : TextHost
host = record {
  lower_case = λ s. s;
  units = λ s. 1;
  split_plus = λ s. s ∷ [];
  trim = λ s. s;
  segment = λ t. [];
}

abbrev resolution : TargetResolution
resolution = record {
  target = native_target target;
  resolution_id = "resolution";
  proof_ref = "proof";
  inventory_id = "inventory";
  inventory_revision = 1;
  display_layout_revision = 1;
  native_generation = some "native";
}

abbrev place : Point ℕ
place = record { x = 3; y = 4 }

abbrev bound : AuthorizedPoint ℕ
bound = record {
  authorized = true;
  observation_id = "observation";
  image_point = place;
  interaction_target = native_target target;
  space =
      PointSpace.macos_screen
        (record { native = own; display_ref = "display"; display_layout_revision = 1 });
  capture_target = native_target target;
  destination_point = record { x = 30; y = 40 };
  ownership_proof_ref = "ownership";
}

abbrev preparation : Preparation ℕ
preparation = record {
  generation = generation;
  is_ready = λ capability. true;
  schema_message = λ a. "schema";
  checkpoint = λ stage. ok tt;
  session_active = λ s now. ok tt;
  resources = record { assert_active = λ q. ok tt; assert_owned_set = λ op hs. ok tt };
  resolve = λ c. ok resolution;
  resolve_point = λ c ref image. ok bound;
  clip = λ s. s;
  plan_message = λ e. "plan";
  resource_message = λ r. "resource";
  show_index = λ n. "0";
}

abbrev prepared : PreparedAction ℕ
prepared = record {
  action = InputAction.hover place;
  plan = InputPlan.hover_plan place;
  target = resolution;
  points = bound ∷ [];
}

prepares :
    prepare_action numbers host preparation
      (context (some observation))
      (InputAction.hover place)
      10
    ≡ ok prepared
unfolding action_is_valid prepare_action admit_action bind_action assert_target authorize_pointer
    authorize_points point_is_bound target_is_current target_matches authorize_context
    require_authorized plan_input_action plan_hover normalize_point concat String_discrete
    ℕ_discrete Target_discrete ResourceKind_discrete same_native_generation same_runtime_generation
    target_native_generation
prepares = refl

prepare_action-IsPrepared_example :
    IsPrepared numbers host preparation
      (context (some observation))
      (InputAction.hover place)
      10
      prepared
prepare_action-IsPrepared_example =
    prepare_action-IsPrepared numbers host preparation (context (some observation))
      (InputAction.hover place) 10 prepares

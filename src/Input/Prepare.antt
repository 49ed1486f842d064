-- ===== src/Input/Prepare.antt =====
-- The checks of a target and of the points of an action, and `prepareInputAction` itself
-- (input/src/authorization.ts). The texts of messages leave out what their template strings insert.
use ai_macos.Base.{
  ℕ, String, ◌+◌, Bool, true, false, ◌&&◌, ◌||◌, Option, none, some, List, [], ◌∷◌, Eq, ◌==◌,
  nat_eq, string_eq, negate, concat, Result, ok, ◌>>=◌, ◌>>◌, or_throw, reject_if,
}
use ai_macos.Identity.{native_target, target_eq, same_native_generation}
use ai_macos.Failure.{
  ContractError, invalid_request, unauthorized, target_stale, observation_stale, proof_invalid,
  lease_revoked, capability_unavailable, cancelled,
}
use ai_macos.Operation.{ObservationRef}
use ai_macos.Registry.Requirements.{require_authorized}
use ai_macos.Input.{TextHost, Numbers}
use ai_macos.Input.Pointer.{Point}
use ai_macos.Input.Budget.{InputAction, plan_input_action}
use ai_macos.Input.Authorize.{
  action_is_valid, InputContext, TargetResolution, PointSpace, macos_screen, other_space,
  AuthorizedPoint, Preparation, PreparedAction, capability_of, pointer_points, is_pointer_target,
  is_keyboard_target, own_generation, target_matches, desktop_input, input_owner, attempt, fail,
  authorize_context, thrown_of, planned_as,
}

abbrev is_generation : Option String → String → Bool
is_generation none g = false
is_generation (some h) g = h == g

-- The layout of a resolution against that of the observation, if there is one.
abbrev same_layout : Option ObservationRef → ℕ → Bool
same_layout none layout = true
same_layout (some ref) layout = layout == ref.display_layout_revision

-- The first condition of `assertTargetResolution`.
unfoldable pub target_is_current : InputContext → TargetResolution → Bool
target_is_current c t =
    (t.target == native_target c.target)
    && (t.inventory_id == c.shared.inventory_id)
    && (t.inventory_revision == c.shared.inventory_revision)
    && is_generation t.native_generation c.native_generation
    && same_layout c.shared.observation_ref t.display_layout_revision

-- The conditions on the space of a point.
abbrev space_is_current : InputContext → ObservationRef → PointSpace → Bool
space_is_current c ref (macos_screen d) =
    same_native_generation d.native (own_generation c)
    && (d.display_layout_revision == ref.display_layout_revision)
space_is_current c ref other_space = false

module _ {N : Type 0} ⦃e : Eq N⦄ (numbers : Numbers N) (host : TextHost) where
  -- What `assertAuthorizedPoint` asks of a point.
  unfoldable pub point_is_bound : InputContext → ObservationRef → Point N → AuthorizedPoint N → Bool
  point_is_bound c ref image point =
      point.authorized
      && (point.observation_id == ref.observation_id)
      && (point.image_point.x == image.x)
      && (point.image_point.y == image.y)
      && (point.interaction_target == native_target c.target)
      && space_is_current c ref point.space
      && target_matches point.capture_target c
      && numbers.is_finite point.destination_point.x
      && numbers.is_finite point.destination_point.y
      && negate (host.units point.ownership_proof_ref == 0)

  module _ (p : Preparation N) where
    -- `assertTargetResolution`
    unfoldable pub assert_target : InputContext → TargetResolution → Result ContractError (Unit {0})
    assert_target c t = do
      reject_if (negate (target_is_current c t)) (
          fail p "Target resolution не совпадает с operation target/generations/revisions"
            target_stale "input-target-binding")
      reject_if (host.units t.proof_ref == 0 || host.units t.resolution_id == 0) (
          fail p "Target resolution не содержит authority proof" proof_invalid
            "input-target-binding")

    abbrev numbered : String → ℕ → String
    numbered stage index = concat stage (p.show_index index)

    -- The loop over the points, from the index of the first on.
    unfoldable pub authorize_points :
        InputContext
        → ObservationRef
        → ℕ
        → List (Point N)
        → Result ContractError (List (AuthorizedPoint N))
    authorize_points c ref index [] = ok []
    authorize_points c ref index (image ∷ images) =
        let later = authorize_points c ref (index + 1) images in
        do
          attempt p (p.checkpoint (numbered "input.authorize-point." index)) cancelled
              (numbered "input-authorize-point." index)
          point ←
              attempt p (p.resolve_point c ref image) proof_invalid
                (numbered "input-point-proof." index)
          reject_if (negate (point_is_bound c ref image point)) (
              fail p (numbered "Authorized point не связан: " index) proof_invalid
                (numbered "input-point-binding." index))
          points ← later
          ok (point ∷ points)

    -- `authorizePointerAction`
    unfoldable pub authorize_pointer :
        InputContext → List (Point N) → Result ContractError (List (AuthorizedPoint N))
    authorize_pointer c images = do
      reject_if (negate (is_pointer_target c.target))
          (fail p "Pointer action не поддерживает target" invalid_request "input-target")
      ref ←
          or_throw c.shared.observation_ref
            (fail p "Pointer action требует observationRef" observation_stale "input-observation")
      authorize_points c ref 0 images

    -- `authorizeKeyboardTarget`
    unfoldable pub authorize_keyboard :
        InputContext → Result ContractError (List (AuthorizedPoint N))
    authorize_keyboard c = do
      reject_if (negate (is_keyboard_target c.target))
          (fail p "Действие не поддерживает target" invalid_request "input-target")
      ok []

    abbrev pub authorize_action :
        InputContext → Option (List (Point N)) → Result ContractError (List (AuthorizedPoint N))
    authorize_action c (some images) = authorize_pointer c images
    authorize_action c none = authorize_keyboard c

    -- The checks before the target is resolved.
    unfoldable pub admit_action : InputContext → InputAction N → ℕ → Result ContractError (Unit {0})
    admit_action c action now = do
      reject_if (negate (action_is_valid numbers host action))
          (fail p (p.schema_message action) invalid_request "input-parse")
      attempt p (p.checkpoint "input.authorize-context") unauthorized "input-authority"
      attempt p (authorize_context p c now) unauthorized "input-authority"
      reject_if (negate (p.is_ready (capability_of action)))
          (fail p "Adapter capability не готова" capability_unavailable "input-capability")
      attempt p
          (thrown_of p
            (require_authorized p.resources c.resources (input_owner c now) (desktop_input ∷ [])))
          lease_revoked "input-resource"

    -- The checks from there on.
    unfoldable pub bind_action :
        InputContext → InputAction N → Result ContractError (PreparedAction N)
    bind_action c action = do
      attempt p (p.checkpoint "input.resolve-target") cancelled "input-resolve-target"
      target ← attempt p (p.resolve c) target_stale "input-target"
      plan ← planned_as p (plan_input_action numbers host action)
      assert_target c target
      points ← authorize_action c (pointer_points action)
      attempt p (p.checkpoint "input.ready-dispatch") cancelled "input-ready-dispatch"
      ok (record { action = action; plan = plan; target = target; points = points })

    -- `prepareInputAction`
    unfoldable pub prepare_action :
        InputContext → InputAction N → ℕ → Result ContractError (PreparedAction N)
    prepare_action c input now = admit_action c input now >> bind_action c input

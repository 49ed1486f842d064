-- ===== src/Input/Prepared.antt =====
-- What holds of an input action that `prepareInputAction` returns (input/src/authorization.ts).
mod Tests
use ai_macos.Base.{
  ℕ, String, ◌+◌, ◌≡◌, refl, sym, ap, subst, ◌∙◌, inl, inr, Bool, true, false, Option, none, some,
  List, [], ◌∷◌, Eq, ◌==◌, nat_eq, string_eq, arith, map, Result, ok, err, Result-cases,
  Option-cases, Bool-cases,
}
use ai_macos.Identity.{Target, native_target}
use ai_macos.Operation.{ObservationRef}
use ai_macos.Registry.Requirements.{require_authorized}
use ai_macos.Input.{TextHost, Numbers}
use ai_macos.Input.Pointer.{Point}
use ai_macos.Input.Budget.{InputAction, InputPlan, plan_input_action}
use ai_macos.Input.Authorize.{
  action_is_valid, InputContext, TargetResolution, AuthorizedPoint, Preparation, PreparedAction,
  capability_of, pointer_points, is_pointer_target, is_keyboard_target, desktop_input, input_owner,
  authorize_context, thrown_of,
}
use ai_macos.Input.Prepare.{
  target_is_current, point_is_bound, assert_target, authorize_points, authorize_pointer,
  authorize_keyboard, authorize_action, admit_action, bind_action, prepare_action,
}

module _ {N : Type 0} ⦃e : Eq N⦄ (numbers : Numbers N) (host : TextHost) (p : Preparation N)
    (c : InputContext) where
  -- Each point is bound to the image point in its place.
  pub data AreBound (ref : ObservationRef)
      : List (Point N) → List (AuthorizedPoint N) → Type 0 where
    no_points : AreBound ref [] []
    point :
        {image : Point N} {bound : AuthorizedPoint N} {images : List (Point N)}
        {points : List (AuthorizedPoint N)}
        → p.resolve_point c ref image ≡ ok bound
        → point_is_bound numbers host c ref image bound ≡ true
        → AreBound ref images points
        → AreBound ref (image ∷ images) (bound ∷ points)

  admitted :
      (action : InputAction N) (now : ℕ)
      → admit_action numbers host p c action now ≡ ok tt
      → (action_is_valid numbers host action ≡ true)
        × (authorize_context p c now ≡ ok tt)
        × (p.is_ready (capability_of action) ≡ true)
        × (require_authorized p.resources c.resources (input_owner c now) (desktop_input ∷ [])
            ≡ ok tt)
  unfolding admit_action
  admitted action now h = (ground arith, ground arith, ground arith, ground arith)

  pointed :
      (ref : ObservationRef) (index : ℕ) (images : List (Point N))
      {points : List (AuthorizedPoint N)}
      → authorize_points numbers host p c ref index images ≡ ok points
      → AreBound ref images points
  unfolding authorize_points
  pointed ref index [] {points} h =
      let same : [] ≡ points = ground arith in subst (AreBound ref []) same no_points
  pointed ref index (image ∷ images) {points} h =
      elim (Result-cases (p.resolve_point c ref image)) [
        | inr (thrown, failed) ↦ absurd (ground (arith, failed))
        | inl (bound, resolved) ↦
            elim (Result-cases (authorize_points numbers host p c ref (index + 1) images)) [
              | inr (thrown, failed) ↦ absurd (ground (arith, resolved, failed))
              | inl (rest, done) ↦
                  let same : bound ∷ rest ≡ points = ground (arith, resolved, done) in
                  subst (AreBound ref (image ∷ images)) same (
                    point resolved (ground (arith, resolved, done))
                      (pointed ref (index + 1) images {points = rest} done))
            ]
      ]

  -- What an action needs of the target and of the points: a pointer action is bound at each of its
  -- points under the operation's observation, a keyboard action has a window or a surface.
  abbrev pub IsAimed : Option (List (Point N)) → List (AuthorizedPoint N) → Type 0
  IsAimed (some images) points =
      (is_pointer_target c.target ≡ true)
      × ((ref : ObservationRef) × (c.shared.observation_ref ≡ some ref)
          × AreBound ref images points)
  IsAimed none points = (is_keyboard_target c.target ≡ true) × (points ≡ [])

  aimed :
      (images : Option (List (Point N))) {points : List (AuthorizedPoint N)}
      → authorize_action numbers host p c images ≡ ok points
      → IsAimed images points
  unfolding authorize_pointer authorize_keyboard
  aimed none {points} h = (ground arith, ground arith)
  aimed (some images) {points} h = elim (Option-cases c.shared.observation_ref) [
    | inl missing ↦ absurd (ground (arith, missing))
    | inr (ref, observed) ↦ (
      ground (arith, observed),
      (ref, observed, pointed ref 0 images {points = points} (ground (arith, observed))),
    )
  ]

  -- What is known of a prepared action.
  pub record IsPrepared (input : InputAction N) (now : ℕ) (prepared : PreparedAction N)
      : Type 0 where
    pub same : prepared.action ≡ input
    pub valid : action_is_valid numbers host input ≡ true
    pub authorized : authorize_context p c now ≡ ok tt
    pub ready : p.is_ready (capability_of input) ≡ true
    pub leased :
        require_authorized p.resources c.resources (input_owner c now) (desktop_input ∷ []) ≡ ok tt
    pub planned : plan_input_action numbers host input ≡ ok prepared.plan
    pub resolved : p.resolve c ≡ ok prepared.target
    pub current : target_is_current c prepared.target ≡ true
    pub aim : IsAimed (pointer_points input) prepared.points

  bound :
      (action : InputAction N) {prepared : PreparedAction N}
      → bind_action numbers host p c action ≡ ok prepared
      → (prepared.action ≡ action)
        × (plan_input_action numbers host action ≡ ok prepared.plan)
        × (p.resolve c ≡ ok prepared.target)
        × (target_is_current c prepared.target ≡ true)
        × (authorize_action numbers host p c (pointer_points action) ≡ ok prepared.points)
  unfolding bind_action assert_target
  bound action {prepared} h = elim (Result-cases (plan_input_action numbers host action)) [
    | inr (thrown, failed) ↦ absurd (ground (arith, failed))
    | inl (plan, planned) ↦ elim (Result-cases (p.resolve c)) [
      | inr (thrown, failed) ↦ absurd (ground (arith, planned, failed))
      | inl (target, resolved) ↦
          elim (Result-cases (authorize_action numbers host p c (pointer_points action))) [
            | inr (thrown, failed) ↦ absurd (ground (arith, planned, resolved, failed))
            | inl (points, aimed_at) ↦
                let made : PreparedAction N = record {
                  action = action;
                  plan = plan;
                  target = target;
                  points = points;
                } in
                let same : made ≡ prepared = ground (arith, planned, resolved, aimed_at) in
                let current : target_is_current c target ≡ true =
                  ground (arith, planned, resolved, aimed_at) in
                subst
                  (λ (x : PreparedAction N).
                    (x.action ≡ action)
                    × (plan_input_action numbers host action ≡ ok x.plan)
                    × (p.resolve c ≡ ok x.target)
                    × (target_is_current c x.target ≡ true)
                    × (authorize_action numbers host p c (pointer_points action) ≡ ok x.points))
                  same (refl, planned, resolved, current, aimed_at)
          ]
    ]
  ]

  -- An input action that is prepared is valid and planned, for a session that is active and owns the
  -- operation, with a ready capability and an authorized lease of the desktop input, for a target
  -- that is resolved at the operation's inventory, generation and layout; each point of a pointer
  -- action is bound, in order, under the operation's observation, and a keyboard action has a window
  -- or a surface as its target.
  pub prepare_action-IsPrepared :
      (input : InputAction N) (now : ℕ) {prepared : PreparedAction N}
      → prepare_action numbers host p c input now ≡ ok prepared
      → IsPrepared input now prepared
  unfolding prepare_action
  prepare_action-IsPrepared input now {prepared} h =
      elim (Result-cases (admit_action numbers host p c input now)) [
        | inr (thrown, failed) ↦ absurd (ground (arith, failed))
        | inl (passed, done) ↦
            let (valid, authorized, ready, leased) = admitted input now done in
            let (same, planned, resolved, current, aimed_at) =
              bound input {prepared = prepared} (ground (arith, done)) in
            record {
              same = same;
              valid = valid;
              authorized = authorized;
              ready = ready;
              leased = leased;
              planned = planned;
              resolved = resolved;
              current = current;
              aim = aimed (pointer_points input) {points = prepared.points} aimed_at;
            }
      ]

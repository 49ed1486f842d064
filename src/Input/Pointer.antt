-- ===== src/Input/Pointer.antt =====
-- The pointer planners of input/src/action-plan.ts and the actions of input/src/actions.ts that they
-- plan. A coordinate is a JavaScript number, of which the planners ask only what `Numbers` has.
use ai_macos.Base.{
  ℕ, String, ◌+◌, ◌-◌, ◌*◌, ◌/◌, ◌&&◌, ◌||◌, Option, none, some, List, [], ◌∷◌, ◌==◌, nat_eq, leb,
  ltb, negate, length, Result, ok, ◌>>=◌, ◌>>◌, reject_if,
}
use ai_macos.Input.{
  TextHost, Numbers, PlanError, invalid_input, budget_exceeded, too_long, too_many_points,
  short_sequence_ms, drag_points,
}
use ai_macos.Input.Modifiers.{Modifier, normalize_modifiers}

pub record Point (N : Type 0) : Type 0 where
  pub x : N
  pub y : N

pub data MouseButton : Type 0 where
  left right middle : MouseButton

pub data ScrollUnit : Type 0 where
  line pixel : ScrollUnit

pub record ClickPlan (N : Type 0) : Type 0 where
  pub point : Point N
  pub button : MouseButton
  pub count : ℕ

pub record ScrollPlan (N : Type 0) : Type 0 where
  pub anchor : Point N
  pub dx : N
  pub dy : N
  pub unit : ScrollUnit

pub record TimedDragPoint (N : Type 0) : Type 0 where
  pub point : Point N
  pub at_ms : ℕ

pub record DragPlan (N : Type 0) : Type 0 where
  pub button : MouseButton
  pub duration_ms : ℕ
  pub modifiers : List Modifier
  pub trajectory : List (TimedDragPoint N)

-- The arguments of the planners; what is left out has its default.
pub record ClickInput (N : Type 0) : Type 0 where
  pub point : Point N
  pub button : Option MouseButton
  pub count : Option ℕ

pub record ScrollInput (N : Type 0) : Type 0 where
  pub anchor : Point N
  pub dx : Option N
  pub dy : Option N
  pub unit : Option ScrollUnit

pub record DragInput (N : Type 0) : Type 0 where
  pub points : List (Point N)
  pub duration_ms : ℕ
  pub button : Option MouseButton
  pub modifiers : Option (List String)

-- The source's `value ?? default`.
abbrev pub or_default {ℓ} : {A : Type ℓ} → Option A → A → A
or_default none d = d
or_default (some a) d = a

-- `Math.round(a / d)`: half is rounded up. Both numbers are below 2 ^ 22, so that the quotient of
-- the source, a double, is on the same side of each half.
unfoldable pub round_div : ℕ → ℕ → ℕ
round_div a d = (2 * a + d) / (2 * d)

module _ {N : Type 0} (numbers : Numbers N) where
  -- `normalizePoint`
  unfoldable pub normalize_point : Point N → Result PlanError (Point N)
  normalize_point p = do
    reject_if (negate (numbers.is_finite p.x) || negate (numbers.is_finite p.y)) invalid_input
    ok (record { x = p.x; y = p.y })

  -- `planHover`
  unfoldable pub plan_hover : Point N → Result PlanError (Point N)
  plan_hover p = normalize_point p

  -- `planClick`; a button is one of the three.
  unfoldable pub plan_click : ClickInput N → Result PlanError (ClickPlan N)
  plan_click input =
      let count = or_default input.count 1 in
      do
        reject_if (negate (count == 1) && negate (count == 2) && negate (count == 3)) invalid_input
        point ← normalize_point input.point
        ok (record {
          point = point;
          button = or_default input.button MouseButton.left;
          count = count;
        })

  -- `planScroll`
  unfoldable pub plan_scroll : ScrollInput N → Result PlanError (ScrollPlan N)
  plan_scroll input =
      let dx = or_default input.dx numbers.zero_number in
      let dy = or_default input.dy numbers.zero_number in
      do
        reject_if (negate (numbers.is_finite dx) || negate (numbers.is_finite dy)) invalid_input
        reject_if (numbers.is_zero dx && numbers.is_zero dy) invalid_input
        anchor ← normalize_point input.anchor
        ok (record {
          anchor = anchor;
          dx = dx;
          dy = dy;
          unit = or_default input.unit ScrollUnit.line;
        })

  -- `trajectory`, from the index of the first point on.
  unfoldable pub trajectory_from :
      (duration denominator index : ℕ) → List (Point N) → Result PlanError (List (TimedDragPoint N))
  trajectory_from duration denominator index [] = ok []
  trajectory_from duration denominator index (p ∷ points) = do
    point ← normalize_point p
    rest ← trajectory_from duration denominator (index + 1) points
    ok (record { point = point; at_ms = round_div (duration * index) denominator } ∷ rest)

  -- `planDrag`
  unfoldable pub plan_drag : TextHost → DragInput N → Result PlanError (DragPlan N)
  plan_drag host input = do
    reject_if (leb input.duration_ms 0 || ltb short_sequence_ms input.duration_ms)
        (budget_exceeded too_long)
    reject_if (ltb (length input.points) 2) invalid_input
    reject_if (ltb drag_points (length input.points)) (budget_exceeded too_many_points)
    trajectory ← trajectory_from input.duration_ms (length input.points - 1) 0 input.points
    modifiers ← normalize_modifiers host (or_default input.modifiers [])
    ok (record {
      button = or_default input.button MouseButton.left;
      duration_ms = input.duration_ms;
      modifiers = modifiers;
      trajectory = trajectory;
    })

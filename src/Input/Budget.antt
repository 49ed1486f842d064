-- ===== src/Input/Budget.antt =====
-- Budgets of input actions: input/src/action-plan.ts, the actions of input/src/actions.ts with their
-- plans, and `admitPreparedInputBudget` of input/src/authorization.ts.
use ai_macos.Base.{
  ℕ, String, ◌+◌, ◌-◌, ◌*◌, min, List, leb, ltb, length, Result, ok, err, ◌>>=◌, ◌>>◌, reject_if,
}
use ai_macos.Input.{
  TextHost, Numbers, PlanError, short_sequence_ms, typing_ms, budget_exceeded, too_long,
}
use ai_macos.Input.Pointer.{
  Point, ClickInput, ClickPlan, ScrollInput, ScrollPlan, DragInput, DragPlan, plan_hover,
  plan_click, plan_scroll, plan_drag,
}
use ai_macos.Input.Text.{TextInput, TextPlan, plan_text}
use ai_macos.Input.Keyboard.{KeyPlan, ShortcutPlan, ShortcutInput, plan_key, plan_shortcuts}

-- `InputActionKind`
pub data ActionKind : Type 0 where
  pointer keyboard typing : ActionKind

pub record ActionBudget : Type 0 where
  pub started_at_ms : ℕ
  pub deadline_at_ms : ℕ
  pub limit_ms : ℕ

-- `limitMs`
abbrev pub limit_of : ActionKind → ℕ
limit_of typing = typing_ms
limit_of _ = short_sequence_ms

-- `planActionBudget`
unfoldable pub plan_action_budget : ActionKind → (deadline now : ℕ) → Result PlanError ActionBudget
plan_action_budget kind deadline now = do
  reject_if (leb deadline now) (budget_exceeded too_long)
  ok (record {
    started_at_ms = now;
    deadline_at_ms = min deadline (now + limit_of kind);
    limit_ms = limit_of kind;
  })

-- `remainingActionBudget`; the subtraction stops at 0, as `Math.max(0, …)` does.
unfoldable pub remaining_action_budget : ActionBudget → ℕ → ℕ
remaining_action_budget budget now = budget.deadline_at_ms - now

-- `InputAction`
pub data InputAction (N : Type 0) : Type 0 where
  hover : Point N → InputAction N
  click : ClickInput N → InputAction N
  scroll : ScrollInput N → InputAction N
  drag : DragInput N → InputAction N
  text : TextInput → InputAction N
  key : (key : String) → (modifiers : List String) → InputAction N
  shortcut : ShortcutInput → InputAction N

-- `InputActionPlan`
pub data InputPlan (N : Type 0) : Type 0 where
  hover_plan : Point N → InputPlan N
  click_plan : ClickPlan N → InputPlan N
  scroll_plan : ScrollPlan N → InputPlan N
  drag_plan : DragPlan N → InputPlan N
  text_plan : TextPlan → InputPlan N
  key_plan : KeyPlan → InputPlan N
  shortcut_plan : ShortcutPlan → InputPlan N

abbrev pub planned {ℓ} :
    {A : Type 0} {B : Type ℓ} → Result PlanError A → (A → B) → Result PlanError B
planned (err e) f = err e
planned (ok a) f = ok (f a)

-- `planInputAction`
unfoldable pub plan_input_action :
    {N : Type 0} → Numbers N → TextHost → InputAction N → Result PlanError (InputPlan N)
plan_input_action numbers host (hover p) = planned (plan_hover numbers p) hover_plan
plan_input_action numbers host (click input) = planned (plan_click numbers input) click_plan
plan_input_action numbers host (scroll input) = planned (plan_scroll numbers input) scroll_plan
plan_input_action numbers host (drag input) = planned (plan_drag numbers host input) drag_plan
plan_input_action numbers host (text input) = planned (plan_text host input) text_plan
plan_input_action numbers host (key k modifiers) = planned (plan_key host k modifiers) key_plan
plan_input_action numbers host (shortcut input) = planned (plan_shortcuts host input) shortcut_plan

-- `knownPlanDurationMs`
unfoldable pub known_plan_duration : {N : Type 0} → InputPlan N → ℕ
known_plan_duration (drag_plan p) = p.duration_ms
known_plan_duration (text_plan p) = p.estimated_duration_ms
known_plan_duration (shortcut_plan p) = p.delay_ms * (length p.steps - 1)
known_plan_duration _ = 0

-- The kind of the budget of an action.
unfoldable pub kind_of : {N : Type 0} → InputAction N → ActionKind
kind_of (text input) = typing
kind_of (hover p) = pointer
kind_of (click input) = pointer
kind_of (scroll input) = pointer
kind_of (drag input) = pointer
kind_of (key k modifiers) = keyboard
kind_of (shortcut input) = keyboard

-- Why `admitPreparedInputBudget` throws: both are "deadline-exceeded" at "input-budget-admission".
pub data AdmissionError : Type 0 where
  no_budget duration_exceeds_budget : AdmissionError

abbrev pub or_no_budget : Result PlanError ActionBudget → Result AdmissionError ActionBudget
or_no_budget (err e) = err no_budget
or_no_budget (ok budget) = ok budget

-- `admitPreparedInputBudget` on a prepared action and its plan.
unfoldable pub admit_budget :
    {N : Type 0}
    → InputAction N
    → InputPlan N
    → (deadline now : ℕ) → Result AdmissionError ActionBudget
admit_budget action plan deadline now = do
  budget ← or_no_budget (plan_action_budget (kind_of action) deadline now)
  reject_if (ltb (remaining_action_budget budget now) (known_plan_duration plan))
      duration_exceeds_budget
  ok budget

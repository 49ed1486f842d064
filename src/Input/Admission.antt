-- ===== src/Input/Admission.antt =====
-- What the plans and the budgets of input actions promise (input/src/action-plan.ts and
-- `admitPreparedInputBudget` of input/src/authorization.ts).
use ai_macos.Base.{
  ℕ, ◌+◌, ◌-◌, ◌*◌, ◌≤◌, ◌<◌, ◌≡◌, refl, ◌↔◌, inl, inr, arith, length, Result, ok, err, IsOk,
  Result-cases, nat_eq, string_eq,
}
use ai_macos.Input.{TextHost, Numbers, PlanError}
use ai_macos.Input.Pointer.{plan_hover, plan_click, plan_scroll, plan_drag}
use ai_macos.Input.Text.{plan_text}
use ai_macos.Input.Keyboard.{ShortcutInput, ShortcutPlan, plan_key, plan_shortcuts, plan_steps}
use ai_macos.Input.Drag.{drags}
use ai_macos.Input.Chunks.{planned as text_facts}
use ai_macos.Input.Budget.{
  ActionKind, ActionBudget, limit_of, plan_action_budget, remaining_action_budget, InputAction,
  hover, click, scroll, drag, text, key, shortcut, InputPlan, plan_input_action,
  known_plan_duration, kind_of, admit_budget, planned,
}

module _ {N : Type 0} (action : InputAction N) (plan : InputPlan N) (deadline now : ℕ) where
  -- A plan is admitted exactly when the operation's deadline is still to come, the plan's known
  -- duration ends by then, and it is within the limit of its kind of action.
  pub admit-IsOk_iff :
      IsOk (admit_budget action plan deadline now)
      ↔ (now < deadline)
        × (now + known_plan_duration plan ≤ deadline)
        × (known_plan_duration plan ≤ limit_of (kind_of action))
  unfolding admit_budget plan_action_budget remaining_action_budget
  admit-IsOk_iff = ((λ h. ground arith), λ h. ground arith)

  -- What an admitted plan is known to take fits between now and the deadline of its budget, which is
  -- not after that of the operation and not longer than the limit of its kind of action.
  pub admit-bounds :
      {budget : ActionBudget}
      → admit_budget action plan deadline now ≡ ok budget
      → (budget.started_at_ms ≡ now)
        × (now + known_plan_duration plan ≤ budget.deadline_at_ms)
        × (budget.deadline_at_ms ≤ deadline)
        × (budget.deadline_at_ms ≤ now + limit_of (kind_of action))
  unfolding admit_budget plan_action_budget remaining_action_budget
  admit-bounds h = (ground arith, ground arith, ground arith, ground arith)

module _ (host : TextHost) (input : ShortcutInput) {plan : ShortcutPlan} where
  shortcut_duration :
      plan_shortcuts host input ≡ ok plan → plan.delay_ms * (length plan.steps - 1) ≤ 5000
  unfolding plan_shortcuts
  shortcut_duration h = elim (Result-cases (plan_steps host input.shortcuts)) [
    | inr (e, failed) ↦ absurd (ground (arith, failed))
    | inl (steps, done) ↦ ground (arith, done)
  ]

limit_positive : (kind : ActionKind) → 0 < limit_of kind
limit_positive ActionKind.pointer = omega arith
limit_positive ActionKind.keyboard = omega arith
limit_positive ActionKind.typing = omega arith

module _ {N : Type 0} (numbers : Numbers N) (host : TextHost) where
  planned_as :
      {A : Type 0} (m : Result PlanError A) (f : A → InputPlan N) {plan : InputPlan N}
      → planned m f ≡ ok plan
      → (a : A) × (m ≡ ok a) × (plan ≡ f a)
  planned_as (err e) f h = cc
  planned_as (ok a) f h = (a, refl, ground arith)

  -- No plan is known to take longer than the limit of its kind of action.
  plan_duration :
      (action : InputAction N) {plan : InputPlan N}
      → plan_input_action numbers host action ≡ ok plan
      → known_plan_duration plan ≤ limit_of (kind_of action)
  unfolding plan_input_action known_plan_duration kind_of
  plan_duration (hover p) {plan} h =
      let (a, done, same) =
        planned_as (plan_hover numbers p) InputPlan.hover_plan {plan = plan} h in
      rw same (omega arith)
  plan_duration (click input) {plan} h =
      let (a, done, same) =
        planned_as (plan_click numbers input) InputPlan.click_plan {plan = plan} h in
      rw same (omega arith)
  plan_duration (scroll input) {plan} h =
      let (a, done, same) =
        planned_as (plan_scroll numbers input) InputPlan.scroll_plan {plan = plan} h in
      rw same (omega arith)
  plan_duration (drag input) {plan} h =
      let (a, done, same) =
        planned_as (plan_drag numbers host input) InputPlan.drag_plan {plan = plan} h in
      let (path, kept, two, least, most) = drags numbers host input {plan = a} done in rw same most
  plan_duration (text input) {plan} h =
      let (a, done, same) = planned_as (plan_text host input) InputPlan.text_plan {plan = plan} h in
      let (chunks, schedule, number, estimate, most, units, few) =
        text_facts host input {plan = a} done in
      rw same most
  plan_duration (key k modifiers) {plan} h =
      let (a, done, same) =
        planned_as (plan_key host k modifiers) InputPlan.key_plan {plan = plan} h in
      rw same (omega arith)
  plan_duration (shortcut input) {plan} h =
      let (a, done, same) =
        planned_as (plan_shortcuts host input) InputPlan.shortcut_plan {plan = plan} h in
      rw same (shortcut_duration host input {plan = a} done)

  -- Every action that has a plan is admitted, if the operation's deadline leaves it the whole limit
  -- of its kind: 30 seconds for a text and 5 for any other action.
  pub planned_is_admitted :
      (action : InputAction N) (deadline now : ℕ) {plan : InputPlan N}
      → plan_input_action numbers host action ≡ ok plan
      → now + limit_of (kind_of action) ≤ deadline
      → IsOk (admit_budget action plan deadline now)
  planned_is_admitted action deadline now {plan} h room =
      let fits = plan_duration action {plan = plan} h in
      let some_limit = limit_positive (kind_of action) in
      (admit-IsOk_iff action plan deadline now).1
        (omega (arith, room, some_limit), omega (arith, room, fits), fits)

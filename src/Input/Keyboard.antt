-- ===== src/Input/Keyboard.antt =====
-- `planKey` and `planShortcuts` of input/src/action-plan.ts.
use ai_macos.Base.{
  ℕ, String, ◌-◌, ◌*◌, Bool, ◌&&◌, Option, List, [], ◌∷◌, ◌++◌, ◌==◌, nat_eq, string_eq, leb, ltb,
  negate, length, includes, Result, ok, ◌>>=◌, ◌>>◌, reject_if, or_throw, if◌then◌else◌,
}
use ai_macos.Input.{
  TextHost, PlanError, invalid_input, unsupported_key, budget_exceeded, too_long, too_many_steps,
  short_sequence_ms, shortcut_steps,
}
use ai_macos.Input.Keys.{KeyCode, key_code_of, parse_shortcut, or_flag}
use ai_macos.Input.Modifiers.{Modifier, shift, modifier_eq, flag_of, normalize_modifiers}
use ai_macos.Input.Pointer.{or_default}

pub record KeyPlan : Type 0 where
  pub key : String
  pub key_code : KeyCode
  pub modifiers : List Modifier
  pub modifier_flags : ℕ

pub record ShortcutPlan : Type 0 where
  pub steps : List KeyPlan
  pub delay_ms : ℕ

-- The arguments of `planShortcuts`
pub record ShortcutInput : Type 0 where
  pub shortcuts : List String
  pub delay_ms : Option ℕ

-- `modifierFlags` on canonical names, which have a flag each.
unfoldable pub flags_of : ℕ → List Modifier → ℕ
flags_of flags [] = flags
flags_of flags (m ∷ modifiers) = flags_of (or_flag flags (flag_of m)) modifiers

-- An upper-case letter holds shift.
abbrev pub with_shift : Bool → List Modifier → List Modifier
with_shift is_upper modifiers =
    if is_upper && negate (includes modifiers shift) then modifiers ++ (shift ∷ []) else modifiers

-- `planKey`. It tests only that the code is not undefined.
unfoldable pub plan_key : TextHost → String → List String → Result PlanError KeyPlan
plan_key host key modifiers = do
  code ← or_throw (key_code_of (host.lower_case key)) unsupported_key
  normalized ← normalize_modifiers host modifiers
  let held = with_shift (host.units key == 1 && negate (key == host.lower_case key)) normalized
  ok (record { key = key; key_code = code; modifiers = held; modifier_flags = flags_of 0 held })

-- `steps`
unfoldable pub plan_steps : TextHost → List String → Result PlanError (List KeyPlan)
plan_steps host [] = ok []
plan_steps host (shortcut ∷ shortcuts) = do
  parsed ← parse_shortcut host shortcut
  step ← plan_key host parsed.key parsed.modifiers
  rest ← plan_steps host shortcuts
  ok (step ∷ rest)

-- `planShortcuts`
unfoldable pub plan_shortcuts : TextHost → ShortcutInput → Result PlanError ShortcutPlan
plan_shortcuts host input =
    let delay = or_default input.delay_ms 0 in
    do
      reject_if (leb (length input.shortcuts) 0) invalid_input
      reject_if (ltb shortcut_steps (length input.shortcuts)) (budget_exceeded too_many_steps)
      reject_if (ltb short_sequence_ms delay) invalid_input
      steps ← plan_steps host input.shortcuts
      reject_if (ltb short_sequence_ms (delay * (length steps - 1))) (budget_exceeded too_long)
      ok (record { steps = steps; delay_ms = delay })

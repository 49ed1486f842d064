-- ===== src/Input.antt =====
-- input/src: plans of pointer and keyboard actions. This file has the limits and errors of
-- input/src/action-plan.ts and the parts that its planners share. Texts to be typed are lists of
-- UTF-16 units, as a JavaScript string is; durations, delays and counts are natural numbers, as the
-- schemas of input/src/actions.ts have made sure before a planner is called.
pub mod Keys
pub mod Modifiers
pub mod Pointer
pub mod Drag
pub mod Text
pub mod Cut
pub mod Chunks
pub mod Keyboard
pub mod Budget
pub mod Admission
pub mod Refusals
pub mod Authorize
pub mod Prepare
pub mod Prepared
mod Tests
use ai_macos.Base.{ℕ, String, Bool, List}

-- `INPUT_BUDGETS`
abbrev pub short_sequence_ms : ℕ
short_sequence_ms = 5000

abbrev pub typing_ms : ℕ
typing_ms = 30000

abbrev pub typing_utf16_units : ℕ
typing_utf16_units = 10000

-- `INPUT_SEQUENCE_LIMITS`
abbrev pub text_chunk_utf16_units : ℕ
text_chunk_utf16_units = 20

abbrev pub drag_points : ℕ
drag_points = 512

abbrev pub shortcut_steps : ℕ
shortcut_steps = 64

-- `InputPlanErrorCode`, and the `Error` of `parseShortcut` on an empty text. What is too much, which
-- the source says in the message of "budget-exceeded", is `too_long`, `too_many_units` or
-- `too_many_points`.
pub data Excess : Type 0 where
  too_long too_many_units too_many_points too_many_steps : Excess

pub data PlanError : Type 0 where
  invalid_input unsupported_key unsupported_modifier empty_shortcut : PlanError
  budget_exceeded : Excess → PlanError

-- A string as JavaScript counts and cuts it.
abbrev pub Utf16 : Type 0
Utf16 = List ℕ

-- What the planners call on texts: `toLowerCase`, `length`, `split("+")`, `trim`, and the graphemes
-- of `Intl.Segmenter`.
pub record TextHost : Type 0 where
  pub lower_case : String → String
  pub units : String → ℕ
  pub split_plus : String → List String
  pub trim : String → String
  pub segment : Utf16 → List Utf16

-- What the planners ask of a JavaScript number.
pub record Numbers (N : Type 0) : Type 0 where
  pub zero_number : N
  pub is_finite : N → Bool
  pub is_zero : N → Bool

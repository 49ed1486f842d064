-- ===== src/Input/Tests.antt =====
-- Plans of small actions, to which the theorems apply. Texts are cut at every unit here, names and
-- keys are taken as they are.
use ai_macos.Base.{
  ℕ, ◌+◌, ◌≤◌, ◌≡◌, refl, ◌↔◌, true, none, some, List, [], ◌∷◌, map, arith, ok, IsOk, All, ◌==◌,
  select, string_eq, nat_eq, String_discrete, ℕ_discrete,
}
use ai_macos.Base.Dict
use ai_macos.Input.{TextHost, Numbers, Utf16}
use ai_macos.Input.Keys.{modifier_flag, or_flag, key_code_of, code, inherited}
use ai_macos.Input.Modifiers.{
  cmd, shift, modifier_order, is_named, insert, sort, sort_onto, collect, normalize_modifiers,
  normalize_modifiers-eq,
}
use ai_macos.Input.Pointer.{
  MouseButton, TimedDragPoint, DragInput, DragPlan, round_div, normalize_point, trajectory_from,
  plan_drag,
}
use ai_macos.Input.Drag.{IsRising, last_ms, drag_times}
use ai_macos.Input.Text.{
  TextPlan, TextInput, flush, append_grapheme, cut, chunks_of, schedule_from, plan_text,
}
use ai_macos.Input.Cut.{join, counts, text_of, IsChunk}
use ai_macos.Input.Chunks.{text_chunks}
use ai_macos.Input.Keyboard.{plan_key, flags_of}
use ai_macos.Input.Budget.{
  InputAction, InputPlan, limit_of, plan_input_action, kind_of, admit_budget,
}
use ai_macos.Input.Admission.{planned_is_admitted}
use ai_macos.Input.Refusals.{IsFinite, AllKnown, plan_drag-IsOk_iff}

abbrev numbers : Numbers ℕ
numbers = record { zero_number = 0; is_finite = λ n. true; is_zero = λ n. n == 0 }

abbrev units_of : Utf16 → List Utf16
units_of [] = []
units_of (u ∷ text) = (u ∷ []) ∷ units_of text

abbrev host : TextHost
host = record {
  lower_case = λ s. s;
  units = λ s. 1;
  split_plus = λ s. s ∷ [];
  trim = λ s. s;
  segment = units_of;
}

abbrev drag : DragInput ℕ
drag = record {
  points = record { x = 1; y = 2 } ∷ record { x = 3; y = 4 } ∷ record { x = 5; y = 6 } ∷ [];
  duration_ms = 101;
  button = none;
  modifiers = some ("shift" ∷ "command" ∷ "⇧" ∷ []);
}

abbrev drag_plan : DragPlan ℕ
drag_plan = record {
  button = MouseButton.left;
  duration_ms = 101;
  modifiers = cmd ∷ shift ∷ [];
  trajectory =
      record { point = record { x = 1; y = 2 }; at_ms = 0 }
      ∷ record { point = record { x = 3; y = 4 }; at_ms = 51 }
      ∷ record { point = record { x = 5; y = 6 }; at_ms = 101 }
      ∷ [];
}

plans_drag : plan_drag numbers host drag ≡ ok drag_plan
unfolding plan_drag trajectory_from normalize_point round_div normalize_modifiers collect
    modifier_flag sort sort_onto insert Dict.get String_discrete ℕ_discrete
plans_drag = refl

normalizes : normalize_modifiers host ("shift" ∷ "command" ∷ "⇧" ∷ []) ≡ ok (cmd ∷ shift ∷ [])
unfolding normalize_modifiers collect modifier_flag sort sort_onto insert Dict.get String_discrete
    ℕ_discrete
normalizes = refl

normalize_modifiers-eq_example :
    cmd ∷ shift ∷ [] ≡ select (is_named host ("shift" ∷ "command" ∷ "⇧" ∷ [])) modifier_order
normalize_modifiers-eq_example =
    normalize_modifiers-eq host ("shift" ∷ "command" ∷ "⇧" ∷ []) normalizes

-- A key with a modifier: the flags of cmd and shift together.
plans_key :
    plan_key host "a" ("shift" ∷ "cmd" ∷ [])
    ≡ ok (record {
      key = "a";
      key_code = code 0;
      modifiers = cmd ∷ shift ∷ [];
      modifier_flags = 1179648;
    })
unfolding plan_key key_code_of flags_of or_flag normalize_modifiers collect modifier_flag sort
    sort_onto insert Dict.get String_discrete ℕ_discrete
plans_key = refl

-- A key that is no key has a plan without a number.
plans_constructor :
    plan_key host "constructor" []
    ≡ ok (record { key = "constructor"; key_code = inherited; modifiers = []; modifier_flags = 0 })
unfolding plan_key key_code_of flags_of normalize_modifiers collect sort sort_onto Dict.get
    String_discrete ℕ_discrete
plans_constructor = refl

drag_times_example :
    (map (λ (p : TimedDragPoint ℕ). p.point) drag_plan.trajectory ≡ drag.points)
    × IsRising 0 drag_plan.trajectory
    × (last_ms 0 drag_plan.trajectory ≡ 101)
    × (1 ≤ 101)
    × (101 ≤ 5000)
drag_times_example = drag_times numbers host drag plans_drag

plan_drag-IsOk_iff_example :
    IsOk (plan_drag numbers host drag)
    ↔ (1 ≤ 101)
      × (101 ≤ 5000)
      × (2 ≤ 3)
      × (3 ≤ 512)
      × All (IsFinite numbers) drag.points
      × AllKnown host ("shift" ∷ "command" ∷ "⇧" ∷ [])
plan_drag-IsOk_iff_example = plan_drag-IsOk_iff numbers host drag

abbrev text : TextInput
text = record { text = 72 ∷ 105 ∷ 33 ∷ []; delay_ms = some 10; chunk_utf16_units = some 2 }

abbrev text_plan : TextPlan
text_plan = record {
  utf16_units = 3;
  grapheme_count = 3;
  delay_ms = 10;
  estimated_duration_ms = 20;
  soft_chunk_utf16_units = 2;
  chunks =
      record { text = 72 ∷ 105 ∷ []; utf16_units = 2; grapheme_count = 2 }
      ∷ record { text = 33 ∷ []; utf16_units = 1; grapheme_count = 1 }
      ∷ [];
  schedule =
      record { text = 72 ∷ []; utf16_units = 1; at_ms = 0 }
      ∷ record { text = 105 ∷ []; utf16_units = 1; at_ms = 10 }
      ∷ record { text = 33 ∷ []; utf16_units = 1; at_ms = 20 }
      ∷ [];
}

plans_text : plan_text host text ≡ ok text_plan
unfolding plan_text chunks_of cut flush append_grapheme schedule_from
plans_text = refl

text_chunks_example :
    (join (map text_of text_plan.chunks) ≡ text.text)
    × All (IsChunk 2) text_plan.chunks
    × (counts text_plan.chunks ≡ 3)
text_chunks_example =
    text_chunks host text (omega arith, (omega arith, (omega arith, tt))) refl plans_text

abbrev plan : InputPlan ℕ
plan = InputPlan.text_plan text_plan

abbrev action : InputAction ℕ
action = InputAction.text text

plans_action : plan_input_action numbers host action ≡ ok plan
unfolding plan_input_action plan_text chunks_of cut flush append_grapheme schedule_from
plans_action = refl

has_room : 1000 + limit_of (kind_of action) ≤ 31000
unfolding kind_of
has_room = omega arith

planned_is_admitted_example : IsOk (admit_budget action plan 31000 1000)
planned_is_admitted_example =
    planned_is_admitted numbers host action 31000 1000 plans_action has_room

-- ===== src/Input/Text.antt =====
-- `planText` of input/src/action-plan.ts.
use ai_macos.Base.{
  ℕ, ◌+◌, ◌-◌, ◌*◌, ◌&&◌, Option, List, [], ◌∷◌, ◌++◌, leb, ltb, length, Result, ok, ◌>>◌,
  reject_if, if◌then◌else◌,
}
use ai_macos.Input.{
  TextHost, Utf16, PlanError, invalid_input, budget_exceeded, too_long, too_many_units,
  short_sequence_ms, typing_ms, typing_utf16_units, text_chunk_utf16_units,
}
use ai_macos.Input.Pointer.{or_default}

pub record TextChunk : Type 0 where
  pub text : Utf16
  pub utf16_units : ℕ
  pub grapheme_count : ℕ

pub record TextScheduleStep : Type 0 where
  pub text : Utf16
  pub utf16_units : ℕ
  pub at_ms : ℕ

pub record TextPlan : Type 0 where
  pub utf16_units : ℕ
  pub grapheme_count : ℕ
  pub delay_ms : ℕ
  pub estimated_duration_ms : ℕ
  pub soft_chunk_utf16_units : ℕ
  pub chunks : List TextChunk
  pub schedule : List TextScheduleStep

-- The arguments of `planText`; what is left out has its default.
pub record TextInput : Type 0 where
  pub text : Utf16
  pub delay_ms : Option ℕ
  pub chunk_utf16_units : Option ℕ

-- The variables of the loop over the graphemes: `chunks`, `current` and `currentCount`.
pub record Pieces : Type 0 where
  pub chunks : List TextChunk
  pub current : Utf16
  pub current_count : ℕ

-- `flush`
unfoldable pub flush : Pieces → Pieces
flush s = if leb (length s.current) 0 then s else record {
  chunks =
      s.chunks
      ++ (record {
        text = s.current;
        utf16_units = length s.current;
        grapheme_count = s.current_count;
      }
          ∷ []);
  current = [];
  current_count = 0;
}

-- `current += grapheme` and `currentCount++`
unfoldable pub append_grapheme : Pieces → Utf16 → Pieces
append_grapheme s g = record s { current = s.current ++ g; current_count = s.current_count + 1 }

-- The loop over the graphemes.
unfoldable pub cut : ℕ → Pieces → List Utf16 → Pieces
cut limit s [] = s
cut limit s (g ∷ graphemes) =
    let full = ltb 0 (length s.current) && ltb limit (length s.current + length g) in
    cut limit (append_grapheme (if full then flush s else s) g) graphemes

-- `chunks`, after the loop and the last `flush`.
unfoldable pub chunks_of : ℕ → List Utf16 → List TextChunk
chunks_of limit graphemes =
    let over =
      flush (cut limit (record { chunks = []; current = []; current_count = 0 }) graphemes) in
    over.chunks

-- `schedule`, from the index of the first grapheme on.
unfoldable pub schedule_from : (delay index : ℕ) → List Utf16 → List TextScheduleStep
schedule_from delay index [] = []
schedule_from delay index (g ∷ graphemes) =
    record { text = g; utf16_units = length g; at_ms = index * delay }
    ∷ schedule_from delay (index + 1) graphemes

-- `planText`
unfoldable pub plan_text : TextHost → TextInput → Result PlanError TextPlan
plan_text host input =
    let units = length input.text in
    let delay = or_default input.delay_ms 0 in
    let limit = or_default input.chunk_utf16_units text_chunk_utf16_units in
    let graphemes = host.segment input.text in
    let estimated = delay * (length graphemes - 1) in
    do
      reject_if (ltb typing_utf16_units units) (budget_exceeded too_many_units)
      reject_if (ltb short_sequence_ms delay) invalid_input
      reject_if (leb limit 0) invalid_input
      reject_if (ltb typing_ms estimated) (budget_exceeded too_long)
      ok (record {
        utf16_units = units;
        grapheme_count = length graphemes;
        delay_ms = delay;
        estimated_duration_ms = estimated;
        soft_chunk_utf16_units = limit;
        chunks = chunks_of limit graphemes;
        schedule = schedule_from delay 0 graphemes;
      })

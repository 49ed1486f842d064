-- ===== src/Input/Chunks.antt =====
-- The chunks and the schedule of a text (`planText` of input/src/action-plan.ts).
use ai_macos.Base.{
  ℕ, zero, suc, ◌+◌, ◌-◌, ◌*◌, ◌≤◌, ◌<◌, ◌≡◌, refl, sym, ap, subst, ◌∙◌, List, [], ◌∷◌, map, arith,
  length, ok, All, All-imp,
}
use ai_macos.Input.{TextHost, Utf16}
use ai_macos.Input.Text.{TextScheduleStep, TextPlan, TextInput, chunks_of, schedule_from, plan_text}
use ai_macos.Input.Cut.{join, counts, text_of, IsChunk, chunks_HasCut}

abbrev pub text_of_step : TextScheduleStep → Utf16
text_of_step step = step.text

schedule_text :
    (delay index : ℕ) (graphemes : List Utf16)
    → map text_of_step (schedule_from delay index graphemes) ≡ graphemes
unfolding schedule_from
schedule_text delay index [] = refl
schedule_text delay index (g ∷ graphemes) =
    ap (λ l. g ∷ l) (schedule_text delay (index + 1) graphemes)

mul_mono : (i j delay : ℕ) → i ≤ j → i * delay ≤ j * delay
mul_mono i j zero le = omega arith
mul_mono i j (suc delay) le = omega (arith, mul_mono i j delay le, le)

schedule_bound :
    (delay last index : ℕ) (graphemes : List Utf16)
    → index + length graphemes ≤ last + 1
    → All
        (λ (step : TextScheduleStep). step.at_ms ≤ last * delay)
        (schedule_from delay index graphemes)
unfolding schedule_from
schedule_bound delay last index [] h = tt
schedule_bound delay last index (g ∷ graphemes) h = (
  mul_mono index last delay (omega (arith, h)),
  schedule_bound delay last (index + 1) graphemes (omega (arith, h)),
)

module _ (host : TextHost) (input : TextInput) {plan : TextPlan} where
  pub planned :
      plan_text host input ≡ ok plan
      → (plan.chunks ≡ chunks_of plan.soft_chunk_utf16_units (host.segment input.text))
        × (plan.schedule ≡ schedule_from plan.delay_ms 0 (host.segment input.text))
        × (plan.grapheme_count ≡ length (host.segment input.text))
        × (plan.estimated_duration_ms ≡ plan.delay_ms * (length (host.segment input.text) - 1))
        × (plan.estimated_duration_ms ≤ 30000)
        × (plan.utf16_units ≡ length input.text)
        × (plan.utf16_units ≤ 10000)
  unfolding plan_text
  planned h = (
    ground arith,
    ground arith,
    ground arith,
    ground arith,
    ground arith,
    ground arith,
    ground arith,
  )

  -- If the graphemes of the text are not empty and make up the text, the chunks of its plan make up
  -- the text again; each counts its own units, at most the limit unless it is one grapheme, and
  -- together they count every grapheme once.
  pub text_chunks :
      All (λ g. 0 < length g) (host.segment input.text)
      → join (host.segment input.text) ≡ input.text
      → plan_text host input ≡ ok plan
      → (join (map text_of plan.chunks) ≡ input.text)
        × All (IsChunk plan.soft_chunk_utf16_units) plan.chunks
        × (counts plan.chunks ≡ plan.grapheme_count)
  text_chunks all whole h =
      let (chunks, schedule, number, estimate, most, units, few) = planned h in
      let (joined, chunked, counted) =
        chunks_HasCut plan.soft_chunk_utf16_units (host.segment input.text) all in
      (
        ap (λ c. join (map text_of c)) chunks ∙ joined ∙ whole,
        subst (All (IsChunk plan.soft_chunk_utf16_units)) (sym chunks) chunked,
        ap counts chunks ∙ counted ∙ sym number,
      )

  -- The schedule of a plan types the graphemes in their order, and the last of them, as every other,
  -- within the estimated duration and within 30 seconds.
  pub text_schedule :
      plan_text host input ≡ ok plan
      → (map text_of_step plan.schedule ≡ host.segment input.text)
        × All (λ (step : TextScheduleStep). step.at_ms ≤ plan.estimated_duration_ms) plan.schedule
        × (plan.estimated_duration_ms ≤ 30000)
  text_schedule h =
      let (chunks, schedule, number, estimate, most, units, few) = planned h in
      let n = length (host.segment input.text) in
      let bound = schedule_bound plan.delay_ms (n - 1) 0 (host.segment input.text) (omega arith) in
      (
        ap (map text_of_step) schedule ∙ schedule_text plan.delay_ms 0 (host.segment input.text),
        subst (All (λ (step : TextScheduleStep). step.at_ms ≤ plan.estimated_duration_ms))
            (sym schedule)
            (All-imp (schedule_from plan.delay_ms 0 (host.segment input.text))
              (λ step le. omega (arith, le, estimate)) bound),
        most,
      )

-- ===== src/Input/Drag.antt =====
-- The times of a drag's trajectory (`planDrag` of input/src/action-plan.ts).
use ai_macos.Base.{
  ℕ, zero, suc, ◌+◌, ◌-◌, ◌*◌, ◌/◌, ◌≤◌, ◌<◌, ◌≡◌, sym, ap, subst, ◌∙◌, List, [], ◌∷◌, map, arith,
  inl, inr, length, ok, Result-cases,
}
use native.Mathlib.Nat.{le-div_iff_mul-le, div-eq_of_lt-le}
use ai_macos.Input.{TextHost, Numbers}
use ai_macos.Input.Modifiers.{normalize_modifiers}
use ai_macos.Input.Pointer.{
  Point, TimedDragPoint, DragPlan, DragInput, round_div, normalize_point, trajectory_from,
  plan_drag, or_default,
}

-- Each time lies at or after the one before it.
abbrev pub IsRising : {N : Type 0} → ℕ → List (TimedDragPoint N) → Type 0
IsRising from [] = Unit
IsRising from (p ∷ points) = (from ≤ p.at_ms) × IsRising p.at_ms points

-- The time of the last point.
abbrev pub last_ms : {N : Type 0} → ℕ → List (TimedDragPoint N) → ℕ
last_ms from [] = from
last_ms from (p ∷ points) = last_ms p.at_ms points

round_div_mono : (a b d : ℕ) → 0 < d → a ≤ b → round_div a d ≤ round_div b d
unfolding round_div
round_div_mono a b d pos le =
    let q = (2 * a + d) / (2 * d) in
    let room : 0 < 2 * d = omega (arith, pos) in
    let below = (le-div_iff_mul-le {k = 2 * d} {x = q} {y = 2 * a + d} room).0 (omega arith) in
    (le-div_iff_mul-le {k = 2 * d} {x = q} {y = 2 * b + d} room).1 (omega (arith, below, le))

round_div_mul : (a d : ℕ) → 0 < d → round_div (a * d) d ≡ a
unfolding round_div
round_div_mul a d pos = div-eq_of_lt-le {k = a} (2 * d) (omega (arith, pos)) (omega (arith, pos))

mul_mono : (a i j : ℕ) → i ≤ j → a * i ≤ a * j
mul_mono zero i j le = omega arith
mul_mono (suc a) i j le = omega (arith, mul_mono a i j le, le)

module _ {N : Type 0} (numbers : Numbers N) (duration denominator : ℕ) where
  abbrev at : ℕ → ℕ
  at index = round_div (duration * index) denominator

  first_point :
      (index : ℕ) (p : Point N) (points : List (Point N)) {out : List (TimedDragPoint N)}
      → trajectory_from numbers duration denominator index (p ∷ points) ≡ ok out
      → (rest : List (TimedDragPoint N)) × (out ≡ record { point = p; at_ms = at index } ∷ rest)
        × (trajectory_from numbers duration denominator (index + 1) points ≡ ok rest)
  unfolding trajectory_from normalize_point
  first_point index p points h =
      elim (Result-cases (trajectory_from numbers duration denominator (index + 1) points)) [
        | inr (e, failed) ↦ absurd (ground (arith, failed))
        | inl (rest, done) ↦ (rest, ground (arith, done), done)
      ]

  rises :
      (index from : ℕ) (points : List (Point N)) {out : List (TimedDragPoint N)}
      → 0 < denominator
      → from ≤ at index
      → trajectory_from numbers duration denominator index points ≡ ok out
      → IsRising from out
  unfolding trajectory_from
  rises index from [] {out} pos le h =
      let same : [] ≡ out = ground arith in subst (IsRising from) same tt
  rises index from (p ∷ points) {out} pos le h =
      let (rest, same, done) = first_point index p points {out = out} h in
      let next : at index ≤ at (index + 1) =
        round_div_mono (duration * index) (duration * (index + 1)) denominator pos
          (mul_mono duration index (index + 1) (omega arith)) in
      subst (IsRising from) (sym same)
        (le, rises (index + 1) (at index) points {out = rest} pos next done)

  ends :
      (index from : ℕ) (p : Point N) (points : List (Point N)) {out : List (TimedDragPoint N)}
      → index + length points ≡ denominator
      → trajectory_from numbers duration denominator index (p ∷ points) ≡ ok out
      → last_ms from out ≡ at denominator
  unfolding trajectory_from
  ends index from p [] {out} all h =
      let (rest, same, done) = first_point index p [] {out = out} h in
      let over : [] ≡ rest = ground (arith, done) in
      ap (last_ms from) same ∙ ap (last_ms (at index)) (sym over) ∙ ap at (omega (arith, all))
  ends index from p (q ∷ points) {out} all h =
      let (rest, same, done) = first_point index p (q ∷ points) {out = out} h in
      ap (last_ms from) same
      ∙ ends (index + 1) (at index) q points {out = rest} (omega (arith, all)) done

  keeps_points :
      (index : ℕ) (points : List (Point N)) {out : List (TimedDragPoint N)}
      → trajectory_from numbers duration denominator index points ≡ ok out
      → map (λ (p : TimedDragPoint N). p.point) out ≡ points
  unfolding trajectory_from
  keeps_points index [] {out} h =
      let same : [] ≡ out = ground arith in ap (map (λ (p : TimedDragPoint N). p.point)) (sym same)
  keeps_points index (p ∷ points) {out} h =
      let (rest, same, done) = first_point index p points {out = out} h in
      ap (map (λ (p : TimedDragPoint N). p.point)) same
      ∙ ap (λ ps. p ∷ ps) (keeps_points (index + 1) points {out = rest} done)

-- No time of a rising trajectory lies after the last.
rising_le :
    {N : Type 0} (from : ℕ) (points : List (TimedDragPoint N))
    → IsRising from points
    → from ≤ last_ms from points
rising_le from [] up = omega arith
rising_le from (p ∷ points) up = omega (arith, up.0, rising_le p.at_ms points up.1)

module _ {N : Type 0} (numbers : Numbers N) (host : TextHost) (input : DragInput N) where
  pub drags :
      {plan : DragPlan N}
      → plan_drag numbers host input ≡ ok plan
      → (trajectory_from numbers input.duration_ms (length input.points - 1) 0 input.points
          ≡ ok plan.trajectory)
        × (plan.duration_ms ≡ input.duration_ms)
        × (2 ≤ length input.points)
        × (1 ≤ plan.duration_ms)
        × (plan.duration_ms ≤ 5000)
  unfolding plan_drag
  drags {plan} h =
      elim (Result-cases
        (trajectory_from numbers input.duration_ms (length input.points - 1) 0 input.points)) [
          | inr (e, failed) ↦ absurd (ground (arith, failed))
          | inl (trajectory, done) ↦
              elim (Result-cases (normalize_modifiers host (or_default input.modifiers []))) [
                | inr (e, failed) ↦ absurd (ground (arith, done, failed))
                | inl (modifiers, named) ↦ (
                  ground (arith, done, named),
                  ground (arith, done, named),
                  ground (arith, done, named),
                  ground (arith, done, named),
                  ground (arith, done, named),
                )
              ]
        ]

module _ {N : Type 0} (numbers : Numbers N) (duration : ℕ) where
  timed :
      (points : List (Point N)) {out : List (TimedDragPoint N)}
      → 2 ≤ length points
      → trajectory_from numbers duration (length points - 1) 0 points ≡ ok out
      → (map (λ (p : TimedDragPoint N). p.point) out ≡ points)
        × IsRising 0 out
        × (last_ms 0 out ≡ duration)
  timed [] {out} two h = absurd (omega (arith, two))
  timed (p ∷ points) {out} two h =
      let last = length (p ∷ points) - 1 in
      let pos : 0 < last = omega (arith, two) in
      (
        keeps_points numbers duration last 0 (p ∷ points) {out = out} h,
        rises numbers duration last 0 0 (p ∷ points) {out = out} pos (omega arith) h,
        ends numbers duration last 0 0 p points {out = out} (omega arith) h
            ∙ round_div_mul duration last pos,
      )

-- The plan of a drag has the given points in their order, at times that start at 0 or later, never
-- go back and end with the drag's duration, which is between 1 and 5000 milliseconds.
pub drag_times :
    {N : Type 0} (numbers : Numbers N) (host : TextHost) (input : DragInput N) {plan : DragPlan N}
    → plan_drag numbers host input ≡ ok plan
    → (map (λ (p : TimedDragPoint N). p.point) plan.trajectory ≡ input.points)
      × IsRising 0 plan.trajectory
      × (last_ms 0 plan.trajectory ≡ input.duration_ms)
      × (1 ≤ input.duration_ms)
      × (input.duration_ms ≤ 5000)
drag_times numbers host input {plan} h =
    let (done, same, two, least, most) = drags numbers host input {plan = plan} h in
    let (points, rising, last) =
      timed numbers input.duration_ms input.points {out = plan.trajectory} two done in
    (points, rising, last, omega (arith, same, least), omega (arith, same, most))

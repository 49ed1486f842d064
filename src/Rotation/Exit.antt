-- ===== src/Rotation/Exit.antt =====
-- When a rotation exits (runtime/src/rotation.ts).
use ai_macos.Base.{
  ℕ, ◌≤◌, ◌<◌, ◌≡◌, refl, subst₂, ◌⊎◌, inl, inr, Bool, true, false, ◌||◌, none, List, [], ◌∷◌, any,
  arith, IsOk,
}
use ai_macos.Rotation.{
  RotationConfig, Rotation, Phase, Event, start, step, run, check_bounds, drain_deadline,
}
use ai_macos.Rotation.Phases.{confirms, is_closed, InPhase, step_InPhase}

or_assoc : (a b c : Bool) → (a || b) || c ≡ (a || (b || c))
or_assoc true b c = refl
or_assoc false b c = refl

or_false : (a : Bool) → a ≡ (a || false)
or_false true = refl
or_false false = refl

module _ (config : RotationConfig) where
  run_InPhase :
      (events : List Event) (c d : Bool) (r : Rotation)
      → InPhase config c d r.phase r
      → InPhase config
          (c || any confirms events)
          (d || any is_closed events)
          (run config r events).phase
          (run config r events)
  unfolding run
  run_InPhase [] c d r h = subst₂ (λ x y. InPhase config x y r.phase r) (or_false c) (or_false d) h
  run_InPhase (event ∷ events) c d r h =
      let last = run config (step config r event) events in
      subst₂ (λ x y. InPhase config x y last.phase last)
        (or_assoc c (confirms event) (any confirms events))
        (or_assoc d (is_closed event) (any is_closed events))
        (run_InPhase events (c || confirms event) (d || is_closed event) (step config r event)
          (step_InPhase config c d event r h))

  exits_of :
      (c d : Bool) (p : Phase) (r : Rotation)
      → InPhase config c d p r
      → (r.exits ≡ 0)
        ⊎ ((r.exits ≡ 1) × (c ≡ true) × (d ≡ true) × (config.managed ≡ true) × (1 ≤ r.seals))
  exits_of c d Phase.idle r (inl none_yet) = inl none_yet
  exits_of c d Phase.idle r (inr done) = inr (done.0, done.2, done.3, done.4, done.5)
  exits_of c d Phase.awaits_drain r h = inl h.2
  exits_of c d Phase.awaits_recovery r h = inl h.2
  exits_of c d Phase.awaits_close r h = inl h.2.2

  -- Whatever happens in whatever order, the runtime exits at most once, and only if the process is
  -- managed, the runtime was sealed, it was closed, and the drain had succeeded or a recovery had
  -- returned a receipt that confirms the journal and the exit of the native host.
  pub exits_once :
      (events : List Event)
      → ((run config start events).exits ≡ 0)
        ⊎ (((run config start events).exits ≡ 1)
            × (any confirms events ≡ true)
            × (any is_closed events ≡ true)
            × (config.managed ≡ true)
            × (1 ≤ (run config start events).seals))
  exits_once events =
      let last = run config start events in
      exits_of (any confirms events) (any is_closed events) last.phase last
        (run_InPhase events false false start (inl refl))

-- Any deadline from 2 to 60000 milliseconds is accepted without a deadline for the drain: the drain
-- then gets at least one millisecond, and where a recovery may follow at most 5 seconds and less than
-- the whole.
pub default_bounds :
    (total : ℕ)
    → 2 ≤ total
    → total ≤ 60000
    → IsOk (check_bounds true total none)
      × IsOk (check_bounds false total none)
      × (1 ≤ drain_deadline true total none)
      × (drain_deadline true total none ≤ 5000)
      × (drain_deadline true total none < total)
unfolding check_bounds
default_bounds total least most =
    (ground arith, ground arith, omega arith, omega arith, omega (arith, least))

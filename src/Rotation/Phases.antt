-- ===== src/Rotation/Phases.antt =====
-- What holds in each phase of a rotation (runtime/src/rotation.ts).
use ai_macos.Base.{
  String, ◌≤◌, ◌≡◌, refl, sym, subst, ◌⊎◌, inl, inr, Bool, true, false, ◌||◌, ◌&&◌, Option, none,
  some, arith, negate, Bool-cases,
}
use ai_macos.Rotation.{
  RotationConfig, Rotation, RotationState, Phase, Event, is_confirmed, is_idle, is_running,
  is_blocked, on_check, on_retry, settle, step,
}

-- The event confirms that nothing is lost: the work has drained, or the recovery has its receipt.
abbrev pub confirms : Event → Bool
confirms Event.drained = true
confirms (Event.recovered receipt) = is_confirmed receipt
confirms _ = false

abbrev pub is_closed : Event → Bool
is_closed Event.closed = true
is_closed _ = false

-- A rotation under way: the process is managed, the runtime is sealed, and nothing has exited.
abbrev IsUnderWay : RotationConfig → Rotation → Type 0
IsUnderWay config r = (config.managed ≡ true) × (1 ≤ r.seals) × (r.exits ≡ 0)

-- What holds in each phase, when the events so far have confirmed `c` and closed `d`.
abbrev pub InPhase : RotationConfig → (c d : Bool) → Phase → Rotation → Type 0
InPhase config c d Phase.idle r =
    (r.exits ≡ 0)
    ⊎ ((r.exits ≡ 1)
        × (r.state ≡ RotationState.restarting)
        × (c ≡ true)
        × (d ≡ true)
        × (config.managed ≡ true)
        × (1 ≤ r.seals))
InPhase config c d Phase.awaits_drain r = IsUnderWay config r
InPhase config c d Phase.awaits_recovery r = IsUnderWay config r
InPhase config c d Phase.awaits_close r =
    (c ≡ true) × (r.state ≡ RotationState.restarting) × IsUnderWay config r

or_left : (a b : Bool) → a ≡ true → a || b ≡ true
or_left true b h = refl
or_left false b h = cc

or_right : (a b : Bool) → b ≡ true → a || b ≡ true
or_right true b h = refl
or_right false b h = h

module _ (config : RotationConfig) (c d : Bool) where
  -- More events confirm no less.
  weaken :
      (x y : Bool) (phase : Phase) (r : Rotation)
      → InPhase config c d phase r
      → InPhase config (c || x) (d || y) phase r
  weaken x y Phase.idle r (inl zero_exits) = inl zero_exits
  weaken x y Phase.idle r (inr done) =
      inr (done.0, done.1, or_left c x done.2, or_left d y done.3, done.4, done.5)
  weaken x y Phase.awaits_drain r h = h
  weaken x y Phase.awaits_recovery r h = h
  weaken x y Phase.awaits_close r h = (or_left c x h.0, h.1, h.2)

  stays :
      (event : Event) (phase : Phase) (r : Rotation)
      → phase ≡ r.phase
      → InPhase config c d phase r
      → InPhase config (c || confirms event) (d || is_closed event) r.phase r
  stays event phase r same h =
      weaken (confirms event) (is_closed event) r.phase r
        (subst (λ p. InPhase config c d p r) same h)

  settle_InPhase :
      (event : Event) (phase : Phase) (r : Rotation)
      → phase ≡ r.phase
      → InPhase config c d phase r
      → InPhase config
          (c || confirms event)
          (d || is_closed event)
          (settle config phase r event).phase
          (settle config phase r event)
  unfolding settle
  settle_InPhase event Phase.idle r same h = stays event Phase.idle r same h
  settle_InPhase (Event.check reason) Phase.awaits_drain r same h =
      stays (Event.check reason) Phase.awaits_drain r same h
  settle_InPhase (Event.retry reason) Phase.awaits_drain r same h =
      stays (Event.retry reason) Phase.awaits_drain r same h
  settle_InPhase Event.stop Phase.awaits_drain r same h =
      stays Event.stop Phase.awaits_drain r same h
  settle_InPhase Event.drained Phase.awaits_drain r same h = (or_right c true refl, refl, h)
  settle_InPhase Event.drain_failed Phase.awaits_drain r same h =
      elim (Bool-cases config.has_recovery) [
        | inl able ↦ rw able h
        | inr unable ↦ rw unable (inl h.2)
      ]
  settle_InPhase (Event.recovered receipt) Phase.awaits_drain r same h =
      stays (Event.recovered receipt) Phase.awaits_drain r same h
  settle_InPhase Event.recovery_failed Phase.awaits_drain r same h =
      stays Event.recovery_failed Phase.awaits_drain r same h
  settle_InPhase Event.closed Phase.awaits_drain r same h =
      stays Event.closed Phase.awaits_drain r same h
  settle_InPhase Event.close_failed Phase.awaits_drain r same h =
      stays Event.close_failed Phase.awaits_drain r same h
  settle_InPhase Event.deadline Phase.awaits_drain r same h = inl h.2
  settle_InPhase (Event.check reason) Phase.awaits_recovery r same h =
      stays (Event.check reason) Phase.awaits_recovery r same h
  settle_InPhase (Event.retry reason) Phase.awaits_recovery r same h =
      stays (Event.retry reason) Phase.awaits_recovery r same h
  settle_InPhase Event.stop Phase.awaits_recovery r same h =
      stays Event.stop Phase.awaits_recovery r same h
  settle_InPhase Event.drained Phase.awaits_recovery r same h =
      stays Event.drained Phase.awaits_recovery r same h
  settle_InPhase Event.drain_failed Phase.awaits_recovery r same h =
      stays Event.drain_failed Phase.awaits_recovery r same h
  settle_InPhase (Event.recovered receipt) Phase.awaits_recovery r same h =
      elim (Bool-cases (is_confirmed receipt)) [
        | inl good ↦ rw good (or_right c true refl, refl, h)
        | inr bad ↦ rw bad (inl h.2)
      ]
  settle_InPhase Event.recovery_failed Phase.awaits_recovery r same h = inl h.2
  settle_InPhase Event.closed Phase.awaits_recovery r same h =
      stays Event.closed Phase.awaits_recovery r same h
  settle_InPhase Event.close_failed Phase.awaits_recovery r same h =
      stays Event.close_failed Phase.awaits_recovery r same h
  settle_InPhase Event.deadline Phase.awaits_recovery r same h = inl h.2
  settle_InPhase (Event.check reason) Phase.awaits_close r same h =
      stays (Event.check reason) Phase.awaits_close r same h
  settle_InPhase (Event.retry reason) Phase.awaits_close r same h =
      stays (Event.retry reason) Phase.awaits_close r same h
  settle_InPhase Event.stop Phase.awaits_close r same h =
      stays Event.stop Phase.awaits_close r same h
  settle_InPhase Event.drained Phase.awaits_close r same h =
      stays Event.drained Phase.awaits_close r same h
  settle_InPhase Event.drain_failed Phase.awaits_close r same h =
      stays Event.drain_failed Phase.awaits_close r same h
  settle_InPhase (Event.recovered receipt) Phase.awaits_close r same h =
      stays (Event.recovered receipt) Phase.awaits_close r same h
  settle_InPhase Event.recovery_failed Phase.awaits_close r same h =
      stays Event.recovery_failed Phase.awaits_close r same h
  settle_InPhase Event.closed Phase.awaits_close r same h =
      inr (omega (arith, h.2.2), h.1, or_left c false h.0, or_right d true refl, h.2.0, h.2.1)
  settle_InPhase Event.close_failed Phase.awaits_close r same h = inl h.2.2
  settle_InPhase Event.deadline Phase.awaits_close r same h = inl h.2.2

idle_of : (p : Phase) → is_idle p ≡ true → p ≡ Phase.idle
idle_of Phase.idle h = refl
idle_of Phase.awaits_drain h = cc
idle_of Phase.awaits_recovery h = cc
idle_of Phase.awaits_close h = cc

not_restarting :
    (s : RotationState) → is_running s || is_blocked s ≡ true → s ≡ RotationState.restarting → ⊥
not_restarting RotationState.running h e = cc
not_restarting RotationState.restart_needed h e = cc
not_restarting RotationState.draining h e = cc
not_restarting RotationState.blocked h e = cc
not_restarting RotationState.restarting h e = cc

module _ (config : RotationConfig) (c d : Bool) where
  -- A rotation that may act again has not exited.
  not_exited :
      (r : Rotation)
      → is_running r.state || is_blocked r.state ≡ true
      → InPhase config c d Phase.idle r
      → r.exits ≡ 0
  not_exited r able (inl zero_exits) = zero_exits
  not_exited r able (inr done) = absurd (not_restarting r.state able done.1)

  check_InPhase :
      (r : Rotation) (reason : Option String)
      → InPhase config c d r.phase r
      → InPhase config c d (on_check config r reason).phase (on_check config r reason)
  unfolding on_check
  check_InPhase r none h =
      elim (Bool-cases (r.stopped || negate (is_idle r.phase) || negate (is_running r.state))) [
        | inl refused ↦ rw refused h
        | inr able ↦ rw able h
      ]
  check_InPhase r (some why) h =
      elim (Bool-cases (r.stopped || negate (is_idle r.phase) || negate (is_running r.state))) [
        | inl refused ↦ rw refused h
        | inr able ↦
            let at_rest : r.phase ≡ Phase.idle = idle_of r.phase (ground (arith, able)) in
            let runs : is_running r.state || is_blocked r.state ≡ true = ground (arith, able) in
            let none_yet = not_exited r runs (subst (λ p. InPhase config c d p r) at_rest h) in
            elim (Bool-cases config.managed) [
              | inl managed ↦ rw (able, managed) (refl, omega arith, none_yet)
              | inr unmanaged ↦ rw (able, unmanaged, at_rest) (inl none_yet)
            ]
      ]

  stop_InPhase :
      (p : Phase) (r : Rotation)
      → InPhase config c d p r
      → InPhase config c d p (record r { stopped = true })
  stop_InPhase Phase.idle r h = h
  stop_InPhase Phase.awaits_drain r h = h
  stop_InPhase Phase.awaits_recovery r h = h
  stop_InPhase Phase.awaits_close r h = h

  again :
      (p : Phase) (r : Rotation)
      → is_blocked r.state ≡ true
      → InPhase config c d p r
      → InPhase config c d p
          (record r { state = RotationState.running; reason = none; recovery = false })
  again Phase.idle r stuck h =
      inl (not_exited r (or_right (is_running r.state) (is_blocked r.state) stuck) h)
  again Phase.awaits_drain r stuck h = h
  again Phase.awaits_recovery r stuck h = h
  again Phase.awaits_close r stuck h =
      absurd (not_restarting r.state (or_right (is_running r.state) (is_blocked r.state) stuck) h.1)

  retry_InPhase :
      (r : Rotation) (reason : Option String)
      → InPhase config c d r.phase r
      → InPhase config c d (on_retry config r reason).phase (on_retry config r reason)
  unfolding on_retry
  retry_InPhase r reason h = elim (Bool-cases (negate r.stopped && is_blocked r.state)) [
    | inr refused ↦ rw refused h
    | inl able ↦ rw able (
        check_InPhase (record r { state = RotationState.running; reason = none; recovery = false })
          reason (again r.phase r (ground (arith, able)) h))
  ]

  moved :
      (event : Event) (r : Rotation)
      → step config r event ≡ settle config r.phase r event
      → InPhase config c d r.phase r
      → InPhase config
          (c || confirms event)
          (d || is_closed event)
          (step config r event).phase
          (step config r event)
  moved event r same h =
      subst
        (λ (x : Rotation). InPhase config (c || confirms event) (d || is_closed event) x.phase x)
        (sym same) (settle_InPhase config c d event r.phase r refl h)

  pub step_InPhase :
      (event : Event) (r : Rotation)
      → InPhase config c d r.phase r
      → InPhase config
          (c || confirms event)
          (d || is_closed event)
          (step config r event).phase
          (step config r event)
  unfolding step
  step_InPhase (Event.check reason) r h =
      weaken config c d false false (on_check config r reason).phase (on_check config r reason)
        (check_InPhase r reason h)
  step_InPhase (Event.retry reason) r h =
      weaken config c d false false (on_retry config r reason).phase (on_retry config r reason)
        (retry_InPhase r reason h)
  step_InPhase Event.stop r h =
      weaken config c d false false r.phase (record r { stopped = true }) (stop_InPhase r.phase r h)
  step_InPhase Event.drained r h = moved Event.drained r refl h
  step_InPhase Event.drain_failed r h = moved Event.drain_failed r refl h
  step_InPhase (Event.recovered receipt) r h = moved (Event.recovered receipt) r refl h
  step_InPhase Event.recovery_failed r h = moved Event.recovery_failed r refl h
  step_InPhase Event.closed r h = moved Event.closed r refl h
  step_InPhase Event.close_failed r h = moved Event.close_failed r refl h
  step_InPhase Event.deadline r h = moved Event.deadline r refl h

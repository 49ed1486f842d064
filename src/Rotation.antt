-- ===== src/Rotation.antt =====
-- runtime/src/rotation.ts: `startRuntimeRotation`, which replaces a runtime process after its work has
-- drained. The promises that it awaits are events: of those that come in, it reacts to the ones that
-- its phase awaits, and late results are ignored.
pub mod Phases
pub mod Exit
mod Tests
use ai_macos.Base.{
  ℕ, String, ◌+◌, ◌/◌, Bool, true, false, ◌&&◌, ◌||◌, min, max, Option, none, some, List, [], ◌∷◌,
  leb, ltb, negate, Result, ok, err, ◌>>◌, reject_if, if◌then◌else◌,
}

-- The `state` of `RuntimeRotationStatus`
pub data RotationState : Type 0 where
  running restart_needed draining blocked restarting : RotationState

-- What `pending` awaits: nothing, the drain, the recovery, or the close of the runtime.
pub data Phase : Type 0 where
  idle awaits_drain awaits_recovery awaits_close : Phase

-- `QuarantinedRestartReceipt`, as far as the rotation reads it.
pub record RestartReceipt : Type 0 where
  pub is_safe_quarantined : Bool
  pub journal_durable : Bool
  pub exit_confirmed : Bool

-- What the rotation is given: whether the process is managed, and whether a recovery is possible.
pub record RotationConfig : Type 0 where
  pub managed : Bool
  pub has_recovery : Bool

-- The variables of the rotation, and how often it has sealed the runtime and exited.
pub record Rotation : Type 0 where
  pub state : RotationState
  pub reason : Option String
  pub recovery : Bool
  pub phase : Phase
  pub stopped : Bool
  pub seals : ℕ
  pub exits : ℕ

-- A call of `check` or `retryAfterCleanup` with what `reason()` returns, `stop`, the end of an
-- awaited promise, or the deadline of the rotation. A drain that misses its own deadline has failed.
pub data Event : Type 0 where
  check retry : (reason : Option String) → Event
  stop : Event
  drained drain_failed : Event
  recovered : RestartReceipt → Event
  recovery_failed : Event
  closed close_failed : Event
  deadline : Event

pub data BoundsError : Type 0 where
  out_of_bounds : BoundsError

-- `drainDeadlineMs`
abbrev pub drain_deadline : Bool → ℕ → Option ℕ → ℕ
drain_deadline has_recovery total (some ms) = ms
drain_deadline true total none = max 1 (min 5000 (total / 3))
drain_deadline false total none = total

-- The bounds of the two deadlines.
unfoldable pub check_bounds : Bool → ℕ → Option ℕ → Result BoundsError (Unit {0})
check_bounds has_recovery total given =
    let drain = drain_deadline has_recovery total given in
    reject_if
      (ltb total 1
        || ltb 60000 total
        || (ltb drain 1 || ltb total drain)
        || (has_recovery && leb total drain))
      out_of_bounds

abbrev pub start : Rotation
start = record {
  state = RotationState.running;
  reason = none;
  recovery = false;
  phase = Phase.idle;
  stopped = false;
  seals = 0;
  exits = 0;
}

abbrev pub is_running : RotationState → Bool
is_running running = true
is_running _ = false

abbrev pub is_blocked : RotationState → Bool
is_blocked blocked = true
is_blocked _ = false

abbrev pub is_idle : Phase → Bool
is_idle idle = true
is_idle _ = false

-- `check` once it may act and has a reason.
abbrev pub sealed : RotationConfig → Rotation → String → Rotation
sealed config r why =
    let shut = record r { reason = some why; recovery = false; seals = r.seals + 1 } in
    if config.managed
    then record shut { state = RotationState.draining; phase = Phase.awaits_drain }
    else record shut { state = RotationState.restart_needed }

abbrev pub with_reason : RotationConfig → Rotation → Option String → Rotation
with_reason config r none = r
with_reason config r (some why) = sealed config r why

-- `check`
unfoldable pub on_check : RotationConfig → Rotation → Option String → Rotation
on_check config r reason =
    let acted = with_reason config r reason in
    if r.stopped || negate (is_idle r.phase) || negate (is_running r.state) then r else acted

-- `retryAfterCleanup`
unfoldable pub on_retry : RotationConfig → Rotation → Option String → Rotation
on_retry config r reason =
    let again =
      on_check config (record r { state = RotationState.running; reason = none; recovery = false })
        reason in
    if negate r.stopped && is_blocked r.state then again else r

-- The `catch` of `pending`.
abbrev pub block : Rotation → Rotation
block r = record r {
  state = RotationState.blocked;
  reason = some "Cleanup не подтверждён; exit/replacement запрещён";
  recovery = false;
  phase = Phase.idle;
}

abbrev pub is_confirmed : RestartReceipt → Bool
is_confirmed receipt =
    receipt.is_safe_quarantined && receipt.journal_durable && receipt.exit_confirmed

-- The status before the runtime is closed.
abbrev closing : Rotation → Bool → Rotation
closing r by_recovery = record r {
  state = RotationState.restarting;
  recovery = by_recovery;
  phase = Phase.awaits_close;
}

-- An event in the phase that awaits it.
unfoldable pub settle : RotationConfig → Phase → Rotation → Event → Rotation
settle config idle r event = r
settle config awaits_drain r drained = closing r false
settle config awaits_drain r drain_failed =
    if config.has_recovery then record r { phase = Phase.awaits_recovery } else block r
settle config awaits_recovery r (recovered receipt) =
    if is_confirmed receipt then closing r true else block r
settle config awaits_recovery r recovery_failed = block r
settle config awaits_close r closed = record r { phase = Phase.idle; exits = r.exits + 1 }
settle config awaits_close r close_failed = block r
settle config awaits_drain r deadline = block r
settle config awaits_recovery r deadline = block r
settle config awaits_close r deadline = block r
settle config _ r _ = r

unfoldable pub step : RotationConfig → Rotation → Event → Rotation
step config r (check reason) = on_check config r reason
step config r (retry reason) = on_retry config r reason
step config r stop = record r { stopped = true }
step config r event = settle config r.phase r event

-- The rotation after the events, oldest first.
unfoldable pub run : RotationConfig → Rotation → List Event → Rotation
run config r [] = r
run config r (event ∷ events) = run config (step config r event) events

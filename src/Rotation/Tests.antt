-- ===== src/Rotation/Tests.antt =====
-- Runs of the rotation, to which the theorems apply.
use ai_macos.Base.{
  ◌≤◌, ◌<◌, ◌≡◌, refl, ◌⊎◌, true, false, none, some, List, [], ◌∷◌, any, arith, IsOk,
}
use ai_macos.Rotation.{
  RotationConfig, Event, start, run, step, settle, on_check, check_bounds, drain_deadline,
}
use ai_macos.Rotation.Phases.{confirms, is_closed}
use ai_macos.Rotation.Exit.{exits_once, default_bounds}

abbrev config : RotationConfig
config = record { managed = true; has_recovery = true }

abbrev events : List Event
events =
    Event.check (some "update")
    ∷ Event.drain_failed
    ∷ Event.recovered
        (record { is_safe_quarantined = true; journal_durable = true; exit_confirmed = true })
    ∷ Event.closed
    ∷ Event.check (some "again")
    ∷ []

-- A drain that fails, a recovery that is confirmed, and one exit.
exits : (run config start events).exits ≡ 1
unfolding run step settle on_check
exits = refl

-- Without the receipt's confirmation there is no exit, even if a close comes.
stays :
    (run config start (Event.check (some "update") ∷ Event.deadline ∷ Event.closed ∷ [])).exits ≡ 0
unfolding run step settle on_check
stays = refl

exits_once_example :
    ((run config start events).exits ≡ 0)
    ⊎ (((run config start events).exits ≡ 1)
        × (any confirms events ≡ true)
        × (any is_closed events ≡ true)
        × (true ≡ true)
        × (1 ≤ (run config start events).seals))
exits_once_example = exits_once config events

default_bounds_example :
    IsOk (check_bounds true 15000 none)
    × IsOk (check_bounds false 15000 none)
    × (1 ≤ drain_deadline true 15000 none)
    × (drain_deadline true 15000 none ≤ 5000)
    × (drain_deadline true 15000 none < 15000)
default_bounds_example = default_bounds 15000 (omega arith) (omega arith)

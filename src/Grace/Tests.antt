-- ===== src/Grace/Tests.antt =====
-- A client that comes back, to which the theorem applies.
use ai_macos.Base.{◌≡◌, refl, true, false, List, [], ◌∷◌, string_eq, String_discrete, ℕ_discrete}
use ai_macos.Base.Dict
use ai_macos.Grace.{
  GraceEvent, fresh_grace, clear, clear_all, set_pending, run, step, on_connected, on_disconnected,
  on_fires, on_finished, on_closing, is_cleaning,
}
use ai_macos.Grace.Reconnect.{starts, reconnect_cancels}

-- A client that stays away is cleaned up once, also if it connects meanwhile, and a failure is
-- reported.
stays_away :
    (run fresh_grace (
      GraceEvent.disconnected "lineage"
      ∷ GraceEvent.fires 0
      ∷ GraceEvent.connected "lineage"
      ∷ GraceEvent.fires 0
      ∷ GraceEvent.finished 0 true
      ∷ []))
    ≡ record fresh_grace { next_timer = 1; started = "lineage" ∷ []; reported = "lineage" ∷ [] }
unfolding run step on_connected on_disconnected on_fires on_finished clear set_pending Dict.get
    Dict.set Dict.delete String_discrete ℕ_discrete
stays_away = refl

-- `close` clears the timers that are set.
closes : (run fresh_grace (GraceEvent.disconnected "lineage" ∷ GraceEvent.closing ∷ [])).timers ≡ []
unfolding run step on_disconnected on_closing clear clear_all Dict.get Dict.set ℕ_discrete
closes = refl

abbrev before : List GraceEvent
before = GraceEvent.disconnected "other" ∷ GraceEvent.disconnected "lineage" ∷ []

abbrev events : List GraceEvent
events =
    GraceEvent.fires 1
    ∷ GraceEvent.disconnected "another"
    ∷ GraceEvent.fires 0
    ∷ GraceEvent.fires 2
    ∷ []

waits : is_cleaning (Dict.get "lineage" (run fresh_grace before).entries) ≡ false
unfolding run step on_disconnected Dict.get Dict.set String_discrete
waits = refl

reconnect_cancels_example :
    starts "lineage" (run (on_connected (run fresh_grace before) "lineage") events).started
    ≡ starts "lineage" (run fresh_grace before).started
unfolding String_discrete
reconnect_cancels_example =
    reconnect_cancels before events "lineage" waits (refl, (refl, (refl, (refl, tt))))

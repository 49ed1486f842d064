-- ===== src/Grace/Entries.antt =====
-- How the entries, the timers and the cleanups of runtime/src/client-grace.ts belong together.
use ai_macos.Base.{
  ℕ, String, ◌≡◌, refl, ap, sym, subst, ◌∙◌, inl, inr, Bool, true, false, ◌||◌, ◌&&◌, Option, none,
  some, List, [], ◌∷◌, ◌==◌, nat_eq, string_eq, ==_refl, negate, leb, length, find, All, All-imp,
  Bool-cases, Option-cases, arith,
}
use ai_macos.Base.Dict
use ai_macos.Base.Dict.{Dict, get-set, get-delete}
use ai_macos.Grace.{
  Grace, GraceEntry, GraceEvent, Timer, clear, entry_of, is_present, some_pending, on_connected,
  on_disconnected, on_fires, on_finished, on_closing, on_settled, step, or_same, run, fresh_grace,
}
use ai_macos.Grace.Timers.{
  HasEntry, All-clear, All-find, delete-HasEntry, set-HasEntry, set_pending-eq, clear_all-empty,
  none_cleans,
}

-- Every timer that is set belongs to an entry that waits, and every cleanup that runs to one that
-- is pending; after `drain` or `close` has begun, no timer is set.
pub record IsSound (s : Grace) : Type 0 where
  pub waits : All (HasEntry s.entries false) s.timers
  pub cleans : All (HasEntry s.entries true) s.cleanups
  pub shut : s.closed ≡ true → s.timers ≡ []

pub connected-IsSound : (s : Grace) (l : String) → IsSound s → IsSound (on_connected s l)
unfolding on_connected clear
connected-IsSound s l sound = elim (Option-cases (Dict.get l s.entries)) [
  | inl missing ↦
      rw (missing, on_connected)
        (record {
          waits =
              All-imp s.timers (λ t has. delete-HasEntry l s.entries false t (λ e. cc) has)
                sound.waits;
          cleans =
              All-imp s.cleanups (λ t has. delete-HasEntry l s.entries true t (λ e. cc) has)
                sound.cleans;
          shut = sound.shut;
        })
  | inr (entry, found) ↦ elim (Bool-cases entry.is_pending) [
    | inl busy ↦ rw (found, on_connected, busy) sound
    | inr idle ↦
        rw (found, on_connected, idle)
          (record {
            waits =
                All-clear (HasEntry s.entries false) (HasEntry (Dict.delete l s.entries) false)
                  entry.timer s.timers
                  (λ t has other. delete-HasEntry l s.entries false t (λ e. ground arith) has)
                  sound.waits;
            cleans =
                All-imp s.cleanups
                  (λ t has. delete-HasEntry l s.entries true t (λ e. ground arith) has)
                  sound.cleans;
            shut = λ closed. ap (clear entry.timer) (sound.shut closed);
          })
  ]
]

pub disconnected-IsSound :
    (s : Grace) (l : String) → IsSound s → IsSound (or_same (on_disconnected s l) s)
unfolding on_disconnected
disconnected-IsSound s l sound = elim (Bool-cases (s.closed || is_present (Dict.get l s.entries))) [
  | inl kept ↦ rw kept sound
  | inr opens ↦ elim (Bool-cases (leb 10000 (length s.entries))) [
    | inl full ↦ rw (opens, full) sound
    | inr room ↦
        let missing : Dict.get l s.entries ≡ none = is_missing (Dict.get l s.entries) opens in
        rw (opens, room)
          (record {
            waits = (
              get-set l l (entry_of s.next_timer false) s.entries ∙ rw (==_refl l) refl,
              All-imp s.timers
                  (λ t has.
                    set-HasEntry l s.entries false t (entry_of s.next_timer false) (λ e. cc) has)
                  sound.waits,
            );
            cleans =
                All-imp s.cleanups
                  (λ t has.
                    set-HasEntry l s.entries true t (entry_of s.next_timer false) (λ e. cc) has)
                  sound.cleans;
            shut = λ closed. absurd (ground arith);
          })
  ]
]
  where
    is_missing : (o : Option GraceEntry) → (s.closed || is_present o) ≡ false → o ≡ none
    is_missing none h = refl
    is_missing (some e) h = absurd (ground arith)

pub fires-IsSound : (s : Grace) (id : ℕ) → IsSound s → IsSound (on_fires s id)
unfolding on_fires
fires-IsSound s id sound = elim (Option-cases (find (λ (t : Timer). t.id == id) s.timers)) [
  | inl missing ↦ rw (missing, on_fires) sound
  | inr (t, found) ↦
      let (has, same) = All-find (HasEntry s.entries false) id s.timers found sound.waits in
      rw (found, on_fires, set_pending-eq t s.entries has)
        (record {
          waits =
              All-clear (HasEntry s.entries false)
                (HasEntry (Dict.set t.lineage (entry_of t.id true) s.entries) false) id s.timers
                (λ u mine other.
                  set-HasEntry t.lineage s.entries false u (entry_of t.id true) (λ e. ground arith)
                    mine)
                sound.waits;
          cleans = (
            get-set t.lineage t.lineage (entry_of t.id true) s.entries
                ∙ rw (==_refl t.lineage) refl,
            All-imp s.cleanups
                (λ u mine.
                  set-HasEntry t.lineage s.entries true u (entry_of t.id true) (λ e. ground arith)
                    mine)
                sound.cleans,
          );
          shut = λ closed. absurd (ground (arith, sound.shut closed));
        })
]

pub finished-IsSound :
    (s : Grace) (id : ℕ) (failed : Bool) → IsSound s → IsSound (on_finished s id failed)
unfolding on_finished
finished-IsSound s id failed sound =
    elim (Option-cases (find (λ (t : Timer). t.id == id) s.cleanups)) [
      | inl missing ↦ rw (missing, on_finished) sound
      | inr (t, found) ↦
          let (has, same) = All-find (HasEntry s.entries true) id s.cleanups found sound.cleans in
          rw (found, on_finished)
            (record {
              waits =
                  All-imp s.timers
                    (λ u mine. delete-HasEntry t.lineage s.entries false u (λ e. ground arith) mine)
                    sound.waits;
              cleans =
                  All-clear (HasEntry s.entries true)
                    (HasEntry (Dict.delete t.lineage s.entries) true) id s.cleanups
                    (λ u mine other.
                      delete-HasEntry t.lineage s.entries true u (λ e. ground arith) mine)
                    sound.cleans;
              shut = sound.shut;
            })
    ]

pub closing-IsSound : (s : Grace) → IsSound s → IsSound (on_closing s)
unfolding on_closing
closing-IsSound s sound =
    rw (clear_all-empty s.entries s.timers sound.waits)
      (record { waits = tt; cleans = sound.cleans; shut = λ closed. refl })

pub settled-IsSound : (s : Grace) → IsSound s → IsSound (on_settled s)
unfolding on_settled
settled-IsSound s sound = elim (Bool-cases (s.closed && negate (some_pending s.entries))) [
  | inr busy ↦ rw busy sound
  | inl over ↦
      let no_timer : s.timers ≡ [] = sound.shut (ground arith) in
      let no_cleanup = none_cleans s.entries s.cleanups (ground arith) sound.cleans in
      rw over (record {
        waits = subst (All (HasEntry [] false)) (sym no_timer) tt;
        cleans = subst (All (HasEntry [] true)) (sym no_cleanup) tt;
        shut = λ closed. no_timer;
      })
]

pub step-IsSound : (s : Grace) (event : GraceEvent) → IsSound s → IsSound (or_same (step s event) s)
unfolding step
step-IsSound s (GraceEvent.connected l) sound = connected-IsSound s l sound
step-IsSound s (GraceEvent.disconnected l) sound = disconnected-IsSound s l sound
step-IsSound s (GraceEvent.fires id) sound = fires-IsSound s id sound
step-IsSound s (GraceEvent.finished id failed) sound = finished-IsSound s id failed sound
step-IsSound s GraceEvent.closing sound = closing-IsSound s sound
step-IsSound s GraceEvent.settled sound = settled-IsSound s sound

run_on-IsSound : (s : Grace) (events : List GraceEvent) → IsSound s → IsSound (run s events)
unfolding run
run_on-IsSound s [] sound = sound
run_on-IsSound s (event ∷ events) sound =
    run_on-IsSound (or_same (step s event) s) events (step-IsSound s event sound)

-- Whatever events come to a new grace, its timers, entries and cleanups belong together.
pub run-IsSound : (events : List GraceEvent) → IsSound (run fresh_grace events)
run-IsSound events =
    run_on-IsSound fresh_grace events (record { waits = tt; cleans = tt; shut = λ closed. refl })

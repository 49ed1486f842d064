-- ===== src/Grace/Reconnect.antt =====
-- Which cleanups start (runtime/src/client-grace.ts).
use ai_macos.Base.{
  ℕ, String, ◌+◌, ◌≡◌, refl, ap, sym, ◌∙◌, ==_refl, All-imp, inl, inr, Bool, true, false, ◌||◌,
  ◌&&◌, List, [], ◌∷◌, ◌==◌, nat_eq, string_eq, negate, leb, length, find, All, Bool-cases,
  Option-cases, arith, eq_of_==, if◌then◌else◌,
}
use ai_macos.Base.Dict
use ai_macos.Base.Dict.{Dict}
use ai_macos.Grace.{
  Grace, GraceEntry, GraceEvent, Timer, clear, clear_all, is_cleaning, is_present, some_pending,
  on_connected, on_disconnected, on_fires, on_finished, on_closing, on_settled, step, or_same, run,
  fresh_grace,
}
use ai_macos.Grace.Timers.{HasEntry, at_lineage, All-clear, All-find}
use ai_macos.Grace.Entries.{IsSound, run-IsSound}

-- How many cleanups of a lineage have begun.
abbrev pub starts : String → List String → ℕ
starts lineage [] = 0
starts lineage (l ∷ started) =
    let rest = starts lineage started in if l == lineage then rest + 1 else rest

abbrev pub disconnects : String → GraceEvent → Bool
disconnects lineage (GraceEvent.disconnected l) = l == lineage
disconnects lineage _ = false

module _ (lineage : String) (n : ℕ) where
  abbrev IsOther : Timer → Type 0
  IsOther t = (t.lineage == lineage) ≡ false

  -- No timer of the lineage is set, and so many cleanups of it have begun.
  record IsQuiet (s : Grace) : Type 0 where
    others : All IsOther s.timers
    count : starts lineage s.started ≡ n

  clear-others : (id : ℕ) (ts : List Timer) → All IsOther ts → All IsOther (clear id ts)
  clear-others id ts all = All-clear IsOther IsOther id ts (λ t other apart. other) all

  connected-IsQuiet : (s : Grace) (l : String) → IsQuiet s → IsQuiet (on_connected s l)
  unfolding on_connected
  connected-IsQuiet s l q = elim (Option-cases (Dict.get l s.entries)) [
    | inl missing ↦ rw (missing, on_connected) (record { others = q.others; count = q.count })
    | inr (entry, found) ↦ elim (Bool-cases entry.is_pending) [
      | inl busy ↦ rw (found, on_connected, busy) q
      | inr idle ↦
          rw (found, on_connected, idle)
            (record { others = clear-others entry.timer s.timers q.others; count = q.count })
    ]
  ]

  disconnected-IsQuiet :
      (s : Grace) (l : String)
      → (l == lineage) ≡ false
      → IsQuiet s
      → IsQuiet (or_same (on_disconnected s l) s)
  unfolding on_disconnected
  disconnected-IsQuiet s l other q =
      elim (Bool-cases (s.closed || is_present (Dict.get l s.entries))) [
        | inl kept ↦ rw kept q
        | inr opens ↦ elim (Bool-cases (leb 10000 (length s.entries))) [
          | inl full ↦ rw (opens, full) q
          | inr room ↦ rw (opens, room) (record { others = (other, q.others); count = q.count })
        ]
      ]

  fires-IsQuiet : (s : Grace) (id : ℕ) → IsQuiet s → IsQuiet (on_fires s id)
  unfolding on_fires
  fires-IsQuiet s id q = elim (Option-cases (find (λ (t : Timer). t.id == id) s.timers)) [
    | inl missing ↦ rw (missing, on_fires) q
    | inr (t, found) ↦
        let (other, same) = All-find IsOther id s.timers found q.others in
        rw (found, on_fires)
          (record { others = clear-others id s.timers q.others; count = rw other q.count })
  ]

  finished-IsQuiet :
      (s : Grace) (id : ℕ) (failed : Bool) → IsQuiet s → IsQuiet (on_finished s id failed)
  unfolding on_finished
  finished-IsQuiet s id failed q =
      elim (Option-cases (find (λ (t : Timer). t.id == id) s.cleanups)) [
        | inl missing ↦ rw (missing, on_finished) q
        | inr (t, found) ↦ rw (found, on_finished) (record { others = q.others; count = q.count })
      ]

  clear_all-others :
      (entries : Dict String GraceEntry) (ts : List Timer)
      → All IsOther ts
      → All IsOther (clear_all entries ts)
  unfolding clear_all
  clear_all-others [] ts all = all
  clear_all-others ((l, entry) ∷ rest) ts all =
      clear_all-others rest (clear entry.timer ts) (clear-others entry.timer ts all)

  settled-IsQuiet : (s : Grace) → IsQuiet s → IsQuiet (on_settled s)
  unfolding on_settled
  settled-IsQuiet s q = elim (Bool-cases (s.closed && negate (some_pending s.entries))) [
    | inr busy ↦ rw busy q
    | inl over ↦ rw over (record { others = q.others; count = q.count })
  ]

  step-IsQuiet :
      (s : Grace) (event : GraceEvent)
      → disconnects lineage event ≡ false
      → IsQuiet s
      → IsQuiet (or_same (step s event) s)
  unfolding step on_closing
  step-IsQuiet s (GraceEvent.connected l) other q = connected-IsQuiet s l q
  step-IsQuiet s (GraceEvent.disconnected l) other q = disconnected-IsQuiet s l other q
  step-IsQuiet s (GraceEvent.fires id) other q = fires-IsQuiet s id q
  step-IsQuiet s (GraceEvent.finished id failed) other q = finished-IsQuiet s id failed q
  step-IsQuiet s GraceEvent.closing other q = record {
    others = clear_all-others s.entries s.timers q.others;
    count = q.count;
  }
  step-IsQuiet s GraceEvent.settled other q = settled-IsQuiet s q

  run-IsQuiet :
      (s : Grace) (events : List GraceEvent)
      → All (λ event. disconnects lineage event ≡ false) events
      → IsQuiet s
      → IsQuiet (run s events)
  unfolding run
  run-IsQuiet s [] none_back q = q
  run-IsQuiet s (event ∷ events) none_back q =
      run-IsQuiet (or_same (step s event) s) events none_back.1 (step-IsQuiet s event none_back.0 q)

-- Once the lineage has connected before its cleanup has begun, its timer is cleared.
on_connected-IsQuiet :
    (s : Grace) (lineage : String)
    → IsSound s
    → is_cleaning (Dict.get lineage s.entries) ≡ false
    → IsQuiet lineage (starts lineage s.started) (on_connected s lineage)
unfolding on_connected
on_connected-IsQuiet s lineage sound idle = elim (Option-cases (Dict.get lineage s.entries)) [
  | inl missing ↦
      rw (missing, on_connected)
        (record {
          others =
              All-imp s.timers
                (λ t has.
                  apart_of t (λ same. cc (at_lineage lineage s.entries false t same has, missing)))
                sound.waits;
          count = refl;
        })
  | inr (entry, found) ↦
      let waiting : entry.is_pending ≡ false = ap is_cleaning (sym found) ∙ idle in
      rw (found, on_connected, waiting)
        (record {
          others =
              All-clear (HasEntry s.entries false) (IsOther lineage 0) entry.timer s.timers
                (λ t has other.
                  apart_of t
                    (λ same. ground (arith, at_lineage lineage s.entries false t same has)))
                sound.waits;
          count = refl;
        })
]
  where
    apart_of : (t : Timer) → ¬ ((lineage == t.lineage) ≡ true) → (t.lineage == lineage) ≡ false
    apart_of t differs = elim (Bool-cases (t.lineage == lineage)) [
      | inr other ↦ other
      | inl same ↦
          absurd (differs (ground (arith, eq_of_== t.lineage lineage same, ==_refl lineage)))
    ]

-- A client that is back is not cleaned up: if, after any events, it connects before the cleanup of
-- its lineage has begun, none begins in any later events without a disconnect of the lineage.
pub reconnect_cancels :
    (before events : List GraceEvent) (lineage : String)
    → is_cleaning (Dict.get lineage (run fresh_grace before).entries) ≡ false
    → All (λ event. disconnects lineage event ≡ false) events
    → starts lineage (run (on_connected (run fresh_grace before) lineage) events).started
      ≡ starts lineage (run fresh_grace before).started
reconnect_cancels before events lineage idle none_back =
    let s = run fresh_grace before in
    (run-IsQuiet lineage (starts lineage s.started) (on_connected s lineage) events none_back
      (on_connected-IsQuiet s lineage (run-IsSound before) idle)).count

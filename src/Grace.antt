-- ===== src/Grace.antt =====
-- runtime/src/client-grace.ts: `ClientDisconnectGrace`, which cleans up after a client that has stayed
-- away. The timers that `setTimeout` has set and `clearTimeout` has not cleared are a list of their
-- own beside the entries; the firing of one of them and the end of a cleanup are events. A timer
-- that is not in the list does not fire, and a cleanup that has not begun does not end.
pub mod Timers
pub mod Entries
pub mod Reconnect
mod Tests
use ai_macos.Base.{
  ℕ, String, ◌+◌, Bool, true, false, ◌&&◌, ◌||◌, Option, none, some, List, [], ◌∷◌, ◌==◌, nat_eq,
  string_eq, leb, ltb, negate, length, find, Result, ok, err, ◌>>=◌, ◌>>◌, reject_if, if◌then◌else◌,
}
use ai_macos.Base.Dict
use ai_macos.Base.Dict.{Dict}

-- A timer that is set, or the cleanup that it has begun: its number, and the lineage of its callback.
pub record Timer : Type 0 where
  pub id : ℕ
  pub lineage : String

-- An entry of `#entries`: its timer, and whether it has a `pending` cleanup.
pub record GraceEntry : Type 0 where
  pub timer : ℕ
  pub is_pending : Bool

-- The fields of the grace, the timers that are set, the cleanups that run, the number of the next
-- timer, the lineages whose cleanups have begun and whose failures are reported, newest first.
pub record Grace : Type 0 where
  pub entries : Dict String GraceEntry
  pub closed : Bool
  pub timers : List Timer
  pub cleanups : List Timer
  pub next_timer : ℕ
  pub started : List String
  pub reported : List String

pub data GraceError : Type 0 where
  bounds_out_of_range capacity_exceeded : GraceError

-- A call of `connected` or `disconnected`, the firing of a timer, the end of the cleanup that the
-- timer began, which may have failed or missed its deadline, the start of `drain` or `close`, and
-- their end.
pub data GraceEvent : Type 0 where
  connected disconnected : (lineage : String) → GraceEvent
  fires : (id : ℕ) → GraceEvent
  finished : (id : ℕ) → (has_failed : Bool) → GraceEvent
  closing settled : GraceEvent

abbrev pub fresh_grace : Grace
fresh_grace = record {
  entries = [];
  closed = false;
  timers = [];
  cleanups = [];
  next_timer = 0;
  started = [];
  reported = [];
}

-- The bounds of `graceMs` and `cleanupMs`.
unfoldable pub check_bounds : (grace cleanup : ℕ) → Result GraceError (Unit {0})
check_bounds grace cleanup = do
  reject_if (ltb grace 1 || ltb 120000 grace) bounds_out_of_range
  reject_if (ltb cleanup 1 || ltb 120000 cleanup) bounds_out_of_range

-- `clearTimeout`, which does nothing to a timer that has fired.
unfoldable pub clear : ℕ → List Timer → List Timer
clear id [] = []
clear id (t ∷ ts) = let rest = clear id ts in if t.id == id then rest else t ∷ rest

abbrev pub is_present : Option GraceEntry → Bool
is_present none = false
is_present (some entry) = true

abbrev pub is_cleaning : Option GraceEntry → Bool
is_cleaning none = false
is_cleaning (some entry) = entry.is_pending

abbrev pub entry_of : ℕ → Bool → GraceEntry
entry_of id pending = record { timer = id; is_pending = pending }

-- `connected`
unfoldable pub on_connected : Grace → String → Grace
on_connected s lineage = elim (Dict.get lineage s.entries) [
  | none ↦ record s { entries = Dict.delete lineage s.entries }
  | some entry ↦
      if entry.is_pending
      then s
      else record s { timers = clear entry.timer s.timers; entries = Dict.delete lineage s.entries }
]

-- `disconnected`
unfoldable pub on_disconnected : Grace → String → Result GraceError Grace
on_disconnected s lineage =
    let opened = (do
      reject_if (leb 10000 (length s.entries)) capacity_exceeded
      ok (record s {
        timers = record { id = s.next_timer; lineage = lineage } ∷ s.timers;
        next_timer = s.next_timer + 1;
        entries = Dict.set lineage (entry_of s.next_timer false) s.entries;
      })) in
    if s.closed || is_present (Dict.get lineage s.entries) then ok s else opened

-- The entry of the callback takes its `pending`; the map shows it if it still has that entry.
unfoldable pub set_pending : Timer → Dict String GraceEntry → Dict String GraceEntry
set_pending t entries = elim (Dict.get t.lineage entries) [
  | none ↦ entries
  | some entry ↦
      if entry.timer == t.id then Dict.set t.lineage (entry_of t.id true) entries else entries
]

-- The callback of a timer. It does not look at `#entries`.
unfoldable pub on_fires : Grace → ℕ → Grace
on_fires s id = elim (find (λ (t : Timer). t.id == id) s.timers) [
  | none ↦ s
  | some t ↦ record s {
    timers = clear id s.timers;
    cleanups = t ∷ s.cleanups;
    entries = set_pending t s.entries;
    started = t.lineage ∷ s.started;
  }
]

-- The `catch` and the `finally` of `pending`.
unfoldable pub on_finished : Grace → ℕ → Bool → Grace
on_finished s id has_failed = elim (find (λ (t : Timer). t.id == id) s.cleanups) [
  | none ↦ s
  | some t ↦ record s {
    cleanups = clear id s.cleanups;
    entries = Dict.delete t.lineage s.entries;
    reported = if has_failed && negate s.closed then t.lineage ∷ s.reported else s.reported;
  }
]

-- The loop of `drain` and of `close` over the entries.
unfoldable pub clear_all : Dict String GraceEntry → List Timer → List Timer
clear_all [] timers = timers
clear_all ((lineage, entry) ∷ rest) timers = clear_all rest (clear entry.timer timers)

-- The start of `drain` and of `close`, which also aborts the cleanups.
unfoldable pub on_closing : Grace → Grace
on_closing s = record s { closed = true; timers = clear_all s.entries s.timers }

unfoldable pub some_pending : Dict String GraceEntry → Bool
some_pending [] = false
some_pending ((lineage, entry) ∷ rest) = entry.is_pending || some_pending rest

-- The end of `drain` and `close`, once every `pending` has ended.
unfoldable pub on_settled : Grace → Grace
on_settled s = if s.closed && negate (some_pending s.entries) then record s { entries = [] } else s

unfoldable pub step : Grace → GraceEvent → Result GraceError Grace
step s (connected lineage) = ok (on_connected s lineage)
step s (disconnected lineage) = on_disconnected s lineage
step s (fires id) = ok (on_fires s id)
step s (finished id has_failed) = ok (on_finished s id has_failed)
step s closing = ok (on_closing s)
step s settled = ok (on_settled s)

abbrev pub or_same : Result GraceError Grace → Grace → Grace
or_same (ok after) s = after
or_same (err thrown) s = s

-- The grace after the events; a call that throws changes nothing.
unfoldable pub run : Grace → List GraceEvent → Grace
run s [] = s
run s (event ∷ events) = run (or_same (step s event) s) events

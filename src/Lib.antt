-- ===== src/Lib.antt =====
-- The runtime of ai-macos gives agents control of a Mac: it admits client sessions, leases
-- resources (the keyboard and mouse, the clipboard, browser targets, devices) to their operations,
-- writes every operation to a journal before and after it acts, and keeps a ledger of the keys and
-- buttons that are held down, so that a crash never leaves an input held or a resource lost. This
-- development models the data contracts of these parts, the components that keep their state, and
-- the planning of input actions.
--
-- Identity: shared/src/contracts/identities.ts, generations, fences and targets.
-- Failure: shared/src/contracts/errors.ts, the error that a record carries.
-- Recovery: shared/src/contracts/recovery-domain.ts, the durable gate before an input is sent.
-- Resource: shared/src/contracts/resources.ts, handles, cleanup outcomes and receipts.
-- Operation: shared/src/contracts/operations.ts. Operation/Transitions has the state machine,
--   Operation/Record the records and what `operationRecordSchema` accepts.
-- Registry: runtime/src/resources.ts, `ResourceRegistry`. Registry has `acquire`, `assertActive` and
--   `assertOwnedSet`; Registry/Cleanup has `prepareCleanup` and the `commit` that it returns;
--   Registry/Methods has the other methods. The theorems stand in Registry/Acquire, Grants,
--   Invariant, Staging, Commit, Release, Reuse, Receipts, Preserve, Quarantine, Interrupt,
--   Mutation and Authority. Registry/Requirements has the interface `ResourceAuthority`, its clients
--   `requireAuthorizedResourceHandles` and `assertCleanupOwnsExactHandles`, and the registry as its
--   implementation.
-- Journal: runtime/src/storage/operation-journal.ts, `FileOperationJournal`. Journal/Reach has
--   `canReachOperationState`, Journal/Advance the checks of a new revision, Journal/Persist
--   `persist` and `read`; the theorems stand in Journal/Reach, Order, Facts, History and Readback.
-- Ledger: runtime/src/storage/held-ledger.ts and the ledger of
--   shared/src/contracts/native-lifecycle.ts. Ledger has the snapshots and
--   `validateLedgerTransition`, Ledger/Persist `FileHeldInputLedger.persist`; the theorems stand in
--   Ledger/Entries, History, Answers and Chain.
-- Sessions: runtime/src/client-sessions.ts, `ClientSessionRegistry`; Sessions/Restore has
--   `restore`. The theorems stand in Sessions/Restore, Restart, Revoke, Resume and
--   Expiry.
-- Lifetime: runtime/src/lifetime-state.ts, the record of a browser that outlives an operation, with
--   the handle of shared/src/contracts/reservations.ts. Lifetime/Persist has `FileLifetimeStore`;
--   the theorems stand in Lifetime/Moves, Writes, Readable, History and Ownership, which has the
--   abstract view.
-- Continuations: runtime/src/continuations.ts, `NativeContinuationRegistry`. Continuations/Tasks has
--   the methods that change a task, Continuations/Issue `issue`; the theorems stand in
--   Continuations/Facts, Writes, History, Checked and Requests.
-- Rotation: runtime/src/rotation.ts, `startRuntimeRotation`; the theorems stand in
--   Rotation/Phases and Exit.
-- Grace: runtime/src/client-grace.ts, `ClientDisconnectGrace`; the theorems stand in
--   Grace/Timers, Entries and Reconnect.
-- Input: input/src. Input/Keys has keys.ts, Input/Modifiers, Pointer, Text and Keyboard the planners
--   of action-plan.ts, Input/Budget the budgets, the actions of actions.ts and the admission of
--   authorization.ts, Input/Authorize and Prepare `prepareInputAction`; the theorems stand in
--   Input/Modifiers, Drag, Cut, Chunks, Admission, Refusals and Prepared.
-- Base: results of calls that may throw, JavaScript's `Map`, Boolean tests, lists.
--
-- How the parts interact: an operation record holds the handles that the registry granted and the
-- outcome of their cleanup; the registry issues the receipt of a cleanup, and the journal asks for
-- it before it writes that the cleanup is complete; sessions name the client and the principal in
-- both. An input action is prepared only with an authorized lease of the desktop input, which it
-- asks of the interface that the registry implements.
--
-- A method is a function from a state to a new state or an exception. `Result E A` is the return or
-- the throw; a throw leaves the state as it was, except in `quarantine`, which returns both. The
-- numbers that random identifiers have been drawn in a call that throws are not kept. The identity
-- of an object under `slot.current` is a number that is new with each object. A `Map` is a list of
-- entries with one for each key, in the order of insertion.
--
-- A promise that is awaited is an event of the rotation; one that is not awaited is a late result
-- and changes nothing. A timer that fires is an event of the grace, which keeps the list of the
-- timers that are set. A call of `issue` that throws may have drawn identifiers, and returns the
-- registry with them.
--
-- Parameters, the records `Host`, `JournalHost`, `LedgerHost`, `SessionHost`, `LifetimeHost`,
-- `ContinuationHost` and `TextHost`, and what lookups and services return at a call, `Surroundings`
-- and `Preparation`: the random identifiers by the number of the draw, SHA-256 and HMAC of
-- canonical texts, file names, the size of a file in bytes, and `localeCompare`. No theorem assumes
-- that digests do not collide or that drawn identifiers differ, unless it says so.
--
-- Timestamps are milliseconds since the epoch, identifiers texts. Equality of canonical JSON texts
-- is equality of values. Of the zod schemas the refinements and the bounds on numbers and lists of
-- the journal, the ledger and the cleanup are modelled, not the lengths and alphabets of texts: a
-- request identifier of the ledger is taken to be one that the schema of the answer accepts. (The
-- source throws on another one, after it has written.) Files are a map from paths; modes, symbolic
-- links, temporary files and failures of the file system are not modelled, nor is the order in
-- which queued calls start: a call is one step. The search of the state machine has fuel for 100
-- turns: it expands each of nine states once, with at most nine candidates.
--
-- A text to be typed is the list of its UTF-16 units, and its graphemes are what `Intl.Segmenter`
-- returns, a parameter; where a theorem needs that graphemes are not empty and make up the text, it
-- says so. A coordinate is a JavaScript number of which the planners ask three things, `Numbers`.
-- Durations, delays and counts of input actions are natural numbers, as their schemas have made
-- sure. `Math.round` of a quotient of whole numbers below 2 ^ 22 is computed on natural numbers.
-- The look-ups in the tables of keys and modifiers find the members that every object inherits, as
-- they do in JavaScript.
--
-- Not modelled: the HTTP, socket and MCP servers, the native host in Objective-C, browser and
-- device clients, reservations, the renewal of clients, and the dispatcher in runtime/src/core.ts.
pub mod Base
pub mod Identity
pub mod Failure
pub mod Recovery
pub mod Resource
pub mod Operation
pub mod Registry
pub mod Journal
pub mod Ledger
pub mod Lifetime
pub mod Rotation
pub mod Grace
pub mod Input
pub mod Continuations
pub mod Sessions

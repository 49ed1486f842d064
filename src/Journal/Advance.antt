-- ===== src/Journal/Advance.antt =====
-- Which record may follow another under the same key: `assertMonotonicOperationFacts`,
-- `assertCleanupAdvance` and `dispatchCanAdvance` of runtime/src/storage/operation-journal.ts.
use ai_macos.Base.{
  ℕ, String, Bool, true, false, ◌&&◌, ◌||◌, Option, none, some, List, [], ◌∷◌, ◌==◌, nat_eq,
  string_eq, ltb, negate, includes, any, Result, ok, err, ◌>>=◌, ◌>>◌, reject_if, or_throw,
  if◌then◌else◌,
}
use ai_macos.Recovery.{RecoveryGate, Grant, not_authorized, send_authorized, recovery_gate_eq}
use ai_macos.Failure.{ContractError, contract_error_eq}
use ai_macos.Resource.{Receipt}
use ai_macos.Operation.{Context}
use ai_macos.Operation.Transitions.{is_terminal}
use ai_macos.Operation.Record.{
  OperationRecord, DispatchState, unsent, attempted, partial, finished, unknown, dispatch_state_eq,
  Interference, ObservationState, Effect, unverified, proved, is_verified, is_cleanup_complete,
  receipt_correlates,
}
use ai_macos.Registry.Cleanup.{receipt_is_valid}
use ai_macos.Journal.{
  JournalHost, JournalError, gate_is_retrospective, gate_vanished, grant_changed, gate_rebound,
  terminal_is_authorized, grant_mismatch, attempts_rolled_back, ledger_rolled_back,
  dispatch_rolled_back, target_lost, interference_lost, observation_lost, effect_lost, proof_lost,
  terminal_outcome_changed, terminal_error_changed, complete_cleanup_changed,
  terminal_cleanup_changed, receipt_required, invalid_receipt, receipt_not_correlated,
  terminal_facts, outcome_eq, cleanup_eq,
}

-- The table `allowed` of `dispatchCanAdvance`.
abbrev allowed : DispatchState → List DispatchState
allowed unsent = attempted ∷ partial ∷ finished ∷ unknown ∷ []
allowed attempted = partial ∷ finished ∷ unknown ∷ []
allowed partial = finished ∷ unknown ∷ []
allowed finished = []
allowed unknown = partial ∷ finished ∷ []

unfoldable pub dispatch_can_advance : DispatchState → DispatchState → Bool
dispatch_can_advance previous next = previous == next || includes (allowed previous) next

unfoldable pub grant_fits : JournalHost → String → String → Context → ℕ → Grant → Bool
grant_fits host build generation context revision g =
    (g.descriptor.native_build_id == build)
    && (g.native_generation == generation)
    && (g.journal_revision == revision)
    && (g.context_sha256 == host.context_digest context)
    && (g.descriptor_sha256 == host.descriptor_digest g.descriptor)

-- The checks of `nativeRecovery` when both records may have a gate.
unfoldable pub assert_gate :
    JournalHost
    → (is_over : Bool) → Context
    → ℕ
    → Option RecoveryGate
    → Option RecoveryGate
    → Result JournalError (Unit {0})
assert_gate host is_over context revision none none = ok tt
assert_gate host is_over context revision none (some after) = err gate_is_retrospective
assert_gate host is_over context revision (some before) none = err gate_vanished
assert_gate host is_over context revision (some (send_authorized g)) (some after) =
    reject_if (negate (send_authorized g == after)) grant_changed
assert_gate host is_over context revision (some (not_authorized b n)) (some (not_authorized c m)) =
    reject_if (negate (not_authorized b n == not_authorized c m)) gate_rebound
assert_gate host is_over context revision (some (not_authorized b n)) (some (send_authorized g)) =
    do
      reject_if is_over terminal_is_authorized
      reject_if (negate (grant_fits host b n context revision g)) grant_mismatch

-- The source's `ledgerRevision ?? 0`.
abbrev pub or_zero : Option ℕ → ℕ
or_zero none = 0
or_zero (some n) = n

abbrev pub is_observed : Interference → Bool
is_observed Interference.observed = true
is_observed _ = false

abbrev pub is_available : ObservationState → Bool
is_available ObservationState.available = true
is_available _ = false

-- The checks of a verified effect: it stays verified and keeps its proofs.
unfoldable pub assert_effect : Effect → Effect → Result JournalError (Unit {0})
assert_effect unverified next = ok tt
assert_effect (proved refs) unverified = err effect_lost
assert_effect (proved refs) (proved later) =
    reject_if (any (λ p. negate (includes later p)) refs) proof_lost

abbrev pub same_error : Option ContractError → Option ContractError → Bool
same_error none none = true
same_error (some e) (some f) = e == f
same_error _ _ = false

unfoldable pub assert_terminal_facts :
    OperationRecord → OperationRecord → Result JournalError (Unit {0})
assert_terminal_facts previous next = do
  reject_if (negate (terminal_facts previous.outcome == terminal_facts next.outcome))
      terminal_outcome_changed
  reject_if (negate (same_error previous.error next.error)) terminal_error_changed

-- What `assertCleanupAdvance` asks of a receipt.
unfoldable pub assert_receipt : Option Receipt → OperationRecord → Result JournalError (Unit {0})
assert_receipt offered next = do
  receipt ← or_throw offered receipt_required
  reject_if (negate (receipt_is_valid receipt)) invalid_receipt
  reject_if (negate (receipt_correlates receipt next)) receipt_not_correlated

unfoldable pub assert_cleanup :
    OperationRecord → OperationRecord → Option Receipt → Result JournalError (Unit {0})
assert_cleanup previous next offered =
    let before = previous.outcome.cleanup in
    let after = next.outcome.cleanup in
    let advance = (do
      reject_if
          (is_terminal previous.state
            && negate (is_cleanup_complete after)
            && negate (before == after))
          terminal_cleanup_changed
      if is_cleanup_complete after then assert_receipt offered next else ok tt) in
    if is_cleanup_complete before
    then reject_if (negate (before == after)) complete_cleanup_changed
    else advance

unfoldable pub assert_monotonic :
    JournalHost
    → OperationRecord
    → OperationRecord
    → Option Receipt
    → ℕ
    → Result JournalError (Unit {0})
assert_monotonic host previous next offered revision =
    let before = previous.outcome in
    let after = next.outcome in
    do
      assert_gate host (is_terminal previous.state) next.context revision previous.native_recovery
          next.native_recovery
      reject_if (ltb after.dispatch_attempts before.dispatch_attempts) attempts_rolled_back
      reject_if (ltb (or_zero after.ledger_revision) (or_zero before.ledger_revision))
          ledger_rolled_back
      reject_if (negate (dispatch_can_advance before.dispatch after.dispatch)) dispatch_rolled_back
      reject_if (is_verified before.target_verified && negate (is_verified after.target_verified))
          target_lost
      reject_if
          (is_observed before.user_interference && negate (is_observed after.user_interference))
          interference_lost
      reject_if (is_available before.observation && negate (is_available after.observation))
          observation_lost
      assert_effect before.effect after.effect
      if is_terminal previous.state then assert_terminal_facts previous next else ok tt
      assert_cleanup previous next offered

-- ===== src/Journal/Facts.antt =====
-- What a later revision keeps of a record, by `assertMonotonicOperationFacts` of
-- runtime/src/storage/operation-journal.ts.
use ai_macos.Base.{
  ℕ, String, ◌≤◌, ◌≡◌, refl, sym, ap, subst, ◌∙◌, inl, inr, Bool, true, false, negate, Option, none,
  some, List, [], ◌∷◌, arith, ◌==◌, string_eq, nat_eq, All, All-imp, ok, Bool-cases, ==_refl,
  eq_of_==, any, includes,
}
use ai_macos.Failure.{contract_error_eq}
use ai_macos.Recovery.{RecoveryGate, recovery_gate_eq, not_authorized, send_authorized}
use ai_macos.Resource.{Receipt}
use ai_macos.Operation.Transitions.{OperationState, is_terminal, terminal_has_no_step}
use ai_macos.Operation.Record.{
  OperationRecord, DispatchState, dispatch_state_eq, Effect, unverified, proved, is_verified,
  is_cleanup_complete,
}
use ai_macos.Journal.{JournalHost, terminal_facts, outcome_eq, cleanup_eq, operation_authority}
use ai_macos.Journal.Reach.{Reaches}
use ai_macos.Journal.Advance.{
  dispatch_can_advance, grant_fits, assert_gate, assert_effect, assert_terminal_facts,
  assert_cleanup, assert_monotonic, same_error, is_observed, is_available, or_zero,
}
use ai_macos.Journal.Persist.{assert_successor}
use ai_macos.Journal.Order.{assert_successor-Succeeds, assert_successor-monotonic}

-- A verified effect stays verified, with all its proofs.
abbrev pub KeepsEffect : Effect → Effect → Type 0
KeepsEffect unverified after = Unit
KeepsEffect (proved refs) unverified = ⊥
KeepsEffect (proved refs) (proved later) = All (λ p. includes later p ≡ true) refs

-- A gate neither appears nor vanishes, and a granted one stays as it is.
abbrev pub KeepsGate : Option RecoveryGate → Option RecoveryGate → Type 0
KeepsGate none after = after ≡ none
KeepsGate (some (send_authorized g)) after = after ≡ some (send_authorized g)
KeepsGate (some (not_authorized b n)) none = ⊥
KeepsGate (some (not_authorized b n)) (some (not_authorized c m)) = (b ≡ c) × (n ≡ m)
KeepsGate (some (not_authorized b n)) (some (send_authorized g)) =
    (g.descriptor.native_build_id ≡ b) × (g.native_generation ≡ n)

-- What a record has kept of an earlier one.
pub record Follows (before after : OperationRecord) : Type 0 where
  pub authority : operation_authority after ≡ operation_authority before
  pub path : Reaches before.state after.state
  pub time : before.updated_at ≤ after.updated_at
  pub gate : KeepsGate before.native_recovery after.native_recovery
  pub attempts : before.outcome.dispatch_attempts ≤ after.outcome.dispatch_attempts
  pub ledger : or_zero before.outcome.ledger_revision ≤ or_zero after.outcome.ledger_revision
  pub dispatch : dispatch_can_advance before.outcome.dispatch after.outcome.dispatch ≡ true
  pub target :
      is_verified before.outcome.target_verified ≡ true
      → is_verified after.outcome.target_verified ≡ true
  pub interference :
      is_observed before.outcome.user_interference ≡ true
      → is_observed after.outcome.user_interference ≡ true
  pub observation :
      is_available before.outcome.observation ≡ true → is_available after.outcome.observation ≡ true
  pub effect : KeepsEffect before.outcome.effect after.outcome.effect
  pub facts :
      is_terminal before.state ≡ true → terminal_facts after.outcome ≡ terminal_facts before.outcome
  pub error : is_terminal before.state ≡ true → after.error ≡ before.error
  pub cleanup :
      is_cleanup_complete before.outcome.cleanup ≡ true
      → after.outcome.cleanup ≡ before.outcome.cleanup

gate_kept :
    (host : JournalHost) (over : Bool) (context : _) (revision : ℕ)
    (before after : Option RecoveryGate)
    → assert_gate host over context revision before after ≡ ok tt
    → KeepsGate before after
unfolding assert_gate grant_fits
gate_kept host over context revision none none h = refl
gate_kept host over context revision none (some g) h = cc
gate_kept host over context revision (some (send_authorized g)) none h = cc
gate_kept host over context revision (some (send_authorized g)) (some after) h = ground arith
gate_kept host over context revision (some (not_authorized b n)) none h = cc
gate_kept host over context revision (some (not_authorized b n)) (some (not_authorized c m)) h =
    ground arith
gate_kept host over context revision (some (not_authorized b n)) (some (send_authorized g)) h =
    ground arith

effect_kept :
    (before after : Effect) → assert_effect before after ≡ ok tt → KeepsEffect before after
unfolding assert_effect
effect_kept unverified after h = tt
effect_kept (proved refs) unverified h = cc
effect_kept (proved refs) (proved later) h = kept refs (ground arith)
  where
    kept :
        (refs : List String)
        → any (λ p. negate (includes later p)) refs ≡ false
        → All (λ p. includes later p ≡ true) refs
    kept [] e = tt
    kept (p ∷ refs) e = (ground arith, kept refs (ground arith))

facts_kept :
    (before after : OperationRecord)
    → assert_terminal_facts before after ≡ ok tt
    → (terminal_facts after.outcome ≡ terminal_facts before.outcome)
      × (same_error before.error after.error ≡ true)
unfolding assert_terminal_facts
facts_kept before after h = ground arith

errors_equal : (e f : Option _) → same_error e f ≡ true → f ≡ e
errors_equal none none h = refl
errors_equal none (some f) h = cc
errors_equal (some e) none h = cc
errors_equal (some e) (some f) h = ground arith

cleanup_kept :
    (before after : OperationRecord) (offered : Option Receipt)
    → assert_cleanup before after offered ≡ ok tt
    → is_cleanup_complete before.outcome.cleanup ≡ true
    → after.outcome.cleanup ≡ before.outcome.cleanup
unfolding assert_cleanup
cleanup_kept before after offered h complete = ground arith

module _ (host : JournalHost) (before after : OperationRecord) (offered : Option Receipt)
    (revision : ℕ) where
  pub assert_successor-Follows :
      assert_successor host before after offered revision ≡ ok tt → Follows before after
  unfolding assert_monotonic
  assert_successor-Follows h =
      let s = assert_successor-Succeeds host before after offered revision h in
      let m = assert_successor-monotonic host before after offered revision h in
      record {
        authority = s.authority;
        path = s.path;
        time = s.time;
        gate =
            gate_kept host (is_terminal before.state) after.context revision before.native_recovery
              after.native_recovery (ground arith);
        attempts = ground arith;
        ledger = ground arith;
        dispatch = ground arith;
        target = λ v. ground arith;
        interference = λ v. ground arith;
        observation = λ v. ground arith;
        effect = effect_kept before.outcome.effect after.outcome.effect (ground arith);
        facts = λ over. (facts_kept before after (ground arith)).0;
        error = λ over.
            errors_equal before.error after.error (facts_kept before after (ground arith)).1;
        cleanup = cleanup_kept before after offered (ground arith);
      }

path_trans : {a b c : OperationState} → Reaches a b → Reaches b c → Reaches a c
path_trans p Reaches.here = p
path_trans p (Reaches.onward q step) = Reaches.onward (path_trans p q) step

-- No path leads out of a terminal state.
terminal_stays : {a b : OperationState} → Reaches a b → is_terminal a ≡ true → b ≡ a
terminal_stays Reaches.here over = refl
terminal_stays {a} (Reaches.onward {mid} {to} q step) over =
    let stay = terminal_stays q over in
    cc (terminal_has_no_step mid to (ap is_terminal stay ∙ over))

dispatch_trans :
    (a b c : DispatchState)
    → dispatch_can_advance a b ≡ true
    → dispatch_can_advance b c ≡ true
    → dispatch_can_advance a c ≡ true
unfolding dispatch_can_advance
dispatch_trans a b c h k = ground arith

effect_trans : (a b c : Effect) → KeepsEffect a b → KeepsEffect b c → KeepsEffect a c
effect_trans unverified b c h k = tt
effect_trans (proved refs) unverified c h k = absurd h
effect_trans (proved refs) (proved later) unverified h k = absurd k
effect_trans (proved refs) (proved later) (proved last) h k =
    All-imp refs (λ p m. found later p m k) h
  where
    found :
        (xs : List String) (p : String)
        → includes xs p ≡ true
        → All (λ q. includes last q ≡ true) xs
        → includes last p ≡ true
    found [] p m k = cc
    found (x ∷ xs) p m k = elim (Bool-cases (x == p)) [
      | inl same ↦ subst (λ q. includes last q ≡ true) (eq_of_== x p same) k.0
      | inr other ↦ found xs p (ground arith) k.1
    ]

gate_trans : (a b c : Option RecoveryGate) → KeepsGate a b → KeepsGate b c → KeepsGate a c
gate_trans none b c h k = subst (λ o. KeepsGate o c) h k
gate_trans (some (send_authorized g)) b c h k = subst (λ o. KeepsGate o c) h k
gate_trans (some (not_authorized x n)) none c h k = absurd h
gate_trans (some (not_authorized x n)) (some (not_authorized y m)) none h k = absurd k
gate_trans (some (not_authorized x n)) (some (not_authorized y m)) (some (not_authorized z l)) h k =
    (h.0 ∙ k.0, h.1 ∙ k.1)
gate_trans (some (not_authorized x n)) (some (not_authorized y m)) (some (send_authorized g)) h k =
    (k.0 ∙ sym h.0, k.1 ∙ sym h.1)
gate_trans (some (not_authorized x n)) (some (send_authorized g)) c h k =
    subst (KeepsGate (some (not_authorized x n))) (sym k) h

pub Follows-trans : {a b c : OperationRecord} → Follows a b → Follows b c → Follows a c
Follows-trans {a} {b} {c} f g = record {
  authority = g.authority ∙ f.authority;
  path = path_trans f.path g.path;
  time = omega (arith, f.time, g.time);
  gate = gate_trans a.native_recovery b.native_recovery c.native_recovery f.gate g.gate;
  attempts = omega (arith, f.attempts, g.attempts);
  ledger = omega (arith, f.ledger, g.ledger);
  dispatch =
      dispatch_trans a.outcome.dispatch b.outcome.dispatch c.outcome.dispatch f.dispatch g.dispatch;
  target = λ v. g.target (f.target v);
  interference = λ v. g.interference (f.interference v);
  observation = λ v. g.observation (f.observation v);
  effect = effect_trans a.outcome.effect b.outcome.effect c.outcome.effect f.effect g.effect;
  facts = λ over. g.facts (still over) ∙ f.facts over;
  error = λ over. g.error (still over) ∙ f.error over;
  cleanup = λ complete.
      g.cleanup (ap is_cleanup_complete (f.cleanup complete) ∙ complete) ∙ f.cleanup complete;
}
  where
    still : is_terminal a.state ≡ true → is_terminal b.state ≡ true
    still over = ap is_terminal (terminal_stays f.path over) ∙ over

All-included : (xs : List String) → All (λ p. includes xs p ≡ true) xs
All-included [] = tt
All-included (x ∷ xs) =
    (ground (arith, ==_refl x), All-imp xs (λ p m. ground (arith, m)) (All-included xs))

pub Follows-refl : (r : OperationRecord) → Follows r r
unfolding dispatch_can_advance
Follows-refl r = record {
  authority = refl;
  path = Reaches.here;
  time = omega arith;
  gate = same_gate r.native_recovery;
  attempts = omega arith;
  ledger = omega arith;
  dispatch = ground arith;
  target = λ v. v;
  interference = λ v. v;
  observation = λ v. v;
  effect = same_effect r.outcome.effect;
  facts = λ over. refl;
  error = λ over. refl;
  cleanup = λ complete. refl;
}
  where
    same_gate : (g : Option RecoveryGate) → KeepsGate g g
    same_gate none = refl
    same_gate (some (not_authorized b n)) = (refl, refl)
    same_gate (some (send_authorized g)) = refl

    same_effect : (e : Effect) → KeepsEffect e e
    same_effect unverified = tt
    same_effect (proved refs) = All-included refs

-- ===== src/Lifetime/Moves.antt =====
-- What one record keeps of another under the same physical ownership key
-- (`assertLifetimeTransition` of runtime/src/lifetime-state.ts).
use ai_macos.Base.{
  ◌<◌, ◌≡◌, refl, ◌∙◌, ◌⊎◌, inl, inr, true, arith, ◌==◌, string_eq, nat_eq, includes, ok,
  Bool-cases, eq_of_==,
}
use ai_macos.Lifetime.{
  LifetimeRecord, LifetimeState, lifetime_state_eq, ownership_key_eq, stable_owner_eq,
  lifetime_target_eq, allowed, same_life, assert_transition,
}

-- A path of allowed transitions.
pub data Moves (from : LifetimeState) : LifetimeState → Type 0 where
  here : Moves from from
  onward :
      {mid to : LifetimeState} → Moves from mid → includes (allowed mid) to ≡ true → Moves from to

-- The later record is of the same binding, with the same owner and configuration, and its state
-- has moved along the table.
pub record Lives (before after : LifetimeRecord) : Type 0 where
  pub binding_id : after.binding_id ≡ before.binding_id
  pub owner : after.owner ≡ before.owner
  pub config_fingerprint : after.config_fingerprint ≡ before.config_fingerprint
  pub key : after.physical_ownership_key ≡ before.physical_ownership_key
  pub lineage_id : after.lineage_id ≡ before.lineage_id
  pub operation_id : after.operation_id ≡ before.operation_id
  pub initial_target : after.initial_target ≡ before.initial_target
  pub path : Moves before.state after.state

Moves-trans : {a b c : LifetimeState} → Moves a b → Moves b c → Moves a c
Moves-trans p Moves.here = p
Moves-trans p (Moves.onward q step) = Moves.onward (Moves-trans p q) step

pub Lives-refl : (r : LifetimeRecord) → Lives r r
Lives-refl r = record {
  binding_id = refl;
  owner = refl;
  config_fingerprint = refl;
  key = refl;
  lineage_id = refl;
  operation_id = refl;
  initial_target = refl;
  path = Moves.here;
}

pub Lives-trans : {a b c : LifetimeRecord} → Lives a b → Lives b c → Lives a c
Lives-trans f g = record {
  binding_id = g.binding_id ∙ f.binding_id;
  owner = g.owner ∙ f.owner;
  config_fingerprint = g.config_fingerprint ∙ f.config_fingerprint;
  key = g.key ∙ f.key;
  lineage_id = g.lineage_id ∙ f.lineage_id;
  operation_id = g.operation_id ∙ f.operation_id;
  initial_target = g.initial_target ∙ f.initial_target;
  path = Moves-trans f.path g.path;
}

-- The next record of a key: of a higher revision, and of the same life unless that was over.
pub record Succeeds (before after : LifetimeRecord) : Type 0 where
  pub revision : before.revision < after.revision
  pub life : (before.state ≡ LifetimeState.released) ⊎ Lives before after

module _ (before after : LifetimeRecord) where
  lives :
      same_life before after ≡ true
      → includes (allowed before.state) after.state ≡ true
      → Lives before after
  unfolding same_life
  lives same step = record {
    binding_id = ground arith;
    owner = ground arith;
    config_fingerprint = ground arith;
    key = ground arith;
    lineage_id = ground arith;
    operation_id = ground arith;
    initial_target = ground arith;
    path = Moves.onward Moves.here step;
  }

  pub assert_transition-Succeeds : assert_transition before after ≡ ok tt → Succeeds before after
  unfolding assert_transition
  assert_transition-Succeeds h = record {
    revision = ground arith;
    life = elim (Bool-cases (before.state == LifetimeState.released)) [
      | inl over ↦ inl (eq_of_== before.state LifetimeState.released over)
      | inr living ↦ inr (lives (ground arith) (ground arith))
    ];
  }

-- ===== src/Journal/Order.antt =====
-- The order of the revisions of one record (runtime/src/storage/operation-journal.ts).
use ai_macos.Base.{
  ℕ, ◌≤◌, ◌≡◌, inl, inr, Option, arith, ◌==◌, string_eq, nat_eq, ok, Bool-cases, eq_of_==,
}
use ai_macos.Resource.{Receipt}
use ai_macos.Operation.Transitions.{operation_state_eq}
use ai_macos.Operation.Record.{OperationRecord}
use ai_macos.Journal.{
  JournalHost, journal_key_eq, operation_record_eq, operation_authority, authority_eq,
}
use ai_macos.Journal.Reach.{Reaches, can_reach-Reaches}
use ai_macos.Journal.Advance.{assert_monotonic}
use ai_macos.Journal.Persist.{assert_successor}

-- What a new revision of a record keeps of the durable one.
pub record Succeeds (previous next : OperationRecord) : Type 0 where
  pub authority : operation_authority next ≡ operation_authority previous
  pub path : Reaches previous.state next.state
  pub time : previous.updated_at ≤ next.updated_at

module _ (host : JournalHost) (previous next : OperationRecord) (offered : Option Receipt)
    (revision : ℕ) where
  state_moves :
      assert_successor host previous next offered revision ≡ ok tt
      → Reaches previous.state next.state
  unfolding assert_successor
  state_moves h = elim (Bool-cases (next.state == previous.state)) [
    | inl same ↦ rw (eq_of_== next.state previous.state same) Reaches.here
    | inr other ↦
        let (b, found, meaning) = can_reach-Reaches previous.state next.state in
        meaning.0 (ground (arith, found))
  ]

  pub assert_successor-Succeeds :
      assert_successor host previous next offered revision ≡ ok tt → Succeeds previous next
  unfolding assert_successor
  assert_successor-Succeeds h = record {
    authority = ground arith;
    path = state_moves h;
    time = ground arith;
  }

  pub assert_successor-monotonic :
      assert_successor host previous next offered revision ≡ ok tt
      → assert_monotonic host previous next offered revision ≡ ok tt
  unfolding assert_successor
  assert_successor-monotonic h = ground arith

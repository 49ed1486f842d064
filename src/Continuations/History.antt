-- ===== src/Continuations/History.antt =====
-- Sequences of calls of `NativeContinuationRegistry` (runtime/src/continuations.ts).
use ai_macos.Base.{
  ℕ, String, ◌≡◌, refl, sym, ap, subst, subst₂, ◌∙◌, some, arith, ◌==◌, string_eq, nat_eq, Result,
  ok, err, inl, inr, Bool-cases, Option-cases, Result-cases, eq_of_==,
}
use ai_macos.Base.Dict
use ai_macos.Base.Dict.{get-set}
use ai_macos.Identity.{fence_eq}
use ai_macos.Continuations.{
  TaskBinding, TaskKey, Registration, StatusAdvance, TerminalMark, IssueRequest, Continuations,
  ContinuationHost, ContinuationError, Continuation, Surroundings, IdempotencyKey, task_key_eq,
  idempotency_key_eq, task_binding_eq,
}
use ai_macos.Continuations.Tasks.{
  register_accepted_task, advance_verified_status, mark_verified_terminal,
}
use ai_macos.Continuations.Issue.{
  Confirmed, issue, issue_control, prepare, cleanup_request_id, idempotency_key,
}
use ai_macos.Continuations.Writes.{IsSound, Writes, register-Binds, advance-Binds, terminal-Binds}
use ai_macos.Continuations.Facts.{Follows, Follows-refl, Follows-trans, Fits}

-- What `issue` returns, with the registry that it leaves.
abbrev pub Issued : Type 0
Issued = Result ContinuationError Continuation × Continuations

-- `issue` changes no task and keeps the identifiers that keys have.
module _ (host : ContinuationHost) (around : Surroundings) (registry : Continuations) where
  cleanup_ids_kept :
      (key other : IdempotencyKey) (id : String)
      → Dict.get other registry.cleanup_ids ≡ some id
      → Dict.get other (cleanup_request_id host registry key).1.cleanup_ids ≡ some id
  unfolding cleanup_request_id
  cleanup_ids_kept key other id found = elim (Option-cases (Dict.get key registry.cleanup_ids)) [
    | inr (old, there) ↦ ground (arith, there)
    | inl missing ↦
        let fresh = host.next_id "native-cleanup" registry.drawn in
        let there = get-set key other fresh registry.cleanup_ids in
        elim (Bool-cases (key == other)) [
          | inl same ↦ cc (eq_of_== key other same, missing, found)
          | inr different ↦ ground (arith, missing, there, different, found)
        ]
  ]

  tasks_kept :
      (key : IdempotencyKey) → (cleanup_request_id host registry key).1.tasks ≡ registry.tasks
  unfolding cleanup_request_id
  tasks_kept key = elim (Option-cases (Dict.get key registry.cleanup_ids)) [
    | inr (old, there) ↦ ground (arith, there)
    | inl missing ↦ ground (arith, missing)
  ]

  issue_control_ids :
      (request : IssueRequest) (c : Confirmed) (deadline : ℕ)
      → (issue_control host around.now registry request c deadline).1.cleanup_ids
        ≡ (cleanup_request_id host registry (idempotency_key request)).1.cleanup_ids
  unfolding issue_control
  issue_control_ids request c deadline = refl

  issue_control_tasks :
      (request : IssueRequest) (c : Confirmed) (deadline : ℕ)
      → (issue_control host around.now registry request c deadline).1.tasks ≡ registry.tasks
  unfolding issue_control
  issue_control_tasks request c deadline = tasks_kept (idempotency_key request)

  pub issue_failed :
      (request : IssueRequest) {e : ContinuationError}
      → prepare host around registry request ≡ err e
      → issue host around registry request ≡ (err e, registry)
  unfolding issue
  issue_failed request failed = rw (failed, issue) refl

  pub issue_done :
      (request : IssueRequest) {a : Confirmed × ℕ}
      → prepare host around registry request ≡ ok a
      → issue host around registry request ≡ issue_control host around.now registry request a.0 a.1
  unfolding issue
  issue_done request done = rw (done, issue) refl

  issue_tasks :
      (request : IssueRequest) → (issue host around registry request).1.tasks ≡ registry.tasks
  issue_tasks request = elim (Result-cases (prepare host around registry request)) [
    | inr (e, failed) ↦ ap (λ (p : Issued). p.1.tasks) (issue_failed request failed)
    | inl (a, done) ↦
        ap (λ (p : Issued). p.1.tasks) (issue_done request {a = a} done)
        ∙ issue_control_tasks request a.0 a.1
  ]

  pub issue_ids :
      (request : IssueRequest) (key : IdempotencyKey) (id : String)
      → Dict.get key registry.cleanup_ids ≡ some id
      → Dict.get key (issue host around registry request).1.cleanup_ids ≡ some id
  issue_ids request key id found = elim (Result-cases (prepare host around registry request)) [
    | inr (e, failed) ↦
        ap (λ (p : Issued). Dict.get key p.1.cleanup_ids) (issue_failed request failed) ∙ found
    | inl (a, done) ↦
        let kept = cleanup_ids_kept (idempotency_key request) key id found in
        ap (λ (p : Issued). Dict.get key p.1.cleanup_ids) (issue_done request {a = a} done)
        ∙ ap (Dict.get key) (issue_control_ids request a.0 a.1)
        ∙ kept
  ]

-- One call of the registry that returns, or an `issue`, which may also throw.
pub data Step (host : ContinuationHost) (before after : Continuations) : Type 0 where
  registered :
      (around : Surroundings) (request : Registration)
      → register_accepted_task around before request ≡ ok after
      → Step host before after
  advanced :
      (around : Surroundings) (request : StatusAdvance)
      → advance_verified_status around before request ≡ ok after
      → Step host before after
  ended :
      (around : Surroundings) (request : TerminalMark)
      → mark_verified_terminal around before request ≡ ok after
      → Step host before after
  issued :
      (around : Surroundings) (request : IssueRequest)
      → (issue host around before request).1 ≡ after
      → Step host before after

pub data Calls (host : ContinuationHost) (start : Continuations) : Continuations → Type 0 where
  none_yet : Calls host start start
  onward :
      {mid after : Continuations}
      → Calls host start mid
      → Step host mid after
      → Calls host start after

module _ (host : ContinuationHost) where
  Step-Writes : (before after : Continuations) → Step host before after → Writes before after
  Step-Writes before after (Step.registered around request h) =
      (register-Binds around before request h).writes
  Step-Writes before after (Step.advanced around request h) =
      (advance-Binds around before request h).writes
  Step-Writes before after (Step.ended around request h) =
      (terminal-Binds around before request h).writes
  Step-Writes before after (Step.issued around request h) =
      Writes.nothing
        (ap (λ (x : Continuations). x.tasks) (sym h) ∙ issue_tasks host around before request)

  Writes-keep :
      (before after : Continuations) (key : TaskKey) (old : TaskBinding)
      → Writes before after
      → Dict.get key before.tasks ≡ some old
      → (new : TaskBinding) × (Dict.get key after.tasks ≡ some new) × Follows old new
  Writes-keep before after key old (Writes.nothing same) found =
      (old, rw same found, Follows-refl old)
  Writes-keep before after key old (Writes.one at b stored follows fits) found =
      elim (Bool-cases (at == key)) [
        | inl same ↦ (
          b,
          rw stored (get-set at key b before.tasks ∙ rw same refl),
          follows old (ap (λ k. Dict.get k before.tasks) (eq_of_== at key same) ∙ found),
        )
        | inr other ↦
            (old, rw stored (get-set at key b before.tasks ∙ rw other found), Follows-refl old)
      ]

  -- Through any calls of the registry a task that is bound stays bound: to the same operation,
  -- resource lease and fence, with a status revision that never goes back, one binding for one
  -- revision, and a terminal binding that no call changes any more.
  pub tasks_keep :
      {start after : Continuations} (key : TaskKey) (old : TaskBinding)
      → Calls host start after
      → Dict.get key start.tasks ≡ some old
      → (new : TaskBinding) × (Dict.get key after.tasks ≡ some new) × Follows old new
  tasks_keep key old Calls.none_yet found = (old, found, Follows-refl old)
  tasks_keep {start} {after} key old (Calls.onward {mid} calls step) found =
      let (there, found_there, follows) =
        tasks_keep {start = start} {after = mid} key old calls found in
      let (new, found_new, later) =
        Writes-keep mid after key there (Step-Writes mid after step) found_there in
      (new, found_new, Follows-trans follows later)

  Writes-IsSound :
      (before after : Continuations) → Writes before after → IsSound before → IsSound after
  Writes-IsSound before after (Writes.nothing same) sound = record {
    fits = λ key b found. sound.fits key b (ap (Dict.get key) (sym same) ∙ found);
  }
  Writes-IsSound before after (Writes.one at b stored follows fits) sound = record {
    fits = λ key x found. elim (Bool-cases (at == key)) [
      | inl same ↦
          let there : Dict.get key after.tasks ≡ some b =
            rw stored (get-set at key b before.tasks ∙ rw same refl) in
          let is_new : b ≡ x = cc (there, found) in
          subst₂ Fits (eq_of_== at key same) is_new (fits sound)
      | inr other ↦
          let there : Dict.get key after.tasks ≡ Dict.get key before.tasks =
            rw stored (get-set at key b before.tasks ∙ rw other refl) in
          sound.fits key x (sym there ∙ found)
    ];
  }

  -- Through any calls, and whatever reports the host verifies, every binding stands under the key of
  -- its own operation and task, and a terminal one is drained with a complete cleanup.
  pub Calls-IsSound :
      {start after : Continuations} → IsSound start → Calls host start after → IsSound after
  Calls-IsSound sound Calls.none_yet = sound
  Calls-IsSound {start} {after} sound (Calls.onward {mid} calls step) =
      Writes-IsSound mid after (Step-Writes mid after step)
        (Calls-IsSound {start = start} {after = mid} sound calls)

  Step-ids :
      (before after : Continuations) (key : IdempotencyKey) (id : String)
      → Step host before after
      → Dict.get key before.cleanup_ids ≡ some id
      → Dict.get key after.cleanup_ids ≡ some id
  Step-ids before after key id (Step.registered around request h) found =
      rw (register-Binds around before request h).ids found
  Step-ids before after key id (Step.advanced around request h) found =
      rw (advance-Binds around before request h).ids found
  Step-ids before after key id (Step.ended around request h) found =
      rw (terminal-Binds around before request h).ids found
  Step-ids before after key id (Step.issued around request h) found =
      subst (λ (x : Continuations). Dict.get key x.cleanup_ids ≡ some id) h
        (issue_ids host around before request key id found)

  pub Calls-ids :
      {start after : Continuations} (key : IdempotencyKey) (id : String)
      → Calls host start after
      → Dict.get key start.cleanup_ids ≡ some id
      → Dict.get key after.cleanup_ids ≡ some id
  Calls-ids key id Calls.none_yet found = found
  Calls-ids {start} {after} key id (Calls.onward {mid} calls step) found =
      Step-ids mid after key id step (Calls-ids {start = start} {after = mid} key id calls found)

-- ===== src/Continuations/Checked.antt =====
-- What `issue` has checked before it draws identifiers (runtime/src/continuations.ts).
use ai_macos.Base.{
  ℕ, ◌≤◌, ◌<◌, negate, ◌&&◌, ◌≡◌, refl, ◌⊎◌, inl, inr, Bool, true, false, min, some, arith,
  string_eq, nat_eq, ok, Option-cases, Result-cases,
}
use ai_macos.Base.Dict
use ai_macos.Base.Dict.{get-set}
use ai_macos.Identity.{fence_eq}
use ai_macos.Resource.{Handle, HandleState}
use ai_macos.Continuations.{
  TaskBinding, Purpose, IssueRequest, CleanupControl, Continuations, ContinuationHost, Surroundings,
  task_key_eq, idempotency_key_eq,
}
use ai_macos.Continuations.Tasks.{NativeOperation, native_operation, task_key, is_none}
use ai_macos.Continuations.Issue.{
  Confirmed, confirm, check_purpose, deadline_of, maximum_deadline, requested_deadline, prepare,
  is_active, is_revoked,
}

-- Why a control of a purpose may be given: a release is of a terminal task whose resource is still
-- leased, or given back with a receipt; anything else is of a resource that is not given back.
abbrev pub IsPermitted : Surroundings → Purpose → TaskBinding → Handle → Type 0
IsPermitted around Purpose.release b handle =
    (is_none b.terminal_receipt_ref ≡ false)
    × ((handle.state ≡ HandleState.active)
        ⊎ (handle.state ≡ HandleState.revoked)
          × (around.has_cleanup_receipt handle.lease_id ≡ true))
IsPermitted around _ b handle = handle.state ≡ HandleState.revoked → ⊥

-- What the runtime has confirmed of the task of a control.
pub record IsConfirmed (around : Surroundings) (registry : Continuations) (request : IssueRequest)
    (control : CleanupControl) : Type 0 where
  pub binding : TaskBinding
  pub operation : NativeOperation
  pub handle : Handle
  pub bound :
      Dict.get (task_key request.operation_id request.task_ref) registry.tasks ≡ some binding
  pub is_native : native_operation around request.operation_id ≡ ok operation
  pub leased : around.lookup_handle binding.resource_lease_id ≡ some handle
  pub revision : control.expected_status_revision ≡ binding.status_revision
  pub fence : control.accepted_fence ≡ binding.accepted_fence
  pub fence_of_operation : operation.fence ≡ binding.accepted_fence
  pub high_water : around.high_water_fence ≡ some control.current_high_water_fence
  pub not_above : control.accepted_fence.counter ≤ control.current_high_water_fence.counter
  pub permitted : IsPermitted around request.purpose binding handle

may_release :
    (s : HandleState) (over receipt : Bool)
    → negate (is_active s && over) && negate (is_revoked s && over && receipt) ≡ false
    → (over ≡ true) × ((s ≡ HandleState.active) ⊎ (s ≡ HandleState.revoked) × (receipt ≡ true))
may_release HandleState.active true receipt h = (refl, inl refl)
may_release HandleState.active false receipt h = cc
may_release HandleState.quarantined over receipt h = cc
may_release HandleState.revoked true true h = (refl, inr (refl, refl))
may_release HandleState.revoked true false h = cc
may_release HandleState.revoked false receipt h = cc

pub permission :
    (around : Surroundings) (p : Purpose) (b : TaskBinding) (handle : Handle)
    → check_purpose around p b handle ≡ ok tt
    → IsPermitted around p b handle
unfolding check_purpose
permission around Purpose.release b handle h =
    let (over, held) =
      may_release handle.state (negate (is_none b.terminal_receipt_ref))
        (around.has_cleanup_receipt handle.lease_id) (ground arith) in
    (ground (arith, over), held)
permission around Purpose.result b handle h = λ gone. ground (arith, gone)
permission around Purpose.status b handle h = λ gone. ground (arith, gone)
permission around Purpose.cancel b handle h = λ gone. ground (arith, gone)

above_now :
    (now : ℕ) (p : Purpose) (s : HandleState) (deadline : ℕ)
    → now < maximum_deadline now p s deadline
above_now now Purpose.result HandleState.active deadline = omega arith
above_now now Purpose.result HandleState.quarantined deadline = omega arith
above_now now Purpose.result HandleState.revoked deadline = omega arith
above_now now Purpose.status s deadline = omega arith
above_now now Purpose.cancel s deadline = omega arith
above_now now Purpose.release s deadline = omega arith

module _ (host : ContinuationHost) (around : Surroundings) (request : IssueRequest)
    (c : Confirmed) where
  pub deadline_bounds :
      {deadline : ℕ}
      → deadline_of host around request c ≡ ok deadline
      → (around.now < deadline)
        × (deadline
            ≤ maximum_deadline around.now request.purpose c.handle.state
                c.operation.shared.deadline_at)
        × ((requested : ℕ)
            → requested_deadline host around.now request.requested_deadline_at ≡ some requested
            → deadline ≤ requested)
  unfolding deadline_of
  deadline_bounds {deadline} h =
      let last =
        maximum_deadline around.now request.purpose c.handle.state c.operation.shared.deadline_at in
      let above =
        above_now around.now request.purpose c.handle.state c.operation.shared.deadline_at in
      elim (Option-cases (requested_deadline host around.now request.requested_deadline_at)) [
        | inl missing ↦ absurd (ground (arith, missing))
        | inr (requested, asked) ↦
            let is_min : deadline ≡ min requested last = ground (arith, asked) in
            let in_time : around.now < requested = ground (arith, asked) in
            (
              omega (arith, is_min, in_time, above),
              omega (arith, is_min),
              λ r same. (let e : r ≡ requested = cc (same, asked) in omega (arith, is_min, e)),
            )
      ]

module _ (around : Surroundings) (registry : Continuations) (request : IssueRequest) where
  -- What `confirm` has checked.
  pub record Checked (c : Confirmed) : Type 0 where
    pub bound :
        Dict.get (task_key request.operation_id request.task_ref) registry.tasks ≡ some c.binding
    pub is_native : native_operation around request.operation_id ≡ ok c.operation
    pub leased : around.lookup_handle c.binding.resource_lease_id ≡ some c.handle
    pub revision : request.expected_revision ≡ c.binding.status_revision
    pub fence : c.binding.accepted_fence ≡ c.operation.fence
    pub high_water : around.high_water_fence ≡ some c.high_water
    pub permitted : check_purpose around request.purpose c.binding c.handle ≡ ok tt

  pub confirm-Checked : (c : Confirmed) → confirm around registry request ≡ ok c → Checked c
  unfolding confirm
  confirm-Checked c h = record {
    bound = ground arith;
    is_native = ground arith;
    leased = ground arith;
    revision = ground arith;
    fence = ground arith;
    high_water = ground arith;
    permitted = ground arith;
  }

  pub prepared :
      (host : ContinuationHost) (c : Confirmed) (deadline : ℕ)
      → prepare host around registry request ≡ ok (c, deadline)
      → (confirm around registry request ≡ ok c) × (deadline_of host around request c ≡ ok deadline)
  unfolding prepare
  prepared host c deadline h = elim (Result-cases (confirm around registry request)) [
    | inr (e, failed) ↦ absurd (ground (arith, failed))
    | inl (a, confirmed) ↦ elim (Result-cases (deadline_of host around request a)) [
      | inr (e, failed) ↦ absurd (ground (arith, confirmed, failed))
      | inl (d, timed) ↦ (ground (arith, confirmed, timed), ground (arith, confirmed, timed))
    ]
  ]

-- ===== src/Continuations/Requests.antt =====
-- What a control that `issue` returns is worth (runtime/src/continuations.ts).
use ai_macos.Base.{
  ℕ, ◌+◌, ◌≤◌, ◌<◌, ◌-◌, ◌≡◌, sym, ap, subst, ◌∙◌, inl, inr, true, some, arith, ◌==◌, string_eq,
  nat_eq, ok, Option-cases, Result-cases, ==_refl,
}
use ai_macos.Base.Dict
use ai_macos.Base.Dict.{get-set}
use ai_macos.Identity.{fence_eq}
use ai_macos.Continuations.{
  IssueRequest, CleanupControl, Continuation, Continuations, ContinuationHost, Surroundings,
  task_key_eq, idempotency_key_eq,
}
use ai_macos.Continuations.Issue.{
  Confirmed, confirm, maximum_deadline, requested_deadline, cleanup_request_id, control_of,
  control_is_valid, issue_control, prepare, issue, idempotency_key,
}
use ai_macos.Continuations.History.{Calls, Calls-ids, issue_done, issue_failed, issue_ids, Issued}
use ai_macos.Continuations.Checked.{
  IsConfirmed, permission, deadline_bounds, confirm-Checked, prepared,
}

module _ (host : ContinuationHost) (around : Surroundings) (registry : Continuations)
    (request : IssueRequest) where
  new_control : Confirmed → ℕ → CleanupControl
  new_control c deadline =
      control_of host (cleanup_request_id host registry (idempotency_key request)).1 request c
        deadline (cleanup_request_id host registry (idempotency_key request)).0

  controlled :
      (c : Confirmed) (deadline : ℕ) {made : Continuation} {after : Continuations}
      → issue_control host around.now registry request c deadline ≡ (ok made, after)
      → (made.cleanup_control ≡ new_control c deadline)
        × (control_is_valid (new_control c deadline) ≡ true)
        × (made.aborts_after ≡ deadline - around.now)
        × (after.cleanup_ids
            ≡ (cleanup_request_id host registry (idempotency_key request)).1.cleanup_ids)
  unfolding issue_control new_control
  controlled c deadline h = (ground arith, ground arith, ground arith, ground arith)

  id_is_kept :
      Dict.get
        (idempotency_key request)
        (cleanup_request_id host registry (idempotency_key request)).1.cleanup_ids
      ≡ some (cleanup_request_id host registry (idempotency_key request)).0
  unfolding cleanup_request_id
  id_is_kept = elim (Option-cases (Dict.get (idempotency_key request) registry.cleanup_ids)) [
    | inr (id, there) ↦ ground (arith, there)
    | inl missing ↦
        let key = idempotency_key request in
        let fresh = host.next_id "native-cleanup" registry.drawn in
        let there = get-set key key fresh registry.cleanup_ids in
        let same : (key == key) ≡ true = ==_refl key in ground (arith, missing, there, same)
  ]

  issued :
      {made : Continuation} {after : Continuations}
      → issue host around registry request ≡ (ok made, after)
      → (c : Confirmed) × (deadline : ℕ) × (prepare host around registry request ≡ ok (c, deadline))
        × (issue_control host around.now registry request c deadline ≡ (ok made, after))
  issued h = elim (Result-cases (prepare host around registry request)) [
    | inr (e, failed) ↦ cc (issue_failed host around registry request failed, h)
    | inl (a, done) ↦
        (a.0, a.1, done, sym (issue_done host around registry request {a = a} done) ∙ h)
  ]

  valid_fences :
      (k : CleanupControl)
      → control_is_valid k ≡ true
      → k.accepted_fence.counter ≤ k.current_high_water_fence.counter
  unfolding control_is_valid
  valid_fences k h = ground arith

  -- A control that `issue` returns is of a bound task at its current status revision, of a native
  -- operation with the fence that the task was accepted under and with a high water not below it,
  -- and of a resource in the state that its purpose asks for: a release needs a terminal task whose
  -- resource is leased or was given back with a receipt, any other purpose a resource that was not
  -- given back.
  pub issue-IsConfirmed :
      {made : Continuation} {after : Continuations}
      → issue host around registry request ≡ (ok made, after)
      → IsConfirmed around registry request made.cleanup_control
  unfolding new_control
  issue-IsConfirmed {made} {after} h =
      let (c, deadline, done, drawn) = issued {made = made} {after = after} h in
      let (confirmed, timed) = prepared around registry request host c deadline done in
      let checked = confirm-Checked around registry request c confirmed in
      let (is_control, valid, delay, ids) =
        controlled c deadline {made = made} {after = after} drawn in
      rw is_control record {
        binding = c.binding;
        operation = c.operation;
        handle = c.handle;
        bound = checked.bound;
        is_native = checked.is_native;
        leased = checked.leased;
        revision = checked.revision;
        fence = sym checked.fence;
        fence_of_operation = sym checked.fence;
        high_water = checked.high_water;
        not_above = valid_fences (new_control c deadline) valid;
        permitted = permission around request.purpose c.binding c.handle checked.permitted;
      }

  -- The deadline of a control that `issue` returns lies after now and not after the one that was
  -- asked for; it is within a second, or for the result of a held resource within a second of the
  -- operation's deadline. The adapter's control aborts when it is reached.
  pub issue-deadline :
      {made : Continuation} {after : Continuations}
      → issue host around registry request ≡ (ok made, after)
      → (c : Confirmed) × (confirm around registry request ≡ ok c)
        × (around.now < made.cleanup_control.deadline_at)
        × (made.cleanup_control.deadline_at
            ≤ maximum_deadline around.now request.purpose c.handle.state
                c.operation.shared.deadline_at)
        × ((requested : ℕ)
            → requested_deadline host around.now request.requested_deadline_at ≡ some requested
            → made.cleanup_control.deadline_at ≤ requested)
        × (around.now + made.aborts_after ≡ made.cleanup_control.deadline_at)
  unfolding issued new_control
  issue-deadline {made} {after} h =
      let (c, deadline, done, drawn) = issued {made = made} {after = after} h in
      let (confirmed, timed) = prepared around registry request host c deadline done in
      let (is_control, valid, delay, ids) =
        controlled c deadline {made = made} {after = after} drawn in
      let (later, bounded, asked) = deadline_bounds host around request c timed in
      let same : made.cleanup_control.deadline_at ≡ deadline =
        ap (λ (k : CleanupControl). k.deadline_at) is_control in
      (
        c,
        confirmed,
        omega (arith, later, same),
        omega (arith, bounded, same),
        λ r e. (let most = asked r e in omega (arith, most, same)),
        omega (arith, later, same, delay),
      )

  -- The identifier of the cleanup request in a control is the one that its key has from then on.
  issue_id :
      {made : Continuation} {after : Continuations}
      → issue host around registry request ≡ (ok made, after)
      → Dict.get (idempotency_key request) after.cleanup_ids
        ≡ some made.cleanup_control.cleanup_request_id
  unfolding new_control
  issue_id {made} {after} h =
      let (c, deadline, done, drawn) = issued {made = made} {after = after} h in
      let (is_control, valid, delay, ids) =
        controlled c deadline {made = made} {after = after} drawn in
      ap (Dict.get (idempotency_key request)) ids
      ∙ id_is_kept
      ∙ ap (λ (k : CleanupControl). some k.cleanup_request_id) (sym is_control)

-- Two requests for one task, purpose and revision get controls with the same identifier of the
-- cleanup request, whatever calls of the registry come between them.
pub issue-again :
    (host : ContinuationHost) (around later : Surroundings) (first second : IssueRequest)
    (start before : Continuations) {mid after : Continuations} {made again : Continuation}
    → idempotency_key second ≡ idempotency_key first
    → issue host around start first ≡ (ok made, mid)
    → Calls host mid before
    → issue host later before second ≡ (ok again, after)
    → again.cleanup_control.cleanup_request_id ≡ made.cleanup_control.cleanup_request_id
issue-again host around later first second start before {mid} {after} {made} {again} same h calls
      k =
    let id = made.cleanup_control.cleanup_request_id in
    let given = issue_id host around start first {made = made} {after = mid} h in
    let kept =
      Calls-ids host {start = mid} {after = before} (idempotency_key first) id calls given in
    let still = issue_ids host later before second (idempotency_key first) id kept in
    let now_is = issue_id host later before second {made = again} {after = after} k in
    let there : Dict.get (idempotency_key first) after.cleanup_ids ≡ some id =
      ap (λ (p : Issued). Dict.get (idempotency_key first) p.1.cleanup_ids) (sym k) ∙ still in
    let here : Dict.get (idempotency_key first) after.cleanup_ids
        ≡ some again.cleanup_control.cleanup_request_id =
      subst (λ key. Dict.get key after.cleanup_ids ≡ some again.cleanup_control.cleanup_request_id)
        same now_is in
    cc (there, here)

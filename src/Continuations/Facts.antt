-- ===== src/Continuations/Facts.antt =====
-- What a later binding of a task keeps of an earlier one (runtime/src/continuations.ts).
use ai_macos.Base.{
  String, ◌≤◌, ◌<◌, ◌≡◌, refl, ap, ◌∙◌, true, none, some, arith, string_eq, nat_eq, ok, inl, inr,
  Option-cases,
}
use ai_macos.Resource.{CleanupState}
use ai_macos.Continuations.{TaskBinding, TaskKey, StatusFacts, TerminalMark, task_binding_eq}
use ai_macos.Continuations.Tasks.{
  task_key, advance_binding, terminate_binding, with_status, with_terminal,
}

-- The task and its lease are the same, the revision has not gone back, one revision has one
-- binding, and a terminal binding is final.
pub record Follows (before after : TaskBinding) : Type 0 where
  pub operation_id : after.operation_id ≡ before.operation_id
  pub task_ref : after.task_ref ≡ before.task_ref
  pub lease : after.resource_lease_id ≡ before.resource_lease_id
  pub fence : after.accepted_fence ≡ before.accepted_fence
  pub revision : before.status_revision ≤ after.status_revision
  pub one : before.status_revision ≡ after.status_revision → after ≡ before
  pub final : (ref : String) → before.terminal_receipt_ref ≡ some ref → after ≡ before

pub Follows-refl : (b : TaskBinding) → Follows b b
Follows-refl b = record {
  operation_id = refl;
  task_ref = refl;
  lease = refl;
  fence = refl;
  revision = omega arith;
  one = λ e. refl;
  final = λ ref ended. refl;
}

pub Follows-trans : {a b c : TaskBinding} → Follows a b → Follows b c → Follows a c
Follows-trans {a} {b} {c} f g = record {
  operation_id = g.operation_id ∙ f.operation_id;
  task_ref = g.task_ref ∙ f.task_ref;
  lease = g.lease ∙ f.lease;
  fence = g.fence ∙ f.fence;
  revision = omega (arith, f.revision, g.revision);
  one = λ e.
      g.one (omega (arith, f.revision, g.revision, e))
      ∙ f.one (omega (arith, f.revision, g.revision, e));
  final = λ ref ended.
      let same = f.final ref ended in
      g.final ref (ap (λ (x : TaskBinding). x.terminal_receipt_ref) same ∙ ended) ∙ same;
}

-- A binding stands under its own key, and a terminal one is drained with a complete cleanup.
pub record Fits (key : TaskKey) (b : TaskBinding) : Type 0 where
  pub key_is : task_key b.operation_id b.task_ref ≡ key
  pub cleaned :
      (ref : String) → b.terminal_receipt_ref ≡ some ref → b.cleanup ≡ CleanupState.complete
  pub emptied : (ref : String) → b.terminal_receipt_ref ≡ some ref → b.drained ≡ true

module _ (b : TaskBinding) (facts : StatusFacts) {next : TaskBinding} where
  advanced :
      advance_binding b facts ≡ ok (some next)
      → (next ≡ with_status b facts)
        × (b.terminal_receipt_ref ≡ none)
        × (b.status_revision < facts.status_revision)
  unfolding advance_binding
  advanced h = elim (Option-cases b.terminal_receipt_ref) [
    | inl missing ↦ (ground arith, missing, ground arith)
    | inr (ref, ended) ↦ absurd (ground (arith, ended))
  ]

  pub advance_binding-Follows : advance_binding b facts ≡ ok (some next) → Follows b next
  advance_binding-Follows h =
      let (is_next, living, up) = advanced h in
      rw is_next record {
        operation_id = refl;
        task_ref = refl;
        lease = refl;
        fence = refl;
        revision = omega (arith, up);
        one = λ e. absurd (omega (arith, up, e));
        final = λ ref ended. cc (living, ended);
      }

  pub advance_binding-Fits :
      (key : TaskKey) → advance_binding b facts ≡ ok (some next) → Fits key b → Fits key next
  advance_binding-Fits key h fits =
      let (is_next, living, up) = advanced h in
      rw is_next record {
        key_is = fits.key_is;
        cleaned = λ ref ended. cc (living, ended);
        emptied = λ ref ended. cc (living, ended);
      }

module _ (b : TaskBinding) (request : TerminalMark) {next : TaskBinding} where
  terminated :
      terminate_binding b request ≡ ok (some next)
      → (next ≡ with_terminal b request)
        × (b.terminal_receipt_ref ≡ none)
        × (b.status_revision < request.status_revision)
  unfolding terminate_binding
  terminated h = elim (Option-cases b.terminal_receipt_ref) [
    | inl missing ↦ (ground (arith, missing), missing, ground (arith, missing))
    | inr (ref, ended) ↦ absurd (ground (arith, ended))
  ]

  pub terminate_binding-Follows : terminate_binding b request ≡ ok (some next) → Follows b next
  terminate_binding-Follows h =
      let (is_next, living, up) = terminated h in
      rw is_next record {
        operation_id = refl;
        task_ref = refl;
        lease = refl;
        fence = refl;
        revision = omega (arith, up);
        one = λ e. absurd (omega (arith, up, e));
        final = λ ref ended. cc (living, ended);
      }

  pub terminate_binding-Fits :
      (key : TaskKey) → terminate_binding b request ≡ ok (some next) → Fits key b → Fits key next
  terminate_binding-Fits key h fits =
      let (is_next, living, up) = terminated h in
      rw is_next
        record { key_is = fits.key_is; cleaned = λ ref ended. refl; emptied = λ ref ended. refl }

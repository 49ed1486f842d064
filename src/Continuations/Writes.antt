-- ===== src/Continuations/Writes.antt =====
-- What one call does to the bindings of tasks (runtime/src/continuations.ts).
use ai_macos.Base.{
  ◌≡◌, refl, sym, ap, subst, ◌∙◌, Option, none, some, arith, string_eq, nat_eq, ok, inl, inr,
  Option-cases, Result-cases,
}
use ai_macos.Base.Dict
use ai_macos.Base.Dict.{get-set}
use ai_macos.Identity.{fence_eq}
use ai_macos.Continuations.{
  TaskBinding, TaskKey, Registration, StatusAdvance, TerminalMark, Continuations, Surroundings,
  task_key_eq, idempotency_key_eq, task_binding_eq,
}
use ai_macos.Continuations.Tasks.{
  register_accepted_task, register_task, advance_verified_status, mark_verified_terminal,
  mark_terminal, advance_binding, terminate_binding, new_binding, put, task_key, store_binding,
}
use ai_macos.Continuations.Facts.{
  Follows, Follows-refl, Fits, advance_binding-Follows, advance_binding-Fits,
  terminate_binding-Follows, terminate_binding-Fits,
}

-- Every binding of the registry fits its key.
pub record IsSound (registry : Continuations) : Type 0 where
  pub fits : (key : TaskKey) (b : TaskBinding) → Dict.get key registry.tasks ≡ some b → Fits key b

-- What a call does to the tasks: nothing, or it writes one binding that follows the one before.
pub data Writes (before after : Continuations) : Type 0 where
  nothing : after.tasks ≡ before.tasks → Writes before after
  one :
      (key : TaskKey) (b : TaskBinding)
      → after.tasks ≡ Dict.set key b before.tasks
      → ((old : TaskBinding) → Dict.get key before.tasks ≡ some old → Follows old b)
      → (IsSound before → Fits key b)
      → Writes before after

-- A call that leaves the identifiers of cleanup requests as they are.
pub record Binds (before after : Continuations) : Type 0 where
  pub writes : Writes before after
  pub ids : after.cleanup_ids ≡ before.cleanup_ids

new_Fits :
    (request : Registration)
    → Fits (task_key request.facts.operation_id request.facts.task_ref) (new_binding request)
new_Fits request = record { key_is = refl; cleaned = λ ref ended. cc; emptied = λ ref ended. cc }

put_ids :
    (registry : Continuations) (key : TaskKey) (o : Option TaskBinding)
    → (put registry key o).cleanup_ids ≡ registry.cleanup_ids
put_ids registry key none = refl
put_ids registry key (some next) = refl

-- `tasks.set(key, next)`, if there is a next binding.
put-Writes :
    (registry : Continuations) (key : TaskKey) (b : TaskBinding) (o : Option TaskBinding)
    → Dict.get key registry.tasks ≡ some b
    → ((next : TaskBinding) → o ≡ some next → Follows b next × (Fits key b → Fits key next))
    → Writes registry (put registry key o)
put-Writes registry key b none found follows = Writes.nothing refl
put-Writes registry key b (some next) found follows =
    let (after_it, fits) = follows next refl in
    Writes.one key next refl
      (λ old there. subst (λ x. Follows x next) {x = b} {y = old} (cc (found, there)) after_it)
      (λ sound. fits (sound.fits key b found))

module _ (around : Surroundings) (registry : Continuations) {after : Continuations} where
  registers :
      (b : TaskBinding)
      → register_task around registry b ≡ ok after
      → (after ≡ store_binding registry b)
        × ((old : TaskBinding)
            → Dict.get (task_key b.operation_id b.task_ref) registry.tasks ≡ some old
            → old ≡ b)
  unfolding register_task
  registers b h = (ground arith, λ old found. ground (arith, found))

  pub register-Binds :
      (request : Registration)
      → register_accepted_task around registry request ≡ ok after
      → Binds registry after
  unfolding register_accepted_task
  register-Binds request h =
      let (stored, same) = registers (new_binding request) (ground arith) in
      record {
        writes =
            Writes.one (task_key request.facts.operation_id request.facts.task_ref)
              (new_binding request) (ap (λ (x : Continuations). x.tasks) stored)
              (λ old found.
                subst (λ x. Follows x (new_binding request)) (sym (same old found))
                  (Follows-refl (new_binding request)))
              (λ sound. new_Fits request);
        ids = ap (λ (x : Continuations). x.cleanup_ids) stored;
      }

  advances :
      (request : StatusAdvance) (b : TaskBinding)
      → Dict.get (task_key request.facts.operation_id request.facts.task_ref) registry.tasks
        ≡ some b
      → advance_verified_status around registry request ≡ ok after
      → (o : Option TaskBinding) × (advance_binding b request.facts ≡ ok o)
        × (after ≡ put registry (task_key request.facts.operation_id request.facts.task_ref) o)
  unfolding advance_verified_status
  advances request b found h = elim (Result-cases (advance_binding b request.facts)) [
    | inl (o, moved) ↦ (o, moved, ground (arith, found, moved))
    | inr (e, failed) ↦ absurd (ground (arith, found, failed))
  ]

  pub advance-Binds :
      (request : StatusAdvance)
      → advance_verified_status around registry request ≡ ok after
      → Binds registry after
  unfolding advance_verified_status
  advance-Binds request h =
      let key = task_key request.facts.operation_id request.facts.task_ref in
      elim (Option-cases (Dict.get key registry.tasks)) [
        | inl missing ↦ absurd (ground (arith, missing))
        | inr (b, found) ↦
            let (o, moved, stored) = advances request b found h in
            record {
              ids = ap (λ (x : Continuations). x.cleanup_ids) stored ∙ put_ids registry key o;
              writes = subst (Writes registry) (sym stored) (
                  put-Writes registry key b o found (λ next is_next.
                    let moved_on : advance_binding b request.facts ≡ ok (some next) =
                      moved ∙ ap ok is_next in
                    (
                      advance_binding-Follows b request.facts moved_on,
                      advance_binding-Fits b request.facts key moved_on,
                    )));
            }
      ]

  terminates :
      (request : TerminalMark) (b : TaskBinding)
      → Dict.get (task_key request.operation_id request.task_ref) registry.tasks ≡ some b
      → mark_terminal registry request ≡ ok after
      → (o : Option TaskBinding) × (terminate_binding b request ≡ ok o)
        × (after ≡ put registry (task_key request.operation_id request.task_ref) o)
  unfolding mark_terminal
  terminates request b found h = elim (Result-cases (terminate_binding b request)) [
    | inl (o, moved) ↦ (o, moved, ground (arith, found, moved))
    | inr (e, failed) ↦ absurd (ground (arith, found, failed))
  ]

  mark-Binds :
      (request : TerminalMark) → mark_terminal registry request ≡ ok after → Binds registry after
  unfolding mark_terminal
  mark-Binds request h =
      let key = task_key request.operation_id request.task_ref in
      elim (Option-cases (Dict.get key registry.tasks)) [
        | inl missing ↦ absurd (ground (arith, missing))
        | inr (b, found) ↦
            let (o, moved, stored) = terminates request b found h in
            record {
              ids = ap (λ (x : Continuations). x.cleanup_ids) stored ∙ put_ids registry key o;
              writes = subst (Writes registry) (sym stored) (
                  put-Writes registry key b o found (λ next is_next.
                    let moved_on : terminate_binding b request ≡ ok (some next) =
                      moved ∙ ap ok is_next in
                    (
                      terminate_binding-Follows b request moved_on,
                      terminate_binding-Fits b request key moved_on,
                    )));
            }
      ]

  pub terminal-Binds :
      (request : TerminalMark)
      → mark_verified_terminal around registry request ≡ ok after
      → Binds registry after
  unfolding mark_verified_terminal
  terminal-Binds request h = mark-Binds request (ground arith)

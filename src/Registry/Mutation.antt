-- ===== src/Registry/Mutation.antt =====
-- The receipt of a cleanup before `operationCanReleaseMutationLease`
-- (shared/src/contracts/operations.ts) with the registry (runtime/src/resources.ts) as authority.
use mathlib.Core.List.{Memᴰ}
use ai_macos.Base.{
  ℕ, String, ◌≡◌, refl, ap, ◌∙◌, inl, inr, Bool, true, false, ◌&&◌, some, List, [], ◌∷◌, arith,
  ◌==◌, string_eq, nat_eq, any, every, Result, ok, err, Result-cases,
}
use ai_macos.Identity.{Generation}
use ai_macos.Resource.{
  Handle, active, CleanupOutcome, unowned, owned, pending, complete, incomplete, unknown, Lease,
  Receipt,
}
use ai_macos.Operation.{common}
use ai_macos.Operation.Transitions.{is_terminal}
use ai_macos.Operation.Record.{
  OperationRecord, is_cleanup_complete, receipt_correlates, can_release_mutation_lease,
}
use ai_macos.Registry.{Host, Registry, RegistryError}
use ai_macos.Registry.Cleanup.{leases_of, is_complete_cleanup, new_receipt, prepare_cleanup}
use ai_macos.Registry.Methods.{apply_cleanup, verify}
use ai_macos.Registry.Receipts.{
  any-leases_of, length-leases_of, staged_receipt, verify-apply_cleanup,
}

-- The authority as a test: `verify` returned.
abbrev pub returned : Result RegistryError (Unit {0}) → Bool
returned (ok t) = true
returned (err e) = false

every_leased :
    (hs among : List Handle)
    → ((h : Handle) → Memᴰ h hs → Memᴰ h among)
    → every
        (λ h.
          any
            (λ (l : Lease).
              (l.lease_id == h.lease_id) && (l.lease_generation == h.lease_generation))
            (leases_of among))
        hs
      ≡ true
every_leased [] among f = refl
every_leased (h ∷ hs) among f = ground (
  arith,
  any-leases_of h among (f h (Memᴰ.head refl)),
  every_leased hs among (λ x m. f x (Memᴰ.tail m)),
)

complete_alike : (c : CleanupOutcome) → is_complete_cleanup c ≡ true → is_cleanup_complete c ≡ true
complete_alike unowned h = refl
complete_alike (owned complete rs reason) h = refl
complete_alike (owned incomplete rs reason) h = h
complete_alike (owned unknown rs reason) h = h
complete_alike (pending hs) h = h

module _ (host : Host) (now : ℕ) (reg : Registry) {after : Registry} (operation_id : String)
    (handles : List Handle) (cleanup : CleanupOutcome) {receipt : Receipt}
    (applied : apply_cleanup host now reg operation_id handles cleanup
      ≡ ok (after, some receipt)) where
  receipt_issued : receipt ≡ new_receipt host reg.drawn now operation_id handles
  unfolding apply_cleanup
  receipt_issued =
      elim (Result-cases (prepare_cleanup host now active reg operation_id handles cleanup)) [
        | inr (e, failed) ↦ absurd (ground arith)
        | inl ((prepared, staged), done) ↦
            elim (staged_receipt host now active reg operation_id handles cleanup done) [
              | inl (whole, issued) ↦ ground arith
              | inr (partial, nothing) ↦ absurd (ground arith)
            ]
      ]

  correlates :
      (r : OperationRecord)
      → r.resources ≡ handles
      → (common r.context).operation_id ≡ operation_id
      → (common r.context).generation ≡ host.generation
      → receipt_correlates receipt r ≡ true
  unfolding receipt_correlates new_receipt
  correlates r same op generation =
      let epoch = ap (λ (g : Generation). g.runtime_epoch) generation in
      let login = ap (λ (g : Generation). g.login_session_id) generation in
      rw (receipt_issued, same)
        (ground (
          arith,
          op,
          epoch,
          login,
          length-leases_of handles,
          every_leased handles handles (λ h m. m),
        ))

  -- The receipt of a cleanup lets the terminal operation that was cleaned up give back its mutation
  -- lease: the operation's record has the cleanup as its outcome, its handles as resources, its
  -- identifier, and the registry's generation.
  pub can_release-apply_cleanup :
      (r : OperationRecord)
      → is_terminal r.state ≡ true
      → r.outcome.cleanup ≡ cleanup
      → r.resources ≡ handles
      → (common r.context).operation_id ≡ operation_id
      → (common r.context).generation ≡ host.generation
      → can_release_mutation_lease (λ x hs. returned (verify after x hs)) r receipt ≡ some true
  unfolding can_release_mutation_lease
  can_release-apply_cleanup r over outcome same op generation =
      elim (verify-apply_cleanup host now reg operation_id handles cleanup applied) [
        | inr (partial, nothing) ↦ absurd (ground arith)
        | inl (whole, (x, given, accepted)) ↦
            let same_receipt : receipt ≡ x = cc given in
            let matches = correlates r same op generation in
            let whole_record : is_cleanup_complete r.outcome.cleanup ≡ true =
              ap is_cleanup_complete outcome ∙ complete_alike cleanup whole in
            let verified : verify after receipt r.resources ≡ ok tt =
              ap (verify after receipt) same
              ∙ ap (λ y. verify after y handles) same_receipt
              ∙ accepted in
            ground (arith, over, whole_record, matches, verified)
      ]

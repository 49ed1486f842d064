-- ===== src/Registry/Reuse.antt =====
-- After a whole cleanup (`applyCleanup`, `reconcileCleanup` of runtime/src/resources.ts): which
-- resources are free again, and which stay held.
use mathlib.Core.List.{Nodup, Mem, mem-cons, not-mem-nil}
use mathlib.Core.Logic.Or
use ai_macos.Base.{
  ℕ, String, ◌≡◌, refl, subst, inl, inr, true, false, ◌&&◌, Option, none, some, List, [], ◌∷◌, map,
  arith, ◌==◌, string_eq, All, ok, IsOk, Result-cases, Bool-cases, eq_of_==, any, every,
}
use ai_macos.Base.Dict
use ai_macos.Base.Dict.{Dict}
use ai_macos.Resource.{
  ResourceRef, Handle, HandleState, active, quarantined, handle_eq, CleanupResource, CleanupOutcome,
  owned, CleanupState, complete, TerminalOutcome, released, Receipt, handles_of, is_quarantined,
  cleanup_is_valid, cleanup_covers,
}
use ai_macos.Operation.{ClientSession}
use ai_macos.Registry.{Host, Slot, Registry, resource_key, acquire}
use ai_macos.Registry.Cleanup.{Staged, owned_resources, prepare_cleanup, commit}
use ai_macos.Registry.Methods.{apply_cleanup, reconcile_cleanup}
use ai_macos.Registry.Acquire.{acquire-IsOk_iff, Slot_set}
use ai_macos.Registry.Commit.{SettledAt}
use ai_macos.Registry.Release.{IsPrepared, IsDone, SameOutside, prepare_cases, prepared_commits}

-- The slots after a whole cleanup.
pub record IsCleaned (reg reg' : Registry) (handles : List Handle) (cleanup : CleanupOutcome)
    : Type 0 where
  pub valid : cleanup_is_valid cleanup ≡ true
  pub exact : cleanup_covers handles cleanup ≡ true
  pub done : All (IsDone reg'.slots) (owned_resources cleanup)
  pub frame : SameOutside (owned_resources cleanup) reg.slots reg'.slots

cleaned :
    {from : HandleState} {reg prepared reg' : Registry} {operation_id : String}
    {handles : List Handle} {cleanup : CleanupOutcome} {staged : Staged}
    → IsPrepared from reg prepared operation_id handles cleanup staged
    → ((r : Registry)
        → commit prepared staged ≡ ok (r, record staged { committed = true })
        → r ≡ reg')
    → IsCleaned reg reg' handles cleanup
cleaned {reg} {handles} {cleanup} w same =
    let (r, done, settled, frame) = prepared_commits w in
    subst (λ r. IsCleaned reg r handles cleanup) (same r done)
      (record { valid = w.valid; exact = w.exact; done = settled; frame = frame })

module _ (host : Host) (now : ℕ) (reg : Registry) {reg' : Registry} (operation_id : String)
    (handles : List Handle) (cleanup : CleanupOutcome) {receipt : Option Receipt} where
  -- A cleanup that returns has settled exactly the slots that it names.
  pub apply_cleanup-IsCleaned :
      apply_cleanup host now reg operation_id handles cleanup ≡ ok (reg', receipt)
      → IsCleaned reg reg' handles cleanup
  unfolding apply_cleanup
  apply_cleanup-IsCleaned h =
      elim (Result-cases (prepare_cleanup host now active reg operation_id handles cleanup)) [
        | inr (e, failed) ↦ absurd (ground arith)
        | inl ((prepared, staged), returned) ↦
            cleaned (prepare_cases host now active reg operation_id handles cleanup returned)
              (λ r done. ground arith)
      ]

  pub reconcile_cleanup-IsCleaned :
      reconcile_cleanup host now reg operation_id handles cleanup ≡ ok (reg', receipt)
      → IsCleaned reg reg' handles cleanup
  unfolding reconcile_cleanup
  reconcile_cleanup-IsCleaned h =
      elim (Result-cases (prepare_cleanup host now quarantined reg operation_id handles cleanup)) [
        | inr (e, failed) ↦ absurd (ground arith)
        | inl ((prepared, staged), returned) ↦
            cleaned (prepare_cases host now quarantined reg operation_id handles cleanup returned)
              (λ r done. ground arith)
      ]

-- A handle that some resource of the cleanup names is free if no resource is retained.
found_free :
    (slots : Dict String Slot) (rs : List CleanupResource) (h : Handle)
    → All (IsDone slots) rs
    → any (λ r. is_quarantined r.outcome) rs ≡ false
    → any (λ y. (y.lease_id == h.lease_id) && (y == h)) (handles_of rs) ≡ true
    → Dict.get (resource_key h.resource) slots ≡ none
found_free slots [] h done none_kept here = cc
found_free slots (r ∷ rs) h (first, later) none_kept here = elim (Bool-cases (r.handle == h)) [
  | inl same ↦
      subst (λ (x : Handle). Dict.get (resource_key x.resource) slots ≡ none)
        (eq_of_== r.handle h same) (was_released r.outcome first (ground arith))
  | inr other ↦ found_free slots rs h later (ground arith) (ground arith)
]
  where
    was_released :
        (t : TerminalOutcome)
        → SettledAt slots (resource_key r.handle.resource) r.handle t
        → is_quarantined t ≡ false
        → Dict.get (resource_key r.handle.resource) slots ≡ none
    was_released released free e = free
    was_released TerminalOutcome.quarantined kept e = cc

All-found_free :
    (slots : Dict String Slot) (rs : List CleanupResource) (hs : List Handle)
    → All (IsDone slots) rs
    → any (λ r. is_quarantined r.outcome) rs ≡ false
    → every (λ x. any (λ y. (y.lease_id == x.lease_id) && (y == x)) (handles_of rs)) hs ≡ true
    → All (λ h. Dict.get (resource_key h.resource) slots ≡ none) hs
All-found_free slots rs [] done none_kept e = tt
All-found_free slots rs (h ∷ hs) done none_kept e = (
  found_free slots rs h done none_kept (ground arith),
  All-found_free slots rs hs done none_kept (ground arith),
)

kept_none :
    (rs : List CleanupResource) (reason : Option String)
    → cleanup_is_valid (owned complete rs reason) ≡ true
    → any (λ r. is_quarantined r.outcome) rs ≡ false
unfolding cleanup_is_valid
kept_none rs reason h = ground arith

listed :
    (state : CleanupState) (rs : List CleanupResource) (reason : Option String) (hs : List Handle)
    → cleanup_covers hs (owned state rs reason) ≡ true
    → every (λ x. any (λ y. (y.lease_id == x.lease_id) && (y == x)) (handles_of rs)) hs ≡ true
unfolding cleanup_covers
listed state rs reason [] h = refl
listed state rs reason (x ∷ hs) h = ground arith

-- A complete cleanup leaves the slot of every handle of the operation free.
pub complete_frees :
    (reg reg' : Registry) (handles : List Handle) (rs : List CleanupResource)
    (reason : Option String)
    → IsCleaned reg reg' handles (owned complete rs reason)
    → All (λ h. Dict.get (resource_key h.resource) reg'.slots ≡ none) handles
complete_frees reg reg' handles rs reason w =
    All-found_free reg'.slots rs handles w.done (kept_none rs reason w.valid)
      (listed complete rs reason handles w.exact)

free_among :
    (slots : Dict String Slot) (hs : List Handle) (r : ResourceRef)
    → All (λ h. Dict.get (resource_key h.resource) slots ≡ none) hs
    → Mem r (map (λ (h : Handle). h.resource) hs)
    → Dict.get (resource_key r) slots ≡ none
free_among slots [] r free m = absurd (not-mem-nil m)
free_among slots (h ∷ hs) r (here, later) m =
    Or.elim (Slot_set _ _) (mem-cons.0 m) (λ e. rw e here) (free_among slots hs r later)

module _ (host : Host) (now : ℕ) (reg : Registry) {reg' : Registry} (operation_id : String)
    (handles : List Handle) (rs : List CleanupResource) (reason : Option String)
    {receipt : Option Receipt}
    (applied : apply_cleanup host now reg operation_id handles (owned complete rs reason)
      ≡ ok (reg', receipt)) where
  -- After a complete cleanup any session is granted any distinct resources of the operation.
  pub acquire-apply_cleanup :
      (session : ClientSession) (next_operation : String) (requested : List ResourceRef)
      (expires_at : ℕ)
      → Nodup requested
      → ((r : ResourceRef) → Mem r requested → Mem r (map (λ (h : Handle). h.resource) handles))
      → IsOk (acquire host reg' session next_operation requested expires_at)
  acquire-apply_cleanup session next_operation requested expires_at distinct among =
      let w =
        apply_cleanup-IsCleaned host now reg operation_id handles (owned complete rs reason)
          applied in
      (acquire-IsOk_iff host reg' requested session next_operation expires_at).1 (
        distinct,
        λ r m.
            free_among reg'.slots handles r (complete_frees reg reg' handles rs reason w)
              (among r m),
      )

module _ (host : Host) (reg : Registry) (session : ClientSession) (operation_id : String)
    (requested : List ResourceRef) (expires_at : ℕ) (r : ResourceRef) (s : Slot) where
  -- A resource that a slot holds, active or quarantined, is leased to nobody.
  pub held_is_refused :
      Dict.get (resource_key r) reg.slots ≡ some s
      → Mem r requested
      → ¬ IsOk (acquire host reg session operation_id requested expires_at)
  held_is_refused held m granted =
      let free =
        ((acquire-IsOk_iff host reg requested session operation_id expires_at).0 granted).1 r m in
      ground arith

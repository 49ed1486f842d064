-- ===== src/Registry/Release.antt =====
-- What a whole cleanup (`applyCleanup`, `reconcileCleanup`) does to the resources of an operation
-- (runtime/src/resources.ts).
use mathlib.Core.List.{Nodup, Nodup-nil, Mem}
use ai_macos.Base.{
  ℕ, String, ◌≡◌, refl, ap, ap₂, subst, subst₂, ◌∙◌, inl, inr, Bool, true, false, List, [], ◌∷◌,
  map, arith, string_eq, nat_eq, All, ok, Result-cases, Nodup-of_repeats,
}
use ai_macos.Base.Dict
use ai_macos.Base.Dict.{Dict}
use ai_macos.Resource.{
  Handle, HandleState, handle_eq, handle_state_eq, CleanupResource, CleanupOutcome, owned, unowned,
  pending, lease_ids, handles_of, cleanup_is_valid, cleanup_covers,
}
use ai_macos.Registry.{Host, Slot, Registry, resource_key}
use ai_macos.Registry.Cleanup.{
  Planned, Staged, plan, owned_resources, is_complete_cleanup, stage, prepare_cleanup, commit,
}
use ai_macos.Registry.Commit.{IsSettled, SettledAt}
use ai_macos.Registry.Staging.{
  Fits, AllFit, plan-AllFit, AllFit-IsPlanned, distinct_keys, commit_settles,
}

valid-Nodup :
    (c : CleanupOutcome)
    → cleanup_is_valid c ≡ true
    → Nodup (lease_ids (handles_of (owned_resources c)))
unfolding cleanup_is_valid
valid-Nodup unowned h = Nodup-nil
valid-Nodup (pending hs) h = Nodup-nil
valid-Nodup (owned state rs reason) h = Nodup-of_repeats _ (ground arith)

stage_cases :
    (host : Host) (now : ℕ) (reg : Registry) (operation_id : String) (hs : List Handle)
    (ps : List Planned) (complete : Bool) {reg' : Registry} {staged : Staged}
    → stage host now reg operation_id hs ps complete ≡ ok (reg', staged)
    → (staged.planned ≡ ps)
      × (staged.committed ≡ false)
      × (reg'.slots ≡ reg.slots)
      × (reg'.objects ≡ reg.objects)
      × (reg'.receipts ≡ reg.receipts)
      × (reg'.tombstones ≡ reg.tombstones)
unfolding stage
stage_cases host now reg op hs ps true h = ground arith
stage_cases host now reg op hs ps false h = ground arith

-- What `prepareCleanup` has checked and planned when it returns; it changes no slot, receipt or
-- tombstone.
pub record IsPrepared (from : HandleState) (reg reg' : Registry) (operation_id : String)
    (handles : List Handle) (cleanup : CleanupOutcome) (staged : Staged) : Type 0 where
  pub valid : cleanup_is_valid cleanup ≡ true
  pub exact : cleanup_covers handles cleanup ≡ true
  pub fits : AllFit reg.slots from operation_id (owned_resources cleanup) staged.planned
  pub fresh : staged.committed ≡ false
  pub slots : reg'.slots ≡ reg.slots
  pub objects : reg'.objects ≡ reg.objects
  pub receipts : reg'.receipts ≡ reg.receipts
  pub tombstones : reg'.tombstones ≡ reg.tombstones

module _ (host : Host) (now : ℕ) (from : HandleState) (reg : Registry) (operation_id : String)
    (handles : List Handle) (cleanup : CleanupOutcome) where
  pub prepare_cases :
      {reg' : Registry} {staged : Staged}
      → prepare_cleanup host now from reg operation_id handles cleanup ≡ ok (reg', staged)
      → IsPrepared from reg reg' operation_id handles cleanup staged
  unfolding prepare_cleanup
  prepare_cases {reg'} {staged} h =
      elim (Result-cases (plan reg.slots from operation_id (owned_resources cleanup))) [
        | inr (e, failed) ↦ absurd (ground arith)
        | inl (ps, planned) ↦
            let staging : stage host now reg operation_id handles ps (is_complete_cleanup cleanup)
                ≡ ok (reg', staged) =
              ground arith in
            let (same, fresh, slots, objects, receipts, tombstones) =
              stage_cases host now reg operation_id handles ps (is_complete_cleanup cleanup)
                staging in
            record {
              valid = ground arith;
              exact = ground arith;
              fits = rw same (plan-AllFit reg.slots from operation_id _ ps planned);
              fresh = fresh;
              slots = slots;
              objects = objects;
              receipts = receipts;
              tombstones = tombstones;
            }
      ]

-- What the outcome of a resource asks of its slot.
abbrev pub IsDone : Dict String Slot → CleanupResource → Type 0
IsDone slots r = SettledAt slots (resource_key r.handle.resource) r.handle r.outcome

module _ (before slots : Dict String Slot) (from : HandleState) (operation_id : String) where
  IsDone-of_settled :
      (r : CleanupResource) (p : Planned)
      → Fits before from operation_id r p
      → IsSettled slots p
      → IsDone slots r
  IsDone-of_settled r p f h =
      subst (SettledAt slots (resource_key r.handle.resource) r.handle)
        (ap (λ (q : CleanupResource). q.outcome) f.resource)
        (subst₂ (λ k x. SettledAt slots k x p.resource.outcome) f.key f.stored h)

  All-IsDone :
      (rs : List CleanupResource) (ps : List Planned)
      → AllFit before from operation_id rs ps
      → All (IsSettled slots) ps
      → All (IsDone slots) rs
  All-IsDone [] ps fs hs = tt
  All-IsDone (r ∷ rs) [] fs hs = absurd fs
  All-IsDone (r ∷ rs) (p ∷ ps) (f, fs) (h, hs) = (IsDone-of_settled r p f h, All-IsDone rs ps fs hs)

  planned-keys :
      (rs : List CleanupResource) (ps : List Planned)
      → AllFit before from operation_id rs ps
      → map (λ (p : Planned). p.key) ps
        ≡ map (λ (r : CleanupResource). resource_key r.handle.resource) rs
  planned-keys [] [] fs = refl
  planned-keys [] (p ∷ ps) fs = absurd fs
  planned-keys (r ∷ rs) [] fs = absurd fs
  planned-keys (r ∷ rs) (p ∷ ps) (f, fs) = ap₂ ◌∷◌ f.key (planned-keys rs ps fs)

-- No slot but those of the named resources differs.
abbrev pub SameOutside : List CleanupResource → Dict String Slot → Dict String Slot → Type 0
SameOutside rs before after =
    (k : String)
    → ¬ Mem k (map (λ (r : CleanupResource). resource_key r.handle.resource) rs)
    → Dict.get k after ≡ Dict.get k before

module _ {from : HandleState} {reg prepared : Registry} {operation_id : String}
    {handles : List Handle} {cleanup : CleanupOutcome} {staged : Staged}
    (w : IsPrepared from reg prepared operation_id handles cleanup staged) where
  -- Nothing came between the two halves: the commit succeeds, and settles every resource.
  pub prepared_commits :
      (reg' : Registry) × (commit prepared staged ≡ ok (reg', record staged { committed = true }))
      × All (IsDone reg'.slots) (owned_resources cleanup)
      × SameOutside (owned_resources cleanup) reg.slots reg'.slots
  prepared_commits =
      let rs = owned_resources cleanup in
      let distinct =
        distinct_keys reg.slots from operation_id rs staged.planned w.fits
          (valid-Nodup cleanup w.valid) in
      let (reg', done, settled, frame) =
        commit_settles prepared staged w.fresh distinct
          (rw w.slots (AllFit-IsPlanned reg.slots from operation_id rs staged.planned w.fits)) in
      (
        reg',
        done,
        All-IsDone reg.slots reg'.slots from operation_id rs staged.planned w.fits settled,
        λ k outside.
            frame k (
              rw (planned-keys reg.slots reg.slots from operation_id rs staged.planned w.fits)
                outside)
            ∙ ap (Dict.get k) w.slots,
      )

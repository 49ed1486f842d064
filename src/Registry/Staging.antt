-- ===== src/Registry/Staging.antt =====
-- A cleanup from `prepareCleanup` to its `commit` (runtime/src/resources.ts).
use mathlib.Core.List.{Nodup, Nodup-cons, Nodup-nil, Mem, Mem-prop, mem-cons, not-mem-nil}
use mathlib.Core.Logic.Or
use ai_macos.Base.{
  String, ◌≡◌, refl, ap, subst, inl, inr, true, false, some, List, [], ◌∷◌, map, arith, string_eq,
  nat_eq, All, ok, >>=-eq-ok, Option-cases,
}
use ai_macos.Base.Dict
use ai_macos.Base.Dict.{Dict}
use ai_macos.Resource.{
  Handle, HandleState, handle_eq, handle_state_eq, CleanupResource, lease_ids, handles_of,
}
use ai_macos.Registry.{Slot, Registry, resource_key}
use ai_macos.Registry.Cleanup.{
  Planned, Staged, plan, plan_resource, check_unchanged, commit, record_receipt,
}
use ai_macos.Registry.Commit.{IsPlanned, IsSettled, finish_all_settles}

-- A planned resource is exactly one that was issued to the operation and is in the state `from`.
pub record Fits (slots : Dict String Slot) (from : HandleState) (operation_id : String)
    (r : CleanupResource) (p : Planned) : Type 0 where
  pub resource : p.resource ≡ r
  pub stored : p.stored ≡ r.handle
  pub key : p.key ≡ resource_key r.handle.resource
  pub owner : r.handle.operation_id ≡ operation_id
  pub slot : Slot
  pub found : Dict.get p.key slots ≡ some slot
  pub issued : slot.issued ≡ p.stored
  pub state : slot.current.state ≡ from
  pub object : slot.object ≡ p.object

module _ (slots : Dict String Slot) (from : HandleState) (operation_id : String) where
  plan_resource-Fits :
      (r : CleanupResource) (p : Planned)
      → plan_resource slots from operation_id r ≡ ok p
      → Fits slots from operation_id r p
  unfolding plan_resource
  plan_resource-Fits r p h = elim (Option-cases (Dict.get (resource_key r.handle.resource) slots)) [
    | inl missing ↦ absurd (ground arith)
    | inr (s, found) ↦ record {
      resource = ground arith;
      stored = ground arith;
      key = ground arith;
      owner = ground arith;
      slot = s;
      found = ground arith;
      issued = ground arith;
      state = ground arith;
      object = ground arith;
    }
  ]

  abbrev pub AllFit : List CleanupResource → List Planned → Type 0
  AllFit [] [] = Unit
  AllFit (r ∷ rs) (p ∷ ps) = Fits slots from operation_id r p × AllFit rs ps
  AllFit _ _ = ⊥

  pub plan-AllFit :
      (rs : List CleanupResource) (ps : List Planned)
      → plan slots from operation_id rs ≡ ok ps
      → AllFit rs ps
  unfolding plan
  plan-AllFit [] [] h = tt
  plan-AllFit [] (p ∷ ps) h = absurd (ground arith)
  plan-AllFit (r ∷ rs) ps h =
      let (first, here, more) = >>=-eq-ok (plan_resource slots from operation_id r) _ h in
      let (others, later, same) = >>=-eq-ok (plan slots from operation_id rs) _ more in
      let fits : AllFit (r ∷ rs) (first ∷ others) =
        (plan_resource-Fits r first here, plan-AllFit rs others later) in
      subst (AllFit (r ∷ rs)) {x = first ∷ others} (ground arith) fits

  -- Distinct leases are planned under distinct keys.
  pub AllFit-IsPlanned :
      (rs : List CleanupResource) (ps : List Planned) → AllFit rs ps → All (IsPlanned slots) ps
  AllFit-IsPlanned [] [] f = tt
  AllFit-IsPlanned [] (p ∷ ps) f = absurd f
  AllFit-IsPlanned (r ∷ rs) [] f = absurd f
  AllFit-IsPlanned (r ∷ rs) (p ∷ ps) (f, fs) =
      ((f.slot, f.found, f.issued, f.object), AllFit-IsPlanned rs ps fs)

  abbrev planned_keys : List Planned → List String
  planned_keys = map λ p. p.key

  same_lease :
      (rs : List CleanupResource) (ps : List Planned) (r : CleanupResource) (p : Planned)
      → AllFit rs ps
      → Fits slots from operation_id r p
      → Mem p.key (planned_keys ps)
      → Mem r.handle.lease_id (lease_ids (handles_of rs))
  same_lease [] [] r p fs f m = absurd (not-mem-nil m)
  same_lease [] (q ∷ ps) r p fs f m = absurd fs
  same_lease (s ∷ rs) [] r p fs f m = absurd fs
  same_lease (s ∷ rs) (q ∷ ps) r p (g, fs) f m =
      Or.elim Mem-prop (mem-cons.0 m)
        (λ e. mem-cons.1 (Or.inl (ap (λ (h : Handle). h.lease_id) (same_stored e))))
        (λ later. mem-cons.1 (Or.inr (same_lease rs ps r p fs f later)))
    where
      same_stored : p.key ≡ q.key → r.handle ≡ s.handle
      same_stored e = ground (arith, f.found, g.found, f.issued, g.issued, f.stored, g.stored)

  pub distinct_keys :
      (rs : List CleanupResource) (ps : List Planned)
      → AllFit rs ps
      → Nodup (lease_ids (handles_of rs))
      → Nodup (planned_keys ps)
  distinct_keys [] [] fs d = Nodup-nil
  distinct_keys [] (p ∷ ps) fs d = absurd fs
  distinct_keys (r ∷ rs) [] fs d = absurd fs
  distinct_keys (r ∷ rs) (p ∷ ps) (f, fs) d =
      let (new, rest) = Nodup-cons.0 d in
      Nodup-cons.1 ((λ m. new (same_lease rs ps r p fs f m)), distinct_keys rs ps fs rest)

check_planned :
    (slots : Dict String Slot) (ps : List Planned)
    → All (IsPlanned slots) ps
    → check_unchanged slots ps ≡ ok tt
unfolding check_unchanged
check_planned slots [] w = refl
check_planned slots (p ∷ ps) ((s, found, issued, object), later) =
    ground (arith, check_planned slots ps later)

-- A staged cleanup whose slots are as planned is committed: each resource is settled by its outcome.
pub commit_settles :
    (reg : Registry) (staged : Staged)
    → staged.committed ≡ false
    → Nodup (map (λ (p : Planned). p.key) staged.planned)
    → All (IsPlanned reg.slots) staged.planned
    → (reg' : Registry) × (commit reg staged ≡ ok (reg', record staged { committed = true }))
      × All (IsSettled reg'.slots) staged.planned
      × ((k : String)
          → ¬ Mem k (map (λ (p : Planned). p.key) staged.planned)
          → Dict.get k reg'.slots ≡ Dict.get k reg.slots)
unfolding commit
commit_settles reg staged fresh d w =
    let (reg', done, settled, frame) =
      finish_all_settles staged.receipt staged.planned
        (record reg { receipts = record_receipt staged.receipt reg.receipts }) d w in
    (reg', rw (fresh, check_planned reg.slots staged.planned w, done, commit) refl, settled, frame)

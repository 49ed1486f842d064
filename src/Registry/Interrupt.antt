-- ===== src/Registry/Interrupt.antt =====
-- A cleanup that a quarantine interrupts between `prepareCleanup` and its `commit`
-- (runtime/src/resources.ts).
use ai_macos.Base.{
  ℕ, String, ◌≤◌, ◌<◌, ◌≡◌, refl, ap, ◌∙◌, ◌⊎◌, inl, inr, false, Option, some, List, [], ◌∷◌, arith,
  ◌==◌, string_eq, nat_eq, Bool-cases, ok, err,
}
use ai_macos.Base.Dict
use ai_macos.Base.Dict.{Dict, get-set}
use ai_macos.Resource.{Handle, active, quarantined, CleanupResource, CleanupState, owned}
use ai_macos.Registry.{Host, Slot, Registry, resource_key, changed_during_staging}
use ai_macos.Registry.Cleanup.{Planned, Staged, prepare_cleanup, check_unchanged, commit}
use ai_macos.Registry.Methods.{quarantine_slot, quarantine_all, issued_to, quarantine}
use ai_macos.Registry.Invariant.{IsSound}
use ai_macos.Registry.Staging.{AllFit}
use ai_macos.Registry.Release.{prepare_cases}
use ai_macos.Registry.Quarantine.{quarantine_marks}

-- A slot after the loop of `quarantine` was there before, or has a new object.
all_new :
    (k : String) (hs : List Handle) (reg : Registry) (s : Slot)
    → Dict.get k (quarantine_all reg hs).slots ≡ some s
    → (Dict.get k reg.slots ≡ some s) ⊎ (reg.objects ≤ s.object)
unfolding quarantine_all quarantine_slot
all_new k [] reg s found = inl found
all_new k (h ∷ hs) reg s found = elim (all_new k hs (quarantine_slot reg h) s found) [
  | inr newer ↦ inr (omega (arith, newer))
  | inl there ↦
      let x : Slot = record {
        issued = h;
        current = record h { state = quarantined };
        object = reg.objects;
      } in
      elim (Bool-cases (resource_key h.resource == k)) [
        | inl same ↦ inr (ground (arith, get-set (resource_key h.resource) k x reg.slots))
        | inr other ↦ inl (ground (arith, get-set (resource_key h.resource) k x reg.slots))
      ]
]

check_refuses :
    (slots : Dict String Slot) (p : Planned) (ps : List Planned) (s : Slot)
    → Dict.get p.key slots ≡ some s
    → p.object < s.object
    → check_unchanged slots (p ∷ ps) ≡ err changed_during_staging
unfolding check_unchanged
check_refuses slots p ps s found newer = ground arith

commit_refuses :
    (reg : Registry) (staged : Staged) (p : Planned) (ps : List Planned) (s : Slot)
    → staged.committed ≡ false
    → staged.planned ≡ p ∷ ps
    → Dict.get p.key reg.slots ≡ some s
    → p.object < s.object
    → commit reg staged ≡ err changed_during_staging
unfolding commit
commit_refuses reg staged p ps s fresh first found newer =
    rw (fresh, first, check_refuses reg.slots p ps s found newer) refl

module _ (host : Host) (now : ℕ) (reg : Registry) {prepared : Registry} (operation_id : String)
    (handles : List Handle) (state : CleanupState) (r : CleanupResource) (rs : List CleanupResource)
    (reason : Option String) {staged : Staged} where
  -- A quarantine of the operation between the preparation of a cleanup that owns a resource and its
  -- commit makes the commit fail, in a sound registry.
  pub commit-quarantine :
      IsSound reg.slots reg.objects
      → prepare_cleanup host now active reg operation_id handles (owned state (r ∷ rs) reason)
        ≡ ok (prepared, staged)
      → commit (quarantine prepared operation_id).0 staged ≡ err changed_during_staging
  unfolding quarantine
  commit-quarantine v h =
      let w =
        prepare_cases host now active reg operation_id handles (owned state (r ∷ rs) reason) h in
      go staged.planned refl w.fits (rw (w.slots, w.objects) v) w.fresh w.slots
    where
      go :
          (ps : List Planned)
          → staged.planned ≡ ps
          → AllFit reg.slots active operation_id (r ∷ rs) ps
          → IsSound prepared.slots prepared.objects
          → staged.committed ≡ false
          → prepared.slots ≡ reg.slots
          → commit (quarantine prepared operation_id).0 staged ≡ err changed_during_staging
      go [] e fits sound fresh same = absurd fits
      go (p ∷ ps) e (f, fits) sound fresh same =
          let found : Dict.get p.key prepared.slots ≡ some f.slot =
            ap (Dict.get p.key) same ∙ f.found in
          let (s, there, issued, marked) =
            (quarantine_marks prepared sound operation_id p.key f.slot found).0
              (ap (λ (x : Handle). x.operation_id) (f.issued ∙ f.stored) ∙ f.owner) in
          commit_refuses (quarantine prepared operation_id).0 staged p ps s fresh e there
            (elim (all_new p.key (issued_to operation_id prepared.slots) prepared s there) [
              | inl before ↦ absurd (ground (arith, before, found, f.state, marked))
              | inr newer ↦ omega (arith, newer, f.object, sound.allocated p.key f.slot found)
            ])

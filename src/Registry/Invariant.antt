-- ===== src/Registry/Invariant.antt =====
-- The invariant of the slots of runtime/src/resources.ts, and the two updates that its methods make:
-- a slot is set under a new object, or deleted.
use ai_macos.Base.{
  ℕ, String, ◌+◌, ◌<◌, ◌≡◌, refl, ◌⊎◌, inl, some, List, [], ◌∷◌, arith, string_eq, length, subst,
  All,
}
use ai_macos.Base.Dict
use ai_macos.Base.Dict.{Dict, IsUnique, get-set, get-delete, set-IsUnique, delete-IsUnique}
use ai_macos.Resource.{Handle, active, quarantined}
use ai_macos.Registry.{Slot, resource_key, store}

-- A slot stands under its resource's key and was issued active; it is now as issued, or quarantined.
pub record IsSlot (key : String) (s : Slot) : Type 0 where
  pub keyed : resource_key s.issued.resource ≡ key
  pub was_active : s.issued.state ≡ active
  pub now : (s.current ≡ s.issued) ⊎ (s.current ≡ record s.issued { state = quarantined })

-- Every slot is one, and the objects under `current` are different and were all allocated.
pub record IsSound (slots : Dict String Slot) (objects : ℕ) : Type 0 where
  pub each : (k : String) (s : Slot) → Dict.get k slots ≡ some s → IsSlot k s
  pub allocated : (k : String) (s : Slot) → Dict.get k slots ≡ some s → s.object < objects
  pub distinct :
      (j k : String) (s t : Slot)
      → Dict.get j slots ≡ some s
      → Dict.get k slots ≡ some t
      → s.object ≡ t.object
      → j ≡ k
  pub unique : IsUnique slots

pub empty-IsSound : IsSound [] 0
unfolding Dict.get
empty-IsSound = record {
  each = λ k s h. cc;
  allocated = λ k s h. cc;
  distinct = λ j k s t h. cc;
  unique = tt;
}

module _ {slots : Dict String Slot} {objects : ℕ} (v : IsSound slots objects) where
  pub set-IsSound :
      (key : String) (s : Slot)
      → IsSlot key s
      → s.object ≡ objects
      → IsSound (Dict.set key s slots) (objects + 1)
  set-IsSound key s h new = record {
    each = λ k t. simp get-set (ground (arith, v.each k t));
    allocated = λ k t. simp get-set (ground (arith, v.allocated k t));
    distinct = λ j k t u.
        simp get-set (ground (arith, v.distinct j k t u, v.allocated j t, v.allocated k u));
    unique = set-IsUnique key s slots v.unique;
  }

  pub delete-IsSound : (key : String) → IsSound (Dict.delete key slots) objects
  delete-IsSound key = record {
    each = λ k t. simp get-delete (ground (arith, v.each k t));
    allocated = λ k t. simp get-delete (ground (arith, v.allocated k t));
    distinct = λ j k t u. simp get-delete (ground (arith, v.distinct j k t u));
    unique = delete-IsUnique key slots v.unique;
  }

pub store-IsSound :
    (hs : List Handle) {slots : Dict String Slot} (objects : ℕ)
    → IsSound slots objects
    → All (λ h. h.state ≡ active) hs
    → IsSound (store hs objects slots) (objects + length hs)
unfolding store
store-IsSound [] {slots} objects v h = subst (IsSound slots) (omega arith) v
store-IsSound (x ∷ hs) {slots} objects v h =
    subst (IsSound (store (x ∷ hs) objects slots)) (omega arith) (
      store-IsSound hs (objects + 1)
        (set-IsSound v (resource_key x.resource)
          (record { issued = x; current = x; object = objects })
          (record { keyed = refl; was_active = h.0; now = inl refl }) refl)
        h.1)

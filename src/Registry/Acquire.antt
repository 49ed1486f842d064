-- ===== src/Registry/Acquire.antt =====
-- The cases of `acquire` of runtime/src/resources.ts.
use mathlib.Core.List.{Nodup, Mem, mem-cons, mem-cons_self, mem-map, mem-map_of_mem, not-mem-nil}
use mathlib.Core.List.Perm
use mathlib.Core.Logic.Or
use mathlib.Core.Logic.{∥∥₁_elim}
use mathlib.Core.HLevel.{hedberg}
use ai_macos.Base.{
  String_discrete, ℕ_discrete, IsOk-bind, IsOk-eq, passes, ℕ, String, ◌≡◌, refl, false, Option,
  none, List, [], ◌∷◌, arith, Option-cases, inl, inr, ◌↔◌, ok, IsOk, repeats, repeats_of_Nodup,
  Nodup-of_repeats, Nodup-map, Nodup-of_map, string_eq,
}
use ai_macos.Base.Dict
use ai_macos.Base.Dict.{Dict, get-set}
use ai_macos.Resource.{ResourceRef}
use ai_macos.Operation.{ClientSession}
use ai_macos.Registry.{
  Host, Slot, Registry, duplicate_request, resource_key, sort_resources, keys_of, check_free,
  acquire,
}
use ai_macos.Registry.Keys.{resource_key_inj, sort_resources-perm}

-- No slot holds the resource.
abbrev pub IsFree : Registry → ResourceRef → Type 0
IsFree reg r = Dict.get (resource_key r) reg.slots ≡ none

pub Slot_set : IsSet (Option Slot)
Slot_set = hedberg (hlevel (String_discrete, ℕ_discrete))

check_free_of_none :
    (slots : Dict String Slot) (keys : List String)
    → ((k : String) → Mem k keys → Dict.get k slots ≡ none)
    → check_free slots keys ≡ ok tt
unfolding check_free
check_free_of_none slots [] h = refl
check_free_of_none slots (k ∷ keys) h =
    rw (h k mem-cons_self, check_free)
      (check_free_of_none slots keys (λ j m. h j (mem-cons.1 (Or.inr m))))

none_of_check_free :
    (slots : Dict String Slot) (keys : List String)
    → check_free slots keys ≡ ok tt
    → (k : String) → Mem k keys
    → Dict.get k slots ≡ none
unfolding check_free
none_of_check_free slots [] h k m = absurd (not-mem-nil m)
none_of_check_free slots (j ∷ keys) h k m = elim (Option-cases (Dict.get j slots)) [
  | inl free ↦
      Or.elim (Slot_set _ _) (mem-cons.0 m) (λ e. rw e free)
        (none_of_check_free slots keys (rw (free, check_free) at h) k)
  | inr (slot, held) ↦ absurd (ground arith)
]

module _ (host : Host) (reg : Registry) (requested : List ResourceRef) where
  keys_distinct : Nodup requested → repeats (keys_of (sort_resources host requested)) ≡ false
  keys_distinct h = repeats_of_Nodup _ (
      Nodup-map resource_key resource_key_inj _
        (Perm.nodup (Perm.symm (sort_resources-perm host requested)) h))

  distinct_of_keys : repeats (keys_of (sort_resources host requested)) ≡ false → Nodup requested
  distinct_of_keys h =
      Perm.nodup (sort_resources-perm host requested)
        (Nodup-of_map resource_key _ (Nodup-of_repeats _ h))

  keys_free :
      ((r : ResourceRef) → Mem r requested → IsFree reg r)
      → check_free reg.slots (keys_of (sort_resources host requested)) ≡ ok tt
  keys_free free = check_free_of_none reg.slots _ λ k m.
      ∥∥₁_elim (mem-map.0 m) (Slot_set _ _) λ (r, here, same).
        rw (← same) (free r ((Perm.mem_iff (sort_resources-perm host requested)).0 here))

  IsFree-of_keys :
      check_free reg.slots (keys_of (sort_resources host requested)) ≡ ok tt
      → (r : ResourceRef) → Mem r requested
      → IsFree reg r
  IsFree-of_keys h r m =
      none_of_check_free reg.slots _ h (resource_key r)
        (mem-map_of_mem resource_key ((Perm.mem_iff (sort_resources-perm host requested)).1 m))

  -- A request is granted exactly when its resources are pairwise different and no slot holds one.
  pub acquire-IsOk_iff :
      (session : ClientSession) (operation_id : String) (expires_at : ℕ)
      → IsOk (acquire host reg session operation_id requested expires_at)
        ↔ (Nodup requested × ((r : ResourceRef) → Mem r requested → IsFree reg r))
  unfolding acquire
  acquire-IsOk_iff session operation_id expires_at = (to, from)
    where
      to :
          IsOk (acquire host reg session operation_id requested expires_at)
          → Nodup requested × ((r : ResourceRef) → Mem r requested → IsFree reg r)
      to h =
          let (a, first, later) = IsOk-bind _ _ h in
          let (b, second, granted) = IsOk-bind _ _ later in
          (
            distinct_of_keys (
                passes (repeats (keys_of (sort_resources host requested))) duplicate_request
                  (IsOk-eq first)),
            IsFree-of_keys second,
          )

      from :
          Nodup requested × ((r : ResourceRef) → Mem r requested → IsFree reg r)
          → IsOk (acquire host reg session operation_id requested expires_at)
      from (distinct, free) = rw (keys_distinct distinct, keys_free free, acquire) tt

-- ===== src/Registry/Keys.antt =====
-- `resourceKey` and `sortRuntimeResources` (runtime/src/resources.ts, shared/src/contracts/resources.ts).
use Prim.Native.Char.{code}
use mathlib.Core.List.{Perm}
use mathlib.Core.List.Perm
use ai_macos.Base.{
  ℕ, String, ◌+◌, ◌*◌, ◌≡◌, refl, ap, List, [], ◌∷◌, arith, concat, Bool-cases, inl, inr,
}
use ai_macos.Resource.{
  ResourceKind, desktop_input, clipboard, cdp_target, browser_trace, adb_device, capture_stream,
  ResourceRef,
}
use ai_macos.Registry.{Host, kind_name, resource_key, comes_after, insert_resource, sort_resources}

-- The first two characters of a text tell the names of the kinds apart.
abbrev opening : String → ℕ
opening (String.◌∷◌ c (String.◌∷◌ d s)) = code c * 256 + code d
opening _ = 0

named_alike :
    (j k : ResourceKind) (a b : String)
    → concat (kind_name j) (concat ":" a) ≡ concat (kind_name k) (concat ":" b)
    → (j ≡ k) × (a ≡ b)
unfolding concat kind_name
named_alike desktop_input desktop_input a b h = (refl, cc)
named_alike clipboard clipboard a b h = (refl, cc)
named_alike cdp_target cdp_target a b h = (refl, cc)
named_alike browser_trace browser_trace a b h = (refl, cc)
named_alike adb_device adb_device a b h = (refl, cc)
named_alike capture_stream capture_stream a b h = (refl, cc)
named_alike _ _ a b h = (absurd (omega (arith, ap opening h)), absurd (omega (arith, ap opening h)))

pub resource_key_inj : (r s : ResourceRef) → resource_key r ≡ resource_key s → r ≡ s
unfolding resource_key
resource_key_inj r s h =
    let (same_kind, same_ref) = named_alike r.kind s.kind r.resource_ref s.resource_ref h in
    λ i. record { kind = same_kind i; resource_ref = same_ref i }

module _ (host : Host) where
  insert_resource-perm :
      (a : ResourceRef) (rs : List ResourceRef) → Perm (insert_resource host a rs) (a ∷ rs)
  unfolding insert_resource
  insert_resource-perm a [] = Perm.refl (a ∷ [])
  insert_resource-perm a (b ∷ rs) = elim (Bool-cases (comes_after host a b)) [
    | inl after ↦
        rw (after, insert_resource)
          (Perm.trans (Perm.cons b (insert_resource-perm a rs)) (Perm.swap a b rs))
    | inr before ↦ rw (before, insert_resource) (Perm.refl (a ∷ b ∷ rs))
  ]

  pub sort_resources-perm : (rs : List ResourceRef) → Perm (sort_resources host rs) rs
  unfolding sort_resources
  sort_resources-perm [] = Perm.refl []
  sort_resources-perm (a ∷ rs) =
      Perm.trans (insert_resource-perm a (sort_resources host rs))
        (Perm.cons a (sort_resources-perm rs))

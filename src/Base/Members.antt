-- ===== src/Base/Members.antt =====
-- `includes` and the test for repeated values against the library's `Mem` and `Nodup`.
use mathlib.Core.Path.{◌≡◌, refl, sym, subst}
use mathlib.Core.Logic.{inl, inr, ∥∥₁_elim}
use mathlib.Core.Logic.Or
use mathlib.Core.Bool.{Bool, true, false}
use mathlib.Core.List.{
  List, [], ◌∷◌, map, Mem, Nodup, Nodup-cons, Nodup-nil, mem-cons, mem-map, mem-map_of_mem,
  not-mem-nil, Mem-prop,
}
use native.Mathlib.Omega.{arith}
use ai_macos.Base.Tests.{Bool-cases}
use ai_macos.Base.Equality.{Eq, ◌==◌, ==_refl, eq_of_==}
use ai_macos.Base.Lists.{includes, repeats}

pub Bool-set : IsSet Bool
Bool-set = hlevel

module _ {ℓ} {A : Type ℓ} ⦃e : Eq A⦄ where
  pub includes_of_mem : (xs : List A) (a : A) → Mem a xs → includes xs a ≡ true
  includes_of_mem [] a m = absurd (not-mem-nil m)
  includes_of_mem (x ∷ xs) a m =
      Or.elim (Bool-set _ _) (mem-cons.0 m) (λ p. rw (p, ==_refl x) refl)
        (λ later. ground (arith, includes_of_mem xs a later))

  pub mem_of_includes : (xs : List A) (a : A) → includes xs a ≡ true → Mem a xs
  mem_of_includes [] a h = cc
  mem_of_includes (x ∷ xs) a h = elim (Bool-cases (x == a)) [
    | inl same ↦ mem-cons.1 (Or.inl (sym (eq_of_== x a same)))
    | inr other ↦ mem-cons.1 (Or.inr (mem_of_includes xs a (ground arith)))
  ]

  pub Nodup-of_repeats : (xs : List A) → repeats xs ≡ false → Nodup xs
  Nodup-of_repeats [] h = Nodup-nil
  Nodup-of_repeats (x ∷ xs) h =
      Nodup-cons.1
        ((λ m. ground (arith, includes_of_mem xs x m)), Nodup-of_repeats xs (ground arith))

  pub repeats_of_Nodup : (xs : List A) → Nodup xs → repeats xs ≡ false
  repeats_of_Nodup [] h = refl
  repeats_of_Nodup (x ∷ xs) h =
      let (new, rest) = Nodup-cons.0 h in
      elim (Bool-cases (includes xs x)) [
        | inl old ↦ absurd (new (mem_of_includes xs x old))
        | inr fresh ↦ rw (fresh) (repeats_of_Nodup xs rest)
      ]

module _ {ℓ κ} {A : Type ℓ} {B : Type κ} (f : A → B) where
  pub Nodup-of_map : (xs : List A) → Nodup (map f xs) → Nodup xs
  Nodup-of_map [] h = Nodup-nil
  Nodup-of_map (x ∷ xs) h =
      let (new, rest) = Nodup-cons.0 h in
      Nodup-cons.1 ((λ m. new (mem-map_of_mem f m)), Nodup-of_map xs rest)

  module _ (inj : (a b : A) → f a ≡ f b → a ≡ b) where
    pub mem_of_mem-map : (xs : List A) (a : A) → Mem (f a) (map f xs) → Mem a xs
    mem_of_mem-map xs a m =
        ∥∥₁_elim (mem-map.0 m) Mem-prop
          (λ (b, here, same). subst (λ x. Mem x xs) (inj b a same) here)

    pub Nodup-map : (xs : List A) → Nodup xs → Nodup (map f xs)
    Nodup-map [] h = Nodup-nil
    Nodup-map (x ∷ xs) h =
        let (new, rest) = Nodup-cons.0 h in
        Nodup-cons.1 ((λ m. new (mem_of_mem-map xs x m)), Nodup-map xs rest)

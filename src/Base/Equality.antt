-- ===== src/Base/Equality.antt =====
-- `===` on strings and numbers, and `structurallyEqual` on records: one operator for every type
-- whose equality is decided. It computes to the decision, on which `ground` splits.
use Prim.Native.Nat.{ℕ}
use Prim.Native.String.{String}
use mathlib.Core.Path.{◌≡◌, refl}
use mathlib.Core.Logic.{◌↔◌}
use mathlib.Core.Bool.{Bool, true, false}
use native.Mathlib.Decide.{ℕ_discrete}
use text.Mathlib.Text.{◌==◌ as text_eq}
use text.Mathlib.TextEquality.{eq_iff}

bool_dec {ℓ} : {A : Type ℓ} (a b : A) (t : Bool) → (t ≡ true) ↔ (a ≡ b) → Dec (a ≡ b)
bool_dec a b true h = yes (h.0 refl)
bool_dec a b false h = no (λ e. cc (h.1 e))

unfoldable pub String_discrete : Discrete String
unfolding bool_dec
String_discrete s t = bool_dec s t (text_eq s t) (eq_iff s t)

pub record Eq {ℓ} (A : Type ℓ) : Type ℓ where
  pub decide : Discrete A

abbrev pub holds {ℓ} : {A : Type ℓ} → Dec A → Bool
holds (yes a) = true
holds (no f) = false

infix 50 ◌==◌
abbrev pub ◌==◌ {ℓ} : {A : Type ℓ} ⦃e : Eq A⦄ → A → A → Bool
◌==◌ ⦃e⦄ a b = holds (e.decide a b)

instance abbrev pub nat_eq : Eq ℕ
nat_eq = record { decide = ℕ_discrete }

instance abbrev pub string_eq : Eq String
string_eq = record { decide = String_discrete }

module _ {ℓ} {A : Type ℓ} ⦃e : Eq A⦄ where
  pub ==_refl : (a : A) → (a == a) ≡ true
  ==_refl a = elim (e.decide a a) as (λ d. holds d ≡ true) [ yes p ↦ refl | no f ↦ absurd (f refl) ]

  pub eq_of_== : (a b : A) → (a == b) ≡ true → a ≡ b
  eq_of_== a b = elim (e.decide a b) as (λ d. holds d ≡ true → a ≡ b) [
    | yes p ↦ λ h. p
    | no f ↦ λ h. cc
  ]

  pub ==_ne : (a b : A) → (a ≡ b → ⊥) → (a == b) ≡ false
  ==_ne a b h = elim (e.decide a b) as (λ d. holds d ≡ false) [ yes p ↦ absurd (h p) | no f ↦ refl ]

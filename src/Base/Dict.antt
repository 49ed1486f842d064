-- ===== src/Base/Dict.antt =====
-- A JavaScript `Map`: entries in order of first insertion, one for each key.
use mathlib.Core.Path.{◌≡◌, refl}
use mathlib.Core.Option.{Option, none, some}
use mathlib.Core.List.{List, [], ◌∷◌}
use native.Mathlib.Omega.{arith}
use ai_macos.Base.Tests.{if◌then◌else◌}
use ai_macos.Base.Equality.{Eq, ◌==◌}
use ai_macos.Base.Lists.{All}

abbrev pub Dict {ℓ κ} : Type ℓ → Type κ → Type (ℓ ⊔ κ)
Dict K V = List (K × V)

module _ {ℓ κ} {K : Type ℓ} {V : Type κ} where
  abbrev pub values : Dict K V → List V
  values [] = []
  values ((k, v) ∷ m) = v ∷ values m

module _ {ℓ κ} {K : Type ℓ} {V : Type κ} ⦃e : Eq K⦄ where
  unfoldable pub get : K → Dict K V → Option V
  get k [] = none
  get k ((j, v) ∷ m) = if j == k then some v else get k m

  unfoldable pub set : K → V → Dict K V → Dict K V
  set k v [] = (k, v) ∷ []
  set k v ((j, w) ∷ m) = if j == k then (j, v) ∷ m else (j, w) ∷ set k v m

  unfoldable pub delete : K → Dict K V → Dict K V
  delete k [] = []
  delete k ((j, v) ∷ m) = let rest = delete k m in if j == k then rest else (j, v) ∷ rest

  pub get-set :
      (k j : K) (v : V) (m : Dict K V) → get j (set k v m) ≡ (if k == j then some v else get j m)
  unfolding get set
  get-set k j v [] = refl
  get-set k j v ((i, w) ∷ m) = ground (arith, get-set k j v m)

  pub get-delete :
      (k j : K) (m : Dict K V) → get j (delete k m) ≡ (if k == j then none else get j m)
  unfolding get delete
  get-delete k j [] = ground arith
  get-delete k j ((i, w) ∷ m) = ground (arith, get-delete k j m)

  -- No key has two entries.
  abbrev pub IsUnique : Dict K V → Type (ℓ ⊔ κ)
  IsUnique [] = Unit
  IsUnique ((k, v) ∷ m) = (get k m ≡ none) × IsUnique m

  pub set-IsUnique : (k : K) (v : V) (m : Dict K V) → IsUnique m → IsUnique (set k v m)
  unfolding set
  set-IsUnique k v [] u = (unfold get in refl, tt)
  set-IsUnique k v ((j, w) ∷ m) u = ground (arith, get-set k j v m, set-IsUnique k v m u.1)

  pub delete-IsUnique : (k : K) (m : Dict K V) → IsUnique m → IsUnique (delete k m)
  unfolding delete
  delete-IsUnique k [] u = tt
  delete-IsUnique k ((j, w) ∷ m) u = ground (arith, get-delete k j m, delete-IsUnique k m u.1)

  -- What holds of every entry that `get` finds holds of every entry.
  pub All-entries {μ} :
      (P : K → V → Type μ) (m : Dict K V)
      → IsUnique m
      → ((k : K) (v : V) → get k m ≡ some v → P k v)
      → All (λ e. P e.0 e.1) m
  unfolding get
  All-entries P [] u h = tt
  All-entries P ((j, w) ∷ m) u h =
      (h j w (ground arith), All-entries P m u.1 (λ k v found. h k v (ground (arith, u.0))))

-- ===== src/Base/Throw.antt =====
-- A function that may throw returns a `Result`; `E` names the exceptions of its module.
use mathlib.Core.Path.{◌≡◌, refl}
use mathlib.Core.Logic.{◌⊎◌, inl, inr}
use mathlib.Core.Bool.{Bool, true, false}
use mathlib.Core.Option.{Option, none, some}

pub data Result {ℓ} (E : Type 0) (A : Type ℓ) : Type ℓ where
  ok : A → Result E A
  err : E → Result E A

infixl 5 ◌>>=◌ ◌>>◌
abbrev pub ◌>>=◌ {ℓ κ} :
    {E : Type 0} {A : Type ℓ} {B : Type κ} → Result E A → (A → Result E B) → Result E B
err thrown >>= next = err thrown
ok result >>= next = next result

abbrev pub ◌>>◌ {ℓ} : {E : Type 0} {B : Type ℓ} → Result E (Unit {0}) → Result E B → Result E B
call >> next = call >>= λ _. next

-- `if (b) throw e`
abbrev pub reject_if : {E : Type 0} → Bool → E → Result E (Unit {0})
reject_if true e = err e
reject_if false e = ok tt

-- `if (o === undefined) throw e`
abbrev pub or_throw {ℓ} : {E : Type 0} {A : Type ℓ} → Option A → E → Result E A
or_throw none e = err e
or_throw (some a) e = ok a

module _ {ℓ κ} {E : Type 0} {A : Type ℓ} {B : Type κ} where
  pub >>=-eq-ok :
      (call : Result E A) (next : A → Result E B) {answer : B}
      → call >>= next ≡ ok answer
      → (result : A) × (call ≡ ok result) × (next result ≡ ok answer)
  >>=-eq-ok (err thrown) next returned = cc
  >>=-eq-ok (ok result) next returned = (result, refl, returned)

-- The call returned.
abbrev pub IsOk {ℓ} : {E : Type 0} {A : Type ℓ} → Result E A → Type 0
IsOk (ok a) = Unit
IsOk (err e) = ⊥

module _ {ℓ κ} {E : Type 0} {A : Type ℓ} {B : Type κ} where
  pub IsOk-bind :
      (m : Result E A) (f : A → Result E B) → IsOk (m >>= f) → (a : A) × (m ≡ ok a) × IsOk (f a)
  IsOk-bind (ok a) f h = (a, refl, h)
  IsOk-bind (err e) f h = absurd h

pub passes : {E : Type 0} (b : Bool) (e : E) → IsOk (reject_if b e) → b ≡ false
passes true e h = absurd h
passes false e h = refl

pub IsOk-eq {ℓ} : {E : Type 0} {A : Type ℓ} {r : Result E A} {a : A} → r ≡ ok a → IsOk r
IsOk-eq e = rw e tt

pub Result-cases {ℓ} :
    {E : Type 0} {A : Type ℓ} (r : Result E A) → ((a : A) × (r ≡ ok a)) ⊎ ((e : E) × (r ≡ err e))
Result-cases (ok a) = inl (a, refl)
Result-cases (err e) = inr (e, refl)

-- ===== src/Common/Results.antt =====
-- Go's pair of a value and an error: one of the two is set.
use mathlib.Core.Path.{◌≡◌, refl}
use mathlib.Core.Logic.{◌⊎◌, inl, inr}
use mathlib.Core.Bool.{Bool, true, false}

pub data Result {ℓ κ} (E : Type κ) (A : Type ℓ) : Type (ℓ ⊔ κ) where
  ok : A → Result E A
  err : E → Result E A

-- `if test { return err }`
abbrev pub refuse {ν} : {E : Type ν} → Bool → E → Result E (Unit {0})
refuse b e = elim b [ true ↦ err e | false ↦ ok tt ]

-- The rest of the function runs on the value; an error is returned at once.
infixl 5 ◌>>=◌
abbrev pub ◌>>=◌ {ℓ κ ν} :
    {A : Type ℓ} {B : Type κ} {E : Type ν} → Result E A → (A → Result E B) → Result E B
err failure >>= rest = err failure
ok value >>= rest = rest value

infixl 5 ◌>>◌
abbrev pub ◌>>◌ {κ ν} : {B : Type κ} {E : Type ν} → Result E (Unit {0}) → Result E B → Result E B
check >> rest = check >>= λ _. rest

-- A successful chain has a successful first step.
pub >>=-eq-ok {ℓ κ ν} :
    {E : Type ν} {A : Type ℓ} {B : Type κ} (step : Result E A) (rest : A → Result E B) {out : B}
    → step >>= rest ≡ ok out
    → (value : A) × (step ≡ ok value) × (rest value ≡ ok out)
>>=-eq-ok (err failure) rest run = cc run
>>=-eq-ok (ok value) rest run = (value, refl, run)

pub refuse-eq-ok {ν} : {E : Type ν} (t : Bool) (e : E) → refuse t e ≡ ok tt → t ≡ false
refuse-eq-ok true e h = cc
refuse-eq-ok false e h = refl

pub Result-cases {ℓ κ} :
    {E : Type κ} {A : Type ℓ} (r : Result E A) → ((e : E) × (r ≡ err e)) ⊎ ((a : A) × (r ≡ ok a))
Result-cases (err e) = inl (e, refl)
Result-cases (ok a) = inr (a, refl)

pub ok_injective {ℓ κ} :
    {E : Type κ} {A : Type ℓ} {a b : A} → Path (Result E A) (ok a) (ok b) → a ≡ b
ok_injective h = cc h

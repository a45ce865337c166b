-- ===== src/Prelude/Result.antt =====
-- Exceptions as values. Python's message texts are not modelled, only the class that is raised.
use mathlib.Core.Logic.{inl, inr, ◌⊎◌}
use pywinhello.Prelude.{refl, ◌≡◌}

pub data Error : Type 0 where
  value_error type_error attribute_error key_error index_error : Error
  timeout_error connection_error runtime_error os_error other_error : Error

pub data Result {ℓ} (A : Type ℓ) : Type ℓ where
  ok : A → Result A
  err : Error → Result A

infixl 5 ◌>>=◌
abbrev pub ◌>>=◌ {ℓ κ} : {A : Type ℓ} {B : Type κ} → Result A → (A → Result B) → Result B
ok x >>= k = k x
err c >>= k = err c

-- Inversion of a successful bind.
pub >>=-eq-ok {ℓ κ} :
    {A : Type ℓ} {B : Type κ} (r : Result A) (k : A → Result B) {y : B}
    → (r >>= k) ≡ ok y
    → (x : A) × (r ≡ ok x) × (k x ≡ ok y)
>>=-eq-ok (ok x) k same = (x, refl, same)
>>=-eq-ok (err c) k same = cc

pub ok-injective {ℓ} : {A : Type ℓ} {x y : A} → ok x ≡ ok y → x ≡ y
ok-injective same = cc

pub Result-cases {ℓ} :
    {A : Type ℓ} (r : Result A) → ((x : A) × (r ≡ ok x)) ⊎ ((c : Error) × (r ≡ err c))
Result-cases (ok x) = inl (x, refl)
Result-cases (err c) = inr (c, refl)

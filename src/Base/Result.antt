-- ===== src/Base/Result.antt =====
-- A Go function that returns a value and an error.
use mathlib.Core.Path.{◌≡◌, refl}

pub data Result {ℓ} (E A : Type ℓ) : Type ℓ where
  ok : A → Result E A
  err : E → Result E A

infixl 5 ◌>>=◌
abbrev pub ◌>>=◌ {ℓ} : {E A B : Type ℓ} → Result E A → (A → Result E B) → Result E B
ok a >>= f = f a
err e >>= f = err e

-- What a successful chain went through.
pub >>=-eq-ok {ℓ} :
    {E A B : Type ℓ} (first : Result E A) (next : A → Result E B) {outcome : B}
    → (first >>= next) ≡ ok outcome
    → (between : A) × (first ≡ ok between) × (next between ≡ ok outcome)
>>=-eq-ok (err failure) next chain = cc
>>=-eq-ok (ok between) next chain = (between, refl, chain)

-- ===== src/Base/Results.antt =====
-- A call that may raise: the exception, or the value returned.
use mathlib.Core.Path.{◌≡◌, refl}
use mathlib.Core.Option.{Option, none, some}
use mathlib.Core.Logic.{◌⊎◌, inl, inr}
use native.Mathlib.Omega.{arith}

-- `Raised` are the exceptions, `Returned` the values.
pub data Result {ℓ} (Raised : Type 0) (Returned : Type ℓ) : Type ℓ where
  ok : Returned → Result Raised Returned
  err : Raised → Result Raised Returned

-- `except E1 as exc: raise E2(...) from exc`
abbrev pub map_err {ℓ} : {E F : Type 0} {A : Type ℓ} → (E → F) → Result E A → Result F A
map_err f (ok a) = ok a
map_err f (err e) = err (f e)

module _ {ℓ κ} {Raised : Type 0} {Returned : Type ℓ} {Next : Type κ} where
  infixl 5 ◌>>=◌
  abbrev pub ◌>>=◌ : Result Raised Returned → (Returned → Result Raised Next) → Result Raised Next
  ok value >>= next = next value
  err raised >>= next = err raised

  -- A chain that returns has a first call that returns.
  pub >>=-eq-ok :
      (call : Result Raised Returned) (next : Returned → Result Raised Next) {result : Next}
      → (call >>= next) ≡ ok result
      → (value : Returned) × (call ≡ ok value) × (next value ≡ ok result)
  >>=-eq-ok (err raised) next r = cc
  >>=-eq-ok (ok value) next r = (value, refl, r)

pub ok-eq {ℓ} : {E : Type 0} {A : Type ℓ} {a b : A} (r : Result E A) → r ≡ ok a → r ≡ ok b → a ≡ b
ok-eq r h k = cc

-- Chains of `Option`, for matchers.
abbrev pub and_then {ℓ κ} : {A : Type ℓ} {B : Type κ} → Option A → (A → Option B) → Option B
and_then none f = none
and_then (some a) f = f a

pub Result-cases {ℓ} :
    {E : Type 0} {A : Type ℓ} (r : Result E A) → ((e : E) × (r ≡ err e)) ⊎ ((a : A) × (r ≡ ok a))
Result-cases (err e) = inl (e, refl)
Result-cases (ok a) = inr (a, refl)

pub Result-ok {ℓ} :
    {E : Type 0} {A : Type ℓ} (r : Result E A) → ((e : E) → r ≡ err e → ⊥) → (a : A) × (r ≡ ok a)
Result-ok (ok a) h = (a, refl)
Result-ok (err e) h = ground (arith, h e)

pub some-eq {ℓ} : {A : Type ℓ} {a b : A} → some a ≡ some b → a ≡ b
some-eq h = cc

pub >>=-assoc {ℓ κ ν} :
    {E : Type 0} {A : Type ℓ} {B : Type κ} {C : Type ν} (m : Result E A) (f : A → Result E B)
    (g : B → Result E C)
    → ((m >>= f) >>= g) ≡ (m >>= (λ a. f a >>= g))
>>=-assoc (ok a) f g = refl
>>=-assoc (err e) f g = refl

pub >>=-ext {ℓ κ} :
    {E : Type 0} {A : Type ℓ} {B : Type κ} (m : Result E A) {f g : A → Result E B}
    → ((a : A) → f a ≡ g a)
    → (m >>= f) ≡ (m >>= g)
>>=-ext (ok a) h = h a
>>=-ext (err e) h = refl

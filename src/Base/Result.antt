-- ===== src/Base/Result.antt =====
-- Fallible code: a value, or one of the errors `E` of the component (Go's `(T, error)`).
use mathlib.Core.Path.{◌≡◌, refl}
use mathlib.Core.Logic.{◌⊎◌, inl, inr}
use mathlib.Core.Bool.{Bool, true, false}
use native.Mathlib.Omega.{arith}

pub data Result {ℓ} (E : Type 0) (A : Type ℓ) : Type ℓ where
  err : E → Result E A
  ok : A → Result E A

-- `v, err := first(); if err != nil { return err }; return then(v)`
infixl 5 ◌>>=◌ ◌>>◌
abbrev pub ◌>>=◌ {ℓ κ} :
    {E : Type 0} {A : Type ℓ} {B : Type κ} (first : Result E A) (then : A → Result E B) → Result E B
err failure >>= then = err failure
ok value >>= then = then value

-- The same where the first call gives no value.
abbrev pub ◌>>◌ {ℓ} :
    {E : Type 0} {B : Type ℓ} (check : Result E (Unit {0})) (then : Result E B) → Result E B
err failure >> then = err failure
ok _ >> then = then

-- `if b { return e }`
abbrev pub reject : {E : Type 0} → Bool → E → Result E (Unit {0})
reject true e = err e
reject false e = ok tt

-- `err == nil`
abbrev pub is_ok {ℓ} : {E : Type 0} {A : Type ℓ} → Result E A → Bool
is_ok (ok a) = true
is_ok (err e) = false

pub Result-cases {ℓ} :
    {E : Type 0} {A : Type ℓ} (r : Result E A) → ((a : A) × (r ≡ ok a)) ⊎ ((e : E) × (r ≡ err e))
Result-cases (ok a) = inl (a, refl)
Result-cases (err e) = inr (e, refl)

pub >>=-eq-ok {ℓ κ} :
    {E : Type 0} {A : Type ℓ} {B : Type κ} (first : Result E A) (then : A → Result E B) {out : B}
    → (first >>= then) ≡ ok out
    → (value : A) × (first ≡ ok value) × (then value ≡ ok out)
>>=-eq-ok (err failure) then h = cc
>>=-eq-ok (ok value) then h = (value, refl, h)

-- Inversion of a guard, and of a check that gives no value.
pub reject-eq-ok {ℓ} :
    {E : Type 0} {B : Type ℓ} (b : Bool) (e : E) (k : Result E B) {r : B}
    → (reject b e >> k) ≡ ok r
    → (b ≡ false) × (k ≡ ok r)
reject-eq-ok true e k h = cc
reject-eq-ok false e k h = (refl, h)

pub >>-eq-ok {ℓ} :
    {E : Type 0} {B : Type ℓ} (m : Result E (Unit {0})) (k : Result E B) {r : B}
    → (m >> k) ≡ ok r
    → (m ≡ ok tt) × (k ≡ ok r)
>>-eq-ok (ok tt) k h = (refl, h)
>>-eq-ok (err e) k h = cc

-- Where an error comes from: the first call, or what follows it.
pub >>=-eq-err {ℓ κ} :
    {E : Type 0} {A : Type ℓ} {B : Type κ} (first : Result E A) (then : A → Result E B) {e : E}
    → (first >>= then) ≡ err e
    → (first ≡ err e) ⊎ ((value : A) × (first ≡ ok value) × (then value ≡ err e))
>>=-eq-err (err failure) then h = inl (ground arith)
>>=-eq-err (ok value) then h = inr (value, refl, h)

-- Two equal results of two values each.
pub ok-injective :
    {E A B : Type 0} {a c : A} {b d : B}
    → ◌≡◌ {A = Result E (A × B)} (ok (a, b)) (ok (c, d))
    → (a ≡ c) × (b ≡ d)
ok-injective h = ground arith

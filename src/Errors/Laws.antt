-- ===== src/Errors/Laws.antt =====
-- Taking successful computations apart.
use realmroot.Prelude.{Bool, true, false, Option, none, some, ◌≡◌, refl, ap, ◌⊎◌, inl, inr}
use realmroot.Errors.{Failure, Result, ok, err, ◌>>=◌, ◌>>◌, require, or_throw}

-- A value of the whole is one of the second part, at a value of the first.
pub >>=-eq-ok {ℓ κ} :
    {A : Type ℓ} {B : Type κ} (first : Result A) (next : A → Result B) {answer : B}
    → (first >>= next) ≡ ok answer
    → (value : A) × (first ≡ ok value) × (next value ≡ ok answer)
>>=-eq-ok (err failure) next same = cc
>>=-eq-ok (ok value) next same = (value, refl, same)

pub require-eq-ok {ℓ} :
    {B : Type ℓ} (t : Bool) (e : Failure) (k : Result B) {b : B}
    → (require t e >> k) ≡ ok b
    → (t ≡ true) × (k ≡ ok b)
require-eq-ok true e k h = (refl, h)
require-eq-ok false e k h = cc

pub require-ok : (t : Bool) (e : Failure) → require t e ≡ ok tt → t ≡ true
require-ok true e h = refl
require-ok false e h = cc

pub or_throw-eq-ok {ℓ κ} :
    {A : Type ℓ} {B : Type κ} (o : Option A) (e : Failure) (f : A → Result B) {b : B}
    → (or_throw o e >>= f) ≡ ok b
    → (a : A) × (o ≡ some a) × (f a ≡ ok b)
or_throw-eq-ok none e f h = cc
or_throw-eq-ok (some a) e f h = (a, refl, h)

pub require-bind_of_true {ℓ} :
    {B : Type ℓ} (t : Bool) (e : Failure) (k : Result B) → t ≡ true → (require t e >> k) ≡ k
require-bind_of_true t e k h = rw h

pub require-bind_of_false {ℓ} :
    {B : Type ℓ} (t : Bool) (e : Failure) (k : Result B) → t ≡ false → (require t e >> k) ≡ err e
require-bind_of_false t e k h = rw h

pub ok-injective {ℓ} : {A : Type ℓ} {a b : A} → ok a ≡ ok b → a ≡ b
ok-injective e = cc

pub Result-cases {ℓ} :
    {A : Type ℓ} (r : Result A) → ((a : A) × (r ≡ ok a)) ⊎ ((e : Failure) × (r ≡ err e))
Result-cases (ok a) = inl (a, refl)
Result-cases (err e) = inr (e, refl)

abbrev pub is_ok {ℓ} : {A : Type ℓ} → Result A → Bool
is_ok (ok a) = true
is_ok (err e) = false

pub or_throw-ok {ℓ} :
    {A : Type ℓ} (o : Option A) (e : Failure) (a : A) → or_throw o e ≡ ok a → o ≡ some a
or_throw-ok none e a h = cc
or_throw-ok (some b) e a h = ap some (ok-injective h)

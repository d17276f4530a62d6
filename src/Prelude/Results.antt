-- ===== src/Prelude/Results.antt =====
-- Exceptions as values. An error is the exception's class with its message; a name in braces stands
-- for a value that the program formats into the message.
use Prim.Native.String.{String}
use mathlib.Core.Path.{◌≡◌, refl, subst}
use mathlib.Core.Logic.{◌⊎◌, inl, inr}
use mathlib.Core.Bool.{Bool, true, false}

pub data Error : Type 0 where
  value_error type_error runtime_error projection_error integrity_error file_not_found_error
        overflow_error :
      String → Error

pub data Result {κ} (V : Type κ) : Type κ where
  err : Error → Result V
  ok : V → Result V

-- `if test: raise error`
abbrev pub raise_if : Bool → Error → Result (Unit {0})
raise_if false error = ok tt
raise_if true error = err error

-- The statement after one that may raise.
infixl 5 ◌>>=◌
abbrev pub ◌>>=◌ {κ μ} : {V : Type κ} {W : Type μ} → Result V → (V → Result W) → Result W
err error >>= next = err error
ok value >>= next = next value

infixl 5 ◌>>◌
abbrev pub ◌>>◌ {κ} : {V : Type κ} → Result (Unit {0}) → Result V → Result V
first >> next = first >>= λ _. next

-- What holds of the value, if there is one.
abbrev pub Ensures {ℓ κ} : {A : Type ℓ} → (A → Type κ) → Result A → Type κ
Ensures P (ok a) = P a
Ensures P (err e) = Unit

pub Ensures-bind {ℓ κ μ} :
    {A : Type ℓ} {B : Type κ} (P : B → Type μ) (m : Result A) (f : A → Result B)
    → ((a : A) → m ≡ ok a → Ensures P (f a))
    → Ensures P (m >>= f)
Ensures-bind P (ok a) f h = h a refl
Ensures-bind P (err e) f h = tt

pub Ensures-raise_if {κ μ} :
    {B : Type κ} (P : B → Type μ) (b : Bool) (e : Error) (k : Result B)
    → (b ≡ false → Ensures P k)
    → Ensures P (raise_if b e >> k)
Ensures-raise_if P true e k h = tt
Ensures-raise_if P false e k h = h refl

-- What a statement that follows has read, when the whole has not raised.
module _ {κ μ} {V : Type κ} {W : Type μ} where
  pub >>=-eq-ok :
      (m : Result V) (next : V → Result W) {w : W}
      → (m >>= next) ≡ ok w
      → (v : V) × (m ≡ ok v) × (next v ≡ ok w)
  >>=-eq-ok (err error) next eq = cc
  >>=-eq-ok (ok value) next eq = (value, refl, eq)

pub raise_if-eq-ok {κ} :
    {B : Type κ} (b : Bool) (e : Error) (k : Result B) {a : B}
    → (raise_if b e >> k) ≡ ok a
    → (b ≡ false) × (k ≡ ok a)
raise_if-eq-ok true e k h = cc
raise_if-eq-ok false e k h = (refl, h)

pub Ensures-ok {ℓ κ} :
    {A : Type ℓ} (P : A → Type κ) (m : Result A) (a : A) → m ≡ ok a → Ensures P m → P a
Ensures-ok P (ok b) a e h = subst P (ok-injective e) h
  where
    ok-injective : ok b ≡ ok a → b ≡ a
    ok-injective p = cc
Ensures-ok P (err x) a e h = cc

pub Result-cases {ℓ} :
    {A : Type ℓ} (r : Result A) → ((a : A) × (r ≡ ok a)) ⊎ ((e : Error) × (r ≡ err e))
Result-cases (ok a) = inl (a, refl)
Result-cases (err e) = inr (e, refl)

pub ok-injective {ℓ} : {A : Type ℓ} {a b : A} → ok a ≡ ok b → a ≡ b
ok-injective e = cc

-- `Ensures` under a name that unification can read.
pub record Leads {ℓ κ} {A : Type ℓ} (P : A → Type κ) (r : Result A) : Type κ where
  pub at : Ensures P r

module _ {ℓ} {B : Type 0} (P : B → Type ℓ) where
  pub Leads-ok : (b : B) → P b → Leads P (ok b)
  Leads-ok b h = record { at = h }

  pub Leads-bind {κ} :
      {A : Type κ} (m : Result A) (f : A → Result B)
      → ((a : A) → m ≡ ok a → Leads P (f a))
      → Leads P (m >>= f)
  Leads-bind m f h = record { at = Ensures-bind P m f (λ a e. (h a e).at) }

  pub Leads-raise_if :
      (b : Bool) (e : Error) (k : Result B) → (b ≡ false → Leads P k) → Leads P (raise_if b e >> k)
  Leads-raise_if b e k h = record { at = Ensures-raise_if P b e k (λ q. (h q).at) }

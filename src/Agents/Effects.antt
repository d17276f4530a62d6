-- ===== src/Agents/Effects.antt =====
-- Coroutines of incident_guard/agents as actions: an action takes the state and returns its reply with
-- the state after it, so what was done before an exception stays done. `asyncio.timeout` shows as an
-- exception of its own, which any awaited call may raise; `CrashInjected` of event_runtime.py is another.
use incident_guard.Prelude.{
  String, ◌≡◌, refl, Error, value_error, type_error, runtime_error, projection_error,
  integrity_error, file_not_found_error, overflow_error, Result, ok, err,
}

pub data Failure : Type 0 where
  timed_out : Failure
  failed_with : String → Failure
  crashed : String → Failure

-- `str(error)`
abbrev pub message_of : Error → String
message_of (value_error m) = m
message_of (type_error m) = m
message_of (runtime_error m) = m
message_of (projection_error m) = m
message_of (integrity_error m) = m
message_of (file_not_found_error m) = m
message_of (overflow_error m) = m

pub data Reply {ℓ} (A : Type ℓ) : Type ℓ where
  throws : Failure → Reply A
  gives : A → Reply A

abbrev pub Act {ℓ κ} : Type ℓ → Type κ → Type (ℓ ⊔ κ)
Act S A = S → Reply A × S

module _ {ℓ κ} {S : Type ℓ} {A : Type κ} where
  abbrev pub give : A → Act S A
  give a s = (gives a, s)

  abbrev pub throw : Failure → Act S A
  throw f s = (throws f, s)

  -- A call of a function that may raise and leaves the state.
  abbrev pub lift : Result A → Act S A
  lift (ok a) s = (gives a, s)
  lift (err e) s = (throws (failed_with (message_of e)), s)

module _ {ℓ} {S : Type ℓ} where
  abbrev pub modify : (S → S) → Act S (Unit {0})
  modify f s = (gives tt, f s)

  abbrev pub get : Act S S
  get s = (gives s, s)

module _ {ℓ κ μ} {S : Type ℓ} {A : Type κ} {B : Type μ} where
  abbrev pub next : (A → Act S B) → Reply A × S → Reply B × S
  next f (gives a, s) = f a s
  next f (throws x, s) = (throws x, s)

  infixl 5 ◌>>=◌
  abbrev pub ◌>>=◌ : Act S A → (A → Act S B) → Act S B
  m >>= f = λ s. next f (m s)

infixl 5 ◌>>◌
abbrev pub ◌>>◌ {ℓ κ} : {S : Type ℓ} {B : Type κ} → Act S (Unit {0}) → Act S B → Act S B
m >> k = m >>= λ _. k

-- What holds of a reply and the state beside it: by its value, or after an exception.
abbrev pub Ends {ℓ κ μ} :
    {S : Type ℓ} {A : Type κ} → (A → S → Type μ) → (S → Type μ) → Reply A × S → Type μ
Ends Q E (gives a, s) = Q a s
Ends Q E (throws x, s) = E s

module _ {ℓ κ μ} {S : Type ℓ} {A : Type κ} where
  pub Ends-bind {ν} :
      {B : Type ν} (Q : A → S → Type μ) (R : B → S → Type μ) (E : S → Type μ) (f : A → Act S B)
      (r : Reply A × S)
      → Ends Q E r
      → ((a : A) (s : S) → Q a s → Ends R E (f a s))
      → Ends R E (next f r)
  Ends-bind Q R E f (gives a, s) q k = k a s q
  Ends-bind Q R E f (throws x, s) q k = q

  pub Ends-mono :
      (Q R : A → S → Type μ) (E F : S → Type μ) (r : Reply A × S)
      → ((a : A) (s : S) → Q a s → R a s)
      → ((s : S) → E s → F s)
      → Ends Q E r
      → Ends R F r
  Ends-mono Q R E F (gives a, s) f g q = f a s q
  Ends-mono Q R E F (throws x, s) f g q = g s q

  -- A function that may raise leaves the state.
  pub Ends-lift :
      (Q : A → S → Type μ) (E : S → Type μ) (r : Result A) (s : S)
      → E s
      → ((a : A) → r ≡ ok a → Q a s)
      → Ends Q E (lift r s)
  Ends-lift Q E (ok a) s e k = k a refl
  Ends-lift Q E (err x) s e k = e

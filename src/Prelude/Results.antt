-- ===== src/Prelude/Results.antt =====
-- Exceptions as values: one constructor for each exception class of the sources, without its text.
use mathlib.Core.Path.{◌≡◌, refl}
use mathlib.Core.Bool.{Bool, true, false}
use mathlib.Core.Option.{Option, none, some}

pub data Error : Type 0 where
  value_error runtime_error assertion_error type_error : Error
  integrity_error context_conflict context_not_found event_conflict request_conflict : Error
  protocol_violation token_budget_exceeded : Error
  structured_ingestion_error invalid_identity missing_session_identity : Error

-- how a call ends
pub data Result (A : Type 0) : Type 0 where
  err : Error → Result A
  ok : A → Result A

infixl 5 ◌>>=◌ ◌>>◌
abbrev pub ◌>>=◌ : {A B : Type 0} → Result A → (A → Result B) → Result B
◌>>=◌ (err raised) _ = err raised
◌>>=◌ (ok value) next = next value

abbrev pub ◌>>◌ : {A B : Type 0} → Result A → Result B → Result B
◌>>◌ first second = first >>= λ _. second

-- `if test: raise error`
abbrev pub raise_if : Bool → Error → Result (Unit {0})
raise_if true e = err e
raise_if false e = ok tt

-- the value, or the exception if there is none
abbrev pub or_raise : {A : Type 0} → Option A → Error → Result A
or_raise none e = err e
or_raise (some a) _ = ok a

-- The two calls of a chain that has returned.
pub >>=_inv :
    {A B : Type 0} (first : Result A) (next : A → Result B) {final : B}
    → (first >>= next) ≡ ok final
    → (value : A) × (first ≡ ok value) × (next value ≡ ok final)
>>=_inv (err raised) next returned = absurd (cc)
>>=_inv (ok value) next returned = (value, refl, returned)

pub raise_if-eq-ok : (b : Bool) (e : Error) → raise_if b e ≡ ok tt → b ≡ false
raise_if-eq-ok true e h = cc
raise_if-eq-ok false e h = refl

pub ok_inj : {A : Type 0} {a b : A} → ok a ≡ ok b → a ≡ b
ok_inj h = cc

-- ===== src/Prelude/Result.antt =====
-- Calls that may raise a Python exception, which is told by its class.
use mathlib.Core.Path.{◌≡◌, refl}
use mathlib.Core.Logic.{◌⊎◌, inl, inr}
use mathlib.Core.Bool.{Bool, true, false}
use mathlib.Core.Option.{Option, none, some}

-- `gdb_error` is `gdb.error`; the others are the built-in classes, and `struct.error`.
pub data Error : Type 0 where
  value_error index_error key_error attribute_error runtime_error os_error : Error
  not_implemented assertion_error struct_error gdb_error memory_error overflow_error type_error :
      Error

-- What a call gives: its value, or the exception that it raised.
pub data Result {ℓ} (Value : Type ℓ) : Type ℓ where
  ok : Value → Result Value
  err : Error → Result Value

abbrev pub raise_if : Bool → Error → Result (Unit {0})
raise_if true e = err e
raise_if false e = ok tt

abbrev pub or_raise {ℓ} : {A : Type ℓ} → Option A → Error → Result A
or_raise none e = err e
or_raise (some a) e = ok a

abbrev pub map_ok {ℓ κ} : {A : Type ℓ} {B : Type κ} → (A → B) → Result A → Result B
map_ok f (ok a) = ok (f a)
map_ok f (err e) = err e

-- The next statement runs if this one did not raise.
infixl 5 ◌>>=◌
abbrev pub ◌>>=◌ {ℓ κ} :
    {Value : Type ℓ} {Next : Type κ} → Result Value → (Value → Result Next) → Result Next
err raised >>= next = err raised
ok value >>= next = next value

-- To split on how a call ended, and keep the equation.
pub Result-cases {ℓ} :
    {A : Type ℓ} (call : Result A) → ((a : A) × (call ≡ ok a)) ⊎ ((e : Error) × (call ≡ err e))
Result-cases (ok a) = inl (a, refl)
Result-cases (err e) = inr (e, refl)

pub ok-injective {ℓ} : {A : Type ℓ} {a b : A} → ok a ≡ ok b → a ≡ b
ok-injective h = cc

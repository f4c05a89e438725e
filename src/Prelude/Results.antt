-- ===== src/Prelude/Results.antt =====
-- Results of code that may throw, and the exceptions it throws, with the message of the source.
use Prim.Native.String.{String}
use mathlib.Core.Path.{◌≡◌, refl}
use mathlib.Core.Logic.{◌⊎◌, inl, inr}
use mathlib.Core.Bool.{Bool, true, false}
use mathlib.Core.Option.{Option, none, some}

-- `uncaught` stands for what the standard library throws: `bad_variant_access`, `out_of_range`
-- of `map::at`. `fuel_ran_out` is no exception of the code: it is what a recursion of the model gives
-- at its bound.
pub data Exception : Type 0 where
  runtime_error out_of_range invalid_argument uncaught : String → Exception
  fuel_ran_out : Exception

pub data Result {ℓ} (A : Type ℓ) : Type ℓ where
  ok : A → Result A
  err : Exception → Result A

-- A step of a chain, and what follows with its value.
infixl 5 ◌>>=◌
abbrev pub ◌>>=◌ {ℓ κ} : {X : Type ℓ} {Y : Type κ} → Result X → (X → Result Y) → Result Y
ok x >>= next = next x
err thrown >>= next = err thrown

-- `if (bad) throw e;`
abbrev pub throw_if : Bool → Exception → Result (Unit {0})
throw_if true e = err e
throw_if false e = ok tt

-- A step without a value.
infixl 5 ◌>>◌
abbrev pub ◌>>◌ {ℓ} : {Y : Type ℓ} → Result (Unit {0}) → Result Y → Result Y
step >> next = step >>= λ _. next

-- `optional::value`, `variant::get` and `map::at`: the value, or the exception.
abbrev pub or_throw {ℓ} : {A : Type ℓ} → Option A → Exception → Result A
or_throw none e = err e
or_throw (some a) e = ok a

-- A successful chain has a successful first step.
pub >>=-eq-ok {ℓ κ} :
    {X : Type ℓ} {Y : Type κ} (step : Result X) (next : X → Result Y) {out : Y}
    → (step >>= next) ≡ ok out
    → (x : X) × (step ≡ ok x) × (next x ≡ ok out)
>>=-eq-ok (ok x) next e = (x, refl, e)
>>=-eq-ok (err thrown) next e = cc

pub Result-cases {ℓ} :
    {A : Type ℓ} (r : Result A) → ((a : A) × (r ≡ ok a)) ⊎ ((e : Exception) × (r ≡ err e))
Result-cases (ok a) = inl (a, refl)
Result-cases (err e) = inr (e, refl)

-- What holds of each result of a chain, shown for what follows its first step.
pub >>=-result {ℓ κ μ} :
    {A : Type ℓ} {B : Type κ} (P : B → Type μ) (m : Result A) (f : A → Result B) (b : B)
    → (m >>= f) ≡ ok b
    → ((a : A) → m ≡ ok a → f a ≡ ok b → P b)
    → P b
>>=-result P (ok a) f b h k = k a refl h
>>=-result P (err e) f b h k = cc

-- ===== src/Errors.antt =====
-- The exceptions of the program, and computations that may raise one.
use mathlib.Core.Option.{Option, none, some}
use mathlib.Core.Path.{◌≡◌, refl}
use mathlib.Core.Logic.{◌⊎◌, inl, inr}
use mathlib.Core.Bool.{Bool, true, false}

-- `runtime_error` is the one that the command line reports; the others escape as tracebacks.
pub data Error : Type 0 where
  runtime_error key_error type_error value_error attribute_error struct_error zero_division : Error
  -- `SystemExit`, which ends the process with a message
  system_exit : Error
  -- `OSError`, and `KeyboardInterrupt`, which the signal handler raises
  os_error keyboard_interrupt : Error

pub data Result {ℓ} (A : Type ℓ) : Type ℓ where
  ok : A → Result A
  err : Error → Result A

-- `d[k]`, where the lookup has been made.
abbrev pub require {ℓ} : {A : Type ℓ} → Option A → Error → Result A
require none e = err e
require (some a) e = ok a

infixl 5 ◌>>=◌
abbrev pub ◌>>=◌ {ℓ κ} : {A : Type ℓ} {B : Type κ} → Result A → (A → Result B) → Result B
err e >>= step = err e
ok a >>= step = step a

-- `if not b: raise e`
abbrev pub guard : Bool → Error → Result (Unit {0})
guard b e = elim b [ true ↦ ok tt | false ↦ err e ]

infixl 5 ◌>>◌
abbrev pub ◌>>◌ {ℓ} : {B : Type ℓ} → Result (Unit {0}) → Result B → Result B
checked >> rest = checked >>= λ _. rest

pub >>=-eq-ok {ℓ κ} :
    {A : Type ℓ} {B : Type κ} (first : Result A) (step : A → Result B) {b : B}
    → (first >>= step) ≡ ok b
    → (a : A) × (first ≡ ok a) × (step a ≡ ok b)
>>=-eq-ok (err e) step raised = cc
>>=-eq-ok (ok a) step ran = (a, refl, ran)

pub >>=_assoc {ℓ κ μ} :
    {A : Type ℓ} {B : Type κ} {C : Type μ} (m : Result A) (f : A → Result B) (g : B → Result C)
    → ((m >>= f) >>= g) ≡ (m >>= λ a. f a >>= g)
>>=_assoc (ok a) f g = refl
>>=_assoc (err e) f g = refl

pub Result-cases {ℓ} :
    {A : Type ℓ} (r : Result A) → ((e : Error) × (r ≡ err e)) ⊎ ((a : A) × (r ≡ ok a))
Result-cases (err e) = inl (e, refl)
Result-cases (ok a) = inr (a, refl)

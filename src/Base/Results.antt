-- ===== src/Base/Results.antt =====
-- `globus_result_t`: success with a value, an error object, or an execution that stops at a failed
-- assertion, at an access out of bounds or at a null pointer.
use Prim.Native.Nat.{ℕ}
use mathlib.Core.Option.{Option, none, some}
use mathlib.Core.Bool.{Bool, true, false}

-- `GLOBUS_DSI_REST_ERROR_*`
pub data Error : Type 0 where
  parameter memory parse json time_out thread_fail unexpected_data : Error
  curl : ℕ → Error
  -- an error that code outside the library reports
  foreign : ℕ → Error

pub data Result {ℓ} (A : Type ℓ) : Type ℓ where
  ok : A → Result A
  err : Error → Result A
  fault : Result A

infixl 5 ◌>>=◌
-- An error and a fault skip what follows.
abbrev pub ◌>>=◌ {ℓ ℓ'} :
    {A : Type ℓ} {B : Type ℓ'} → (first : Result A) (next : A → Result B) → Result B
fault >>= next = fault
err e >>= next = err e
ok a >>= next = next a

infixl 5 ◌>>◌
abbrev pub ◌>>◌ {ℓ} : {B : Type ℓ} → (first : Result (Unit {0})) (next : Result B) → Result B
first >> next = first >>= λ _. next

-- `assert`
abbrev pub check : Bool → Result (Unit {0})
check true = ok tt
check false = fault

-- A read through a pointer that may be null.
abbrev pub deref {ℓ} : {A : Type ℓ} → Option A → Result A
deref none = fault
deref (some a) = ok a

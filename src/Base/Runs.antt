-- ===== src/Base/Runs.antt =====
-- Executions of loops and of copies between buffers, and lists that are read from an index on.
use Prim.Native.Nat.{ℕ, zero, suc, ◌+◌, ◌-◌, ◌≤◌, ◌<◌}
use mathlib.Core.Path.{◌≡◌, refl, ap, ◌∙◌}
use mathlib.Core.Bool.{Bool, true, false}
use mathlib.Core.Option.{Option, none, some}
use mathlib.Core.List.{List, [], ◌∷◌, ◌++◌}
use native.Mathlib.Omega.{arith}
use globus_dsi_rest.Base.Tests.{ltb, if◌then◌else◌, le→ltb}
use globus_dsi_rest.Base.Lists.{Bytes, length, take, drop, get_elem?, set, length-take, length-drop}

-- An execution that ends, one that stops at a failed assertion or at an access out of bounds, and
-- one that does not come to an end within its fuel.
pub data Run {ℓ} (A : Type ℓ) : Type ℓ where
  done : A → Run A
  stuck : Run A
  out_of_fuel : Run A

infixl 5 ◌>>=◌
-- What follows an execution runs only when that ends.
abbrev pub ◌>>=◌ {ℓ ℓ'} : {A : Type ℓ} {B : Type ℓ'} → (first : Run A) (next : A → Run B) → Run B
out_of_fuel >>= next = out_of_fuel
stuck >>= next = stuck
done a >>= next = next a

infixl 5 ◌>>◌
abbrev pub ◌>>◌ {ℓ} : {B : Type ℓ} → (first : Run (Unit {0})) (next : Run B) → Run B
first >> next = first >>= λ _. next

-- `assert`
abbrev pub assert : Bool → Run (Unit {0})
assert true = done tt
assert false = stuck

-- A pointer or an index that must be good.
abbrev pub some_of {ℓ} : {A : Type ℓ} → Option A → Run A
some_of none = stuck
some_of (some a) = done a

-- The source of a `memcpy` of `n` bytes from `offset`: all of them lie in the object.
unfoldable pub read_mem : Bytes → ℕ → ℕ → Run Bytes
read_mem mem offset n =
    if ltb (length mem) (offset + n) then stuck else done (take n (drop offset mem))

pub read_mem_lem :
    (mem : Bytes) (offset n : ℕ)
    → offset + n ≤ length mem
    → read_mem mem offset n ≡ done (take n (drop offset mem))
unfolding read_mem
read_mem_lem mem offset n h = rw (le→ltb (length mem) (offset + n) h)

pub length-read :
    (mem : Bytes) (offset n : ℕ) → offset + n ≤ length mem → length (take n (drop offset mem)) ≡ n
length-read mem offset n h = omega (arith, length-take n (drop offset mem), length-drop offset mem)

module _ {ℓ} {A : Type ℓ} where
  take-nil : (k : ℕ) → ◌≡◌ {A = List A} [] (take k [])
  take-nil zero = refl
  take-nil (suc k) = refl

  -- A prefix in two steps.
  pub take-split :
      (a m : ℕ) (xs : List A) → a ≤ m → take m xs ≡ take a xs ++ take (m - a) (drop a xs)
  take-split zero m xs h = ap (λ k. take k xs) (omega arith)
  take-split (suc a) zero xs h = absurd (omega arith)
  take-split (suc a) (suc m) [] h = take-nil (suc m - suc a)
  take-split (suc a) (suc m) (x ∷ xs) h =
      ap (λ t. x ∷ t)
        (take-split a m xs (omega arith) ∙ ap (λ k. take a xs ++ take k (drop a xs)) e)
    where
      e : m - a ≡ suc m - suc a
      e = omega arith

  pub drop_elem :
      (i : ℕ) (xs : List A) {x : A} → get_elem? xs i ≡ some x → drop i xs ≡ x ∷ drop (suc i) xs
  drop_elem i [] h = cc
  drop_elem zero (x ∷ xs) h = cc
  drop_elem (suc i) (x ∷ xs) h = drop_elem i xs h

  pub elem_at : (i : ℕ) (xs : List A) → i < length xs → (x : A) × (get_elem? xs i ≡ some x)
  elem_at i [] h = absurd (omega arith)
  elem_at zero (x ∷ xs) h = (x, refl)
  elem_at (suc i) (x ∷ xs) h = elem_at i xs (omega arith)

  pub drop-set :
      (i : ℕ) (xs : List A) (v : A) → i < length xs → drop i (set xs i v) ≡ v ∷ drop (suc i) xs
  drop-set i [] v h = absurd (omega arith)
  drop-set zero (x ∷ xs) v h = refl
  drop-set (suc i) (x ∷ xs) v h = drop-set i xs v (omega arith)

  pub drop-suc-set : (i : ℕ) (xs : List A) (v : A) → drop (suc i) (set xs i v) ≡ drop (suc i) xs
  drop-suc-set i [] v = refl
  drop-suc-set zero (x ∷ xs) v = refl
  drop-suc-set (suc i) (x ∷ xs) v = drop-suc-set i xs v

  pub length-set : (xs : List A) (i : ℕ) (v : A) → length (set xs i v) ≡ length xs
  length-set [] i v = refl
  length-set (x ∷ xs) zero v = refl
  length-set (x ∷ xs) (suc i) v = ap suc (length-set xs i v)

  pub get_elem?-set_self :
      (xs : List A) (i : ℕ) (v : A) → i < length xs → get_elem? (set xs i v) i ≡ some v
  get_elem?-set_self [] i v h = absurd (omega arith)
  get_elem?-set_self (x ∷ xs) zero v h = refl
  get_elem?-set_self (x ∷ xs) (suc i) v h = get_elem?-set_self xs i v (omega arith)

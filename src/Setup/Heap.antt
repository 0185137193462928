-- ===== src/Setup/Heap.antt =====
-- The C heap, as far as the ownership of blocks goes: `malloc`, `realloc` and `free` in a
-- state-passing monad. Each allocation takes the next number, and a block is known by the number of
-- its allocation; what a block holds stands in the structures that point to it.
pub mod Accounts
use globus_dsi_rest.Base.{ℕ, ◌+◌, Bool, true, false, List, ◌∷◌, if◌then◌else◌}
use globus_dsi_rest.Base.Runs.{Run, done, stuck, out_of_fuel}

pub data Pointer : Type 0 where
  null : Pointer
  block : ℕ → Pointer

-- `freed` has the blocks that were given to `free`, the last one first.
pub record Heap : Type 0 where
  pub next : ℕ
  pub freed : List ℕ

abbrev pub M {ℓ} : Type ℓ → Type ℓ
M A = Heap → Run (A × Heap)

abbrev pub pure {ℓ} : {A : Type ℓ} → A → M A
pure a h = done (a, h)

-- A null pointer or a foreign one is used.
abbrev pub stop {ℓ} : {A : Type ℓ} → M A
stop h = stuck

abbrev pub lift {ℓ} : {A : Type ℓ} → Run A → M A
lift r h = elim r [ done a ↦ done (a, h) | stuck ↦ stuck | out_of_fuel ↦ out_of_fuel ]

infixl 5 ◌>>=◌ ◌>>◌
unfoldable pub ◌>>=◌ {ℓ ℓ'} : {A : Type ℓ} {B : Type ℓ'} → M A → (A → M B) → M B
◌>>=◌ m f h = elim (m h) [ done (a, h') ↦ f a h' | stuck ↦ stuck | out_of_fuel ↦ out_of_fuel ]

abbrev pub ◌>>◌ {ℓ} : {B : Type ℓ} → M (Unit {0}) → M B → M B
m >> k = m >>= λ _. k

abbrev pub is_null : Pointer → Bool
is_null null = true
is_null (block p) = false

-- `grants` tells which allocations succeed.
unfoldable pub malloc : (ℕ → Bool) → M Pointer
malloc grants h =
    done (if grants h.next then block h.next else null, record h { next = h.next + 1 })

-- An allocation whose result is used without a look at it.
unfoldable pub must_malloc : (ℕ → Bool) → M Pointer
unfolding malloc
must_malloc grants = do p ← malloc grants; elim p [ null ↦ stop | block n ↦ pure (block n) ]

unfoldable pub free : Pointer → M (Unit {0})
free null h = done (tt, h)
free (block p) h = done (tt, record h { freed = p ∷ h.freed })

-- The old block is given back when there is a new one.
unfoldable pub realloc : (ℕ → Bool) → Pointer → M Pointer
unfolding malloc free
realloc grants old = do
  p ← malloc grants
  elim p [ null ↦ pure null | block n ↦ free old >> pure (block n) ]

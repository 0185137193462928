-- ===== src/Setup/CleanUp/Frees.antt =====
-- The clean-up of a part frees what the part holds.
use globus_dsi_rest.Base.{ℕ, ◌+◌, ◌≡◌, false, ◌&&◌, List, [], ◌∷◌, ltb, arith}
use globus_dsi_rest.Base.Runs.{Run}
use globus_dsi_rest.Gridftp.Op.{Buffer}
use globus_dsi_rest.Setup.Heap.{Pointer, block, Heap, M, ◌>>◌, is_null, free}
use globus_dsi_rest.Setup.Heap.Accounts.{
  at, Accounts, Ends, Ends-pure, Ends-bind, free_lem, free-bind,
}
use globus_dsi_rest.Setup.WritePart.{
  MallocedHeader, WritePart, write_part, WriteArg, custom, unprepared, block_arg, blocks_arg,
  text_arg, op_arg, multipart_arg, WriteParts, no_parts, one_part,
}
use globus_dsi_rest.Setup.CleanUp.{
  free_strings, free_chain, cleanup_write_part, cleanup_write_arg, cleanup_write_parts,
}

abbrev pub strings_hold : List MallocedHeader → ℕ → ℕ
strings_hold [] p = 0
strings_hold (s ∷ ss) p = at s.key p + (at s.value p + strings_hold ss p)

abbrev pub buffers_hold : List Buffer → ℕ → ℕ
buffers_hold [] p = 0
buffers_hold (b ∷ bs) p = at (block b.address) p + buffers_hold bs p

-- How often a part holds the block `p`.
unfoldable mutual
  pub part_holds : WritePart → ℕ → ℕ
  part_holds (write_part hs arg) p =
      at hs.key_value p
      + (strings_hold hs.malloced p + (at hs.malloced_key_value p + arg_holds arg p))

  pub arg_holds : WriteArg → ℕ → ℕ
  arg_holds custom p = 0
  arg_holds unprepared p = 0
  arg_holds (text_arg arg text b) p = at text p + at arg p
  arg_holds (block_arg arg b) p = at arg p
  arg_holds (blocks_arg arg blocks bs) p = at blocks p + at arg p
  arg_holds (op_arg arg s) p = buffers_hold s.free_buffers p + at arg p
  arg_holds (multipart_arg arg m ps) p =
      parts_hold ps p + (at m.boundary p + (at m.current_boundary p + (at m.parts p + at arg p)))

  pub parts_hold : WriteParts → ℕ → ℕ
  parts_hold no_parts p = 0
  parts_hold (one_part x xs) p = part_holds x p + parts_hold xs p

-- The library's own arguments, and arrays that are there when they have parts.
unfoldable mutual
  pub PartIsWhole : WritePart → Type 0
  PartIsWhole (write_part hs arg) = ArgIsWhole arg

  pub ArgIsWhole : WriteArg → Type 0
  ArgIsWhole unprepared = ⊥
  ArgIsWhole custom = Unit
  ArgIsWhole (text_arg arg text b) = Unit
  ArgIsWhole (block_arg arg b) = Unit
  ArgIsWhole (blocks_arg arg blocks bs) = Unit
  ArgIsWhole (op_arg arg s) = Unit
  ArgIsWhole (multipart_arg arg m ps) =
      ((is_null m.parts && ltb 0 m.num_parts) ≡ false) × PartsIsWhole ps

  pub PartsIsWhole : WriteParts → Type 0
  PartsIsWhole no_parts = Unit
  PartsIsWhole (one_part x xs) = PartIsWhole x × PartsIsWhole xs

-- The condition that a clean-up leaves.
abbrev pub Frees : (ℕ → ℕ) → Run (Unit {0} × Heap) → Type 0
Frees held r = Ends (λ _ h. Accounts held h) r

pub then_free :
    (m : M (Unit {0})) (k : M (Unit {0})) (rest held : ℕ → ℕ) (h : Heap)
    → Frees rest (m h)
    → ((h' : Heap) → Accounts rest h' → Frees held (k h'))
    → Frees held ((m >> k) h)
then_free m k rest held h e next = Ends-bind m (λ _. k) h e λ _ h' a. next h' a

pub free_strings_lem :
    (ss : List MallocedHeader) (held : ℕ → ℕ) (h : Heap)
    → Accounts (λ p. held p + strings_hold ss p) h
    → Frees held (free_strings ss h)
unfolding free_strings
free_strings_lem [] held h a = Ends-pure tt h λ p. omega (arith, a p)
free_strings_lem (s ∷ ss) held h a =
    free-bind (λ p. held p + (at s.value p + strings_hold ss p)) h s.key
      (λ _. free s.value >> free_strings ss) (λ p. omega (arith, a p))
      λ h' b.
        free-bind (λ p. held p + strings_hold ss p) h' s.value (λ _. free_strings ss)
          (λ p. omega (arith, b p)) λ h'' c. free_strings_lem ss held h'' c

pub free_chain_lem :
    (bs : List Buffer) (held : ℕ → ℕ) (h : Heap)
    → Accounts (λ p. held p + buffers_hold bs p) h
    → Frees held (free_chain bs h)
unfolding free_chain
free_chain_lem [] held h a = Ends-pure tt h λ p. omega (arith, a p)
free_chain_lem (b ∷ bs) held h a =
    free-bind (λ p. held p + buffers_hold bs p) h (block b.address) (λ _. free_chain bs)
      (λ p. omega (arith, a p)) λ h' c. free_chain_lem bs held h' c

-- Two blocks in a row.
pub free_two :
    (x y : Pointer) (held : ℕ → ℕ) (h : Heap)
    → Accounts (λ p. held p + (at x p + at y p)) h
    → Frees held ((free x >> free y) h)
free_two x y held h a =
    free-bind (λ p. held p + at y p) h x (λ _. free y) (λ p. omega (arith, a p))
      λ h' b. free_lem y held h' b

mutual
  unfolding cleanup_write_part cleanup_write_arg cleanup_write_parts part_holds arg_holds parts_hold
      PartIsWhole ArgIsWhole PartsIsWhole

  part_lem :
      (x : WritePart) (held : ℕ → ℕ) (h : Heap)
      → PartIsWhole x
      → Accounts (λ p. held p + part_holds x p) h
      → Frees held (cleanup_write_part x h)
  part_lem (write_part hs arg) held h w a =
      free-bind
        (λ p.
          held p + (strings_hold hs.malloced p + (at hs.malloced_key_value p + arg_holds arg p)))
        h hs.key_value
        (λ _. free_strings hs.malloced >> (free hs.malloced_key_value >> cleanup_write_arg arg))
        (λ p. omega (arith, a p))
        λ h₁ a₁.
          then_free (free_strings hs.malloced) (free hs.malloced_key_value >> cleanup_write_arg arg)
            (λ p. held p + (at hs.malloced_key_value p + arg_holds arg p)) held h₁
            (free_strings_lem hs.malloced
              (λ p. held p + (at hs.malloced_key_value p + arg_holds arg p)) h₁
              (λ p. omega (arith, a₁ p)))
            λ h₂ a₂.
              free-bind (λ p. held p + arg_holds arg p) h₂ hs.malloced_key_value
                (λ _. cleanup_write_arg arg) (λ p. omega (arith, a₂ p))
                λ h₃ a₃. arg_lem arg held h₃ w a₃

  arg_lem :
      (x : WriteArg) (held : ℕ → ℕ) (h : Heap)
      → ArgIsWhole x
      → Accounts (λ p. held p + arg_holds x p) h
      → Frees held (cleanup_write_arg x h)
  arg_lem unprepared held h w a = absurd w
  arg_lem custom held h w a = Ends-pure tt h λ p. omega (arith, a p)
  arg_lem (text_arg arg text b) held h w a = free_two text arg held h a
  arg_lem (block_arg arg b) held h w a = free_lem arg held h a
  arg_lem (blocks_arg arg blocks bs) held h w a = free_two blocks arg held h a
  arg_lem (op_arg arg s) held h w a =
      then_free (free_chain s.free_buffers) (free arg) (λ p. held p + at arg p) held h
        (free_chain_lem s.free_buffers (λ p. held p + at arg p) h (λ p. omega (arith, a p)))
        λ h' b. free_lem arg held h' b
  arg_lem (multipart_arg arg m ps) held h w a = rw w.0 (
      then_free (cleanup_write_parts ps)
        (free m.boundary >> (free m.current_boundary >> (free m.parts >> free arg)))
        (λ p. held p + (at m.boundary p + (at m.current_boundary p + (at m.parts p + at arg p))))
        held h
        (parts_lem ps
          (λ p. held p + (at m.boundary p + (at m.current_boundary p + (at m.parts p + at arg p))))
          h w.1 (λ p. omega (arith, a p)))
        λ h₁ a₁.
          free-bind (λ p. held p + (at m.current_boundary p + (at m.parts p + at arg p))) h₁
            m.boundary (λ _. free m.current_boundary >> (free m.parts >> free arg))
            (λ p. omega (arith, a₁ p))
            λ h₂ a₂.
              free-bind (λ p. held p + (at m.parts p + at arg p)) h₂ m.current_boundary
                (λ _. free m.parts >> free arg) (λ p. omega (arith, a₂ p))
                λ h₃ a₃. free_two m.parts arg held h₃ a₃)

  parts_lem :
      (xs : WriteParts) (held : ℕ → ℕ) (h : Heap)
      → PartsIsWhole xs
      → Accounts (λ p. held p + parts_hold xs p) h
      → Frees held (cleanup_write_parts xs h)
  parts_lem no_parts held h w a = Ends-pure tt h λ p. omega (arith, a p)
  parts_lem (one_part x xs) held h w a =
      then_free (cleanup_write_part x) (cleanup_write_parts xs) (λ p. held p + parts_hold xs p) held
        h (part_lem x (λ p. held p + parts_hold xs p) h w.0 (λ p. omega (arith, a p)))
        λ h' b. parts_lem xs held h' w.1 b

-- The clean-up of a part frees each block that the part holds, and no other.
pub cleanup_write_part-Frees :
    (x : WritePart) (held : ℕ → ℕ) (h : Heap)
    → PartIsWhole x
    → Accounts (λ p. held p + part_holds x p) h
    → Frees held (cleanup_write_part x h)
cleanup_write_part-Frees x held h w a = part_lem x held h w a

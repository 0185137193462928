-- ===== src/Setup/ReadPart/Owns.antt =====
-- What the preparation of a read part allocates is held by the part, and its clean-up frees it.
use globus_dsi_rest.Base.{ℕ, ◌+◌, ◌≡◌, ◌⊎◌, inl, inr, refl, ap, length, false, [], arith}
use globus_dsi_rest.Gridftp.ReadOp.{Others}
use globus_dsi_rest.Gridftp.ReadOp.Inv.{IsFair}
use globus_dsi_rest.Setup.ReadPart.Drain.{in_use, wait_idle-Drained}
use globus_dsi_rest.Setup.Heap.{Pointer, null, block, Heap, M, ◌>>◌, free}
use globus_dsi_rest.Setup.Heap.Accounts.{at, Accounts, Ends-pure, free_lem, free-bind, lift-bind}
use globus_dsi_rest.Setup.CleanUp.{free_strings, free_chain}
use globus_dsi_rest.Setup.CleanUp.Frees.{
  strings_hold, buffers_hold, Frees, then_free, free_strings_lem, free_chain_lem, free_two,
}
use globus_dsi_rest.Setup.ReadPart.{
  ReadHeaders, ReadPart, read_part, ReadArg, custom, null_arg, json_arg, op_arg, multipart_arg,
  ReadParts, no_parts, one_part, unless_null, wait_idle, cleanup_read_part, cleanup_read_arg,
  cleanup_read_parts,
}

-- How often a part holds the block `p`. The buffers that are registered are free when the wait is over.
unfoldable mutual
  pub read_holds : ReadPart → ℕ → ℕ
  read_holds (read_part hs arg) p =
      strings_hold hs.strings p + at hs.key_value p + read_arg_holds arg p

  pub read_arg_holds : ReadArg → ℕ → ℕ
  read_arg_holds custom p = 0
  read_arg_holds null_arg p = 0
  read_arg_holds (json_arg arg buffer) p = at buffer p + at arg p
  read_arg_holds (op_arg arg s) p = in_use s p + at arg p
  read_arg_holds (multipart_arg arg m ps) p =
      reads_hold ps p
      + at m.parts p
      + (at m.boundary p + (at m.boundary_buffer p + (at m.header_buffer p + at arg p)))

  pub reads_hold : ReadParts → ℕ → ℕ
  reads_hold no_parts p = 0
  reads_hold (one_part x xs) p = read_holds x p + reads_hold xs p

-- A pointer that is null when there is nothing behind it.
abbrev pub IsNullOr : Pointer → Type 0 → Type 0
IsNullOr x Nothing = ((x ≡ null) × Nothing) ⊎ ((n : ℕ) × (x ≡ block n))

-- Nothing stands behind a null pointer, the argument of a predefined callback is there, and a GridFTP
-- operation has counted the writes that are outstanding.
unfoldable mutual
  pub ReadIsWhole : ReadPart → Type 0
  ReadIsWhole (read_part hs arg) = IsNullOr hs.key_value (hs.strings ≡ []) × ReadArgIsWhole arg

  pub ReadArgIsWhole : ReadArg → Type 0
  ReadArgIsWhole custom = Unit
  ReadArgIsWhole null_arg = ⊥
  ReadArgIsWhole (json_arg arg buffer) = IsNullOr arg (buffer ≡ null)
  ReadArgIsWhole (op_arg arg s) =
      (s.locked ≡ false) × (s.registered_buffers_count ≡ length s.registered_buffers)
  ReadArgIsWhole (multipart_arg arg m ps) = IsNullOr m.parts (ps ≡ no_parts) × ReadsAreWhole ps

  pub ReadsAreWhole : ReadParts → Type 0
  ReadsAreWhole no_parts = Unit
  ReadsAreWhole (one_part x xs) = ReadIsWhole x × ReadsAreWhole xs

unless_null_lem :
    (x : Pointer) (m : M (Unit {0})) (held : ℕ → ℕ) (h : Heap) (Nothing : Type 0)
    → IsNullOr x Nothing
    → (x ≡ null → Nothing → Accounts held h)
    → Frees held (m h)
    → Frees held (unless_null x m h)
unless_null_lem null m held h Nothing (inl q) a f = Ends-pure tt h (a refl q.1)
unless_null_lem null m held h Nothing (inr q) a f = absurd cc
unless_null_lem (block n) m held h Nothing w a f = f

-- The strings of the response headers, if there is an array.
free_headers_lem :
    (hs : ReadHeaders) (held : ℕ → ℕ) (h : Heap)
    → IsNullOr hs.key_value (hs.strings ≡ [])
    → Accounts (λ p. held p + (strings_hold hs.strings p + at hs.key_value p)) h
    → Frees held (unless_null hs.key_value (free_strings hs.strings >> free hs.key_value) h)
free_headers_lem hs held h w a =
    unless_null_lem hs.key_value (free_strings hs.strings >> free hs.key_value) held h
      (hs.strings ≡ []) w
      (λ x e p. omega (arith, a p, ap (λ t. strings_hold t p) e, ap (λ t. at t p) x))
      (then_free (free_strings hs.strings) (free hs.key_value) (λ p. held p + at hs.key_value p)
        held h
        (free_strings_lem hs.strings (λ p. held p + at hs.key_value p) h (λ p. omega (arith, a p)))
        λ h' b. free_lem hs.key_value held h' b)

mutual
  unfolding cleanup_read_part cleanup_read_arg cleanup_read_parts read_holds read_arg_holds
      reads_hold ReadIsWhole ReadArgIsWhole ReadsAreWhole

  part_lem :
      (x : ReadPart) (others : Others) (fair : IsFair others) (held : ℕ → ℕ) (h : Heap)
      → ReadIsWhole x
      → Accounts (λ p. held p + read_holds x p) h
      → Frees held (cleanup_read_part others x h)
  part_lem (read_part hs arg) others fair held h w a =
      then_free (unless_null hs.key_value (free_strings hs.strings >> free hs.key_value))
        (cleanup_read_arg others arg) (λ p. held p + read_arg_holds arg p) held h
        (free_headers_lem hs (λ p. held p + read_arg_holds arg p) h w.0 (λ p. omega (arith, a p)))
        λ h' b. arg_lem arg others fair held h' w.1 b

  arg_lem :
      (x : ReadArg) (others : Others) (fair : IsFair others) (held : ℕ → ℕ) (h : Heap)
      → ReadArgIsWhole x
      → Accounts (λ p. held p + read_arg_holds x p) h
      → Frees held (cleanup_read_arg others x h)
  arg_lem custom others fair held h w a = Ends-pure tt h λ p. omega (arith, a p)
  arg_lem null_arg others fair held h w a = absurd w
  arg_lem (json_arg arg buffer) others fair held h w a =
      unless_null_lem arg (free buffer >> free arg) held h (buffer ≡ null) w
        (λ x e p. omega (arith, a p, ap (λ t. at t p) e, ap (λ t. at t p) x))
        (free_two buffer arg held h a)
  arg_lem (op_arg arg s) others fair held h w a =
      let d = wait_idle-Drained others fair s w.0 w.1 in
      lift-bind (wait_idle others s) d.op (λ s'. free_chain s'.free_buffers >> free arg) h
        d.returned
        (then_free (free_chain d.op.free_buffers) (free arg) (λ p. held p + at arg p) held h
          (free_chain_lem d.op.free_buffers (λ p. held p + at arg p) h
            (λ p. omega (arith, a p, d.drains.holds p, ap (λ t. buffers_hold t p) d.idle)))
          λ h' b. free_lem arg held h' b)
  arg_lem (multipart_arg arg m ps) others fair held h w a =
      let rest : ℕ → ℕ = λ p.
        held p + (at m.boundary p + (at m.boundary_buffer p + (at m.header_buffer p + at arg p))) in
      then_free (unless_null m.parts (cleanup_read_parts others ps >> free m.parts))
        (free m.boundary >> (free m.boundary_buffer >> (free m.header_buffer >> free arg))) rest
        held h
        (unless_null_lem m.parts (cleanup_read_parts others ps >> free m.parts) rest h
          (ps ≡ no_parts) w.0
          (λ x e p. omega (arith, a p, ap (λ t. reads_hold t p) e, ap (λ t. at t p) x))
          (then_free (cleanup_read_parts others ps) (free m.parts) (λ p. rest p + at m.parts p) rest
            h
            (parts_lem ps others fair (λ p. rest p + at m.parts p) h w.1 (λ p. omega (arith, a p)))
            λ h' b. free_lem m.parts rest h' b))
        λ h₁ a₁.
          free-bind (λ p. held p + (at m.boundary_buffer p + (at m.header_buffer p + at arg p))) h₁
            m.boundary (λ _. free m.boundary_buffer >> (free m.header_buffer >> free arg))
            (λ p. omega (arith, a₁ p))
            λ h₂ a₂.
              free-bind (λ p. held p + (at m.header_buffer p + at arg p)) h₂ m.boundary_buffer
                (λ _. free m.header_buffer >> free arg) (λ p. omega (arith, a₂ p))
                λ h₃ a₃. free_two m.header_buffer arg held h₃ a₃

  parts_lem :
      (xs : ReadParts) (others : Others) (fair : IsFair others) (held : ℕ → ℕ) (h : Heap)
      → ReadsAreWhole xs
      → Accounts (λ p. held p + reads_hold xs p) h
      → Frees held (cleanup_read_parts others xs h)
  parts_lem no_parts others fair held h w a = Ends-pure tt h λ p. omega (arith, a p)
  parts_lem (one_part x xs) others fair held h w a =
      then_free (cleanup_read_part others x) (cleanup_read_parts others xs)
        (λ p. held p + reads_hold xs p) held h
        (part_lem x others fair (λ p. held p + reads_hold xs p) h w.0 (λ p. omega (arith, a p)))
        λ h' b. parts_lem xs others fair held h' w.1 b

-- With a fair server the clean-up of a read part frees each block that it holds, and no other.
pub cleanup_read_part-Frees :
    (x : ReadPart) (others : Others) (fair : IsFair others) (held : ℕ → ℕ) (h : Heap)
    → ReadIsWhole x
    → Accounts (λ p. held p + read_holds x p) h
    → Frees held (cleanup_read_part others x h)
cleanup_read_part-Frees x others fair held h w a = part_lem x others fair held h w a

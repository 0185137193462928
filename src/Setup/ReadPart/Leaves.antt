-- ===== src/Setup/ReadPart/Leaves.antt =====
-- What the clean-up of a read part does not free: the buffers of a GridFTP operation that are pending
-- or current.
use globus_dsi_rest.Base.{ℕ, ◌+◌, ◌≡◌, refl, ap, length, false, [], arith}
use globus_dsi_rest.Setup.Heap.{null}
use globus_dsi_rest.Setup.CleanUp.Leaves.{waiting, OpIsNew, op_leaves-none}
use globus_dsi_rest.Setup.ReadPart.{
  ReadPart, read_part, ReadArg, custom, null_arg, json_arg, op_arg, multipart_arg, ReadParts,
  no_parts, one_part,
}
use globus_dsi_rest.Setup.ReadPart.Owns.{IsNullOr, ReadIsWhole, ReadArgIsWhole, ReadsAreWhole}

unfoldable mutual
  pub read_leaves : ReadPart → ℕ → ℕ
  read_leaves (read_part hs arg) p = read_arg_leaves arg p

  pub read_arg_leaves : ReadArg → ℕ → ℕ
  read_arg_leaves custom p = 0
  read_arg_leaves null_arg p = 0
  read_arg_leaves (json_arg arg buffer) p = 0
  read_arg_leaves (op_arg arg s) p = waiting s p
  read_arg_leaves (multipart_arg arg m ps) p = reads_leave ps p

  pub reads_leave : ReadParts → ℕ → ℕ
  reads_leave no_parts p = 0
  reads_leave (one_part x xs) p = read_leaves x p + reads_leave xs p

-- A whole part before its transfer.
unfoldable mutual
  pub ReadIsNew : ReadPart → Type 0
  ReadIsNew (read_part hs arg) = IsNullOr hs.key_value (hs.strings ≡ []) × ReadArgIsNew arg

  pub ReadArgIsNew : ReadArg → Type 0
  ReadArgIsNew custom = Unit
  ReadArgIsNew null_arg = ⊥
  ReadArgIsNew (json_arg arg buffer) = IsNullOr arg (buffer ≡ null)
  ReadArgIsNew (op_arg arg s) = ((s.locked ≡ false) × (s.registered_buffers_count ≡ 0)) × OpIsNew s
  ReadArgIsNew (multipart_arg arg m ps) = IsNullOr m.parts (ps ≡ no_parts) × ReadsAreNew ps

  pub ReadsAreNew : ReadParts → Type 0
  ReadsAreNew no_parts = Unit
  ReadsAreNew (one_part x xs) = ReadIsNew x × ReadsAreNew xs

mutual
  unfolding ReadIsNew ReadArgIsNew ReadsAreNew ReadIsWhole ReadArgIsWhole ReadsAreWhole

  new_part : (x : ReadPart) → ReadIsNew x → ReadIsWhole x
  new_part (read_part hs arg) w = (w.0, new_arg arg w.1)

  new_arg : (x : ReadArg) → ReadArgIsNew x → ReadArgIsWhole x
  new_arg custom w = tt
  new_arg null_arg w = absurd w
  new_arg (json_arg arg buffer) w = w
  new_arg (op_arg arg s) w = (w.0.0, omega (arith, w.0.1, ap (λ t. length t) w.1.1))
  new_arg (multipart_arg arg m ps) w = (w.0, new_parts ps w.1)

  new_parts : (xs : ReadParts) → ReadsAreNew xs → ReadsAreWhole xs
  new_parts no_parts w = tt
  new_parts (one_part x xs) w = (new_part x w.0, new_parts xs w.1)

mutual
  unfolding ReadIsNew ReadArgIsNew ReadsAreNew read_leaves read_arg_leaves reads_leave

  part_none : (x : ReadPart) (p : ℕ) → ReadIsNew x → read_leaves x p ≡ 0
  part_none (read_part hs arg) p w = arg_none arg p w.1

  arg_none : (x : ReadArg) (p : ℕ) → ReadArgIsNew x → read_arg_leaves x p ≡ 0
  arg_none custom p w = refl
  arg_none null_arg p w = absurd w
  arg_none (json_arg arg buffer) p w = refl
  arg_none (op_arg arg s) p w = omega (arith, op_leaves-none s p w.1)
  arg_none (multipart_arg arg m ps) p w = parts_none ps p w.1

  parts_none : (xs : ReadParts) (p : ℕ) → ReadsAreNew xs → reads_leave xs p ≡ 0
  parts_none no_parts p w = refl
  parts_none (one_part x xs) p w = omega (arith, part_none x p w.0, parts_none xs p w.1)

-- A part before its transfer is whole, and nothing of it is left behind.
pub ReadIsNew-whole : (x : ReadPart) → ReadIsNew x → ReadIsWhole x
ReadIsNew-whole x w = new_part x w

pub read_leaves-none : (x : ReadPart) (p : ℕ) → ReadIsNew x → read_leaves x p ≡ 0
read_leaves-none x p w = part_none x p w

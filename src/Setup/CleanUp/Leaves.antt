-- ===== src/Setup/CleanUp/Leaves.antt =====
-- What the clean-up of a part does not free: the buffers of a GridFTP operation outside its free list.
use globus_dsi_rest.Base.{ℕ, ◌+◌, ◌≡◌, refl, ap, false, ◌&&◌, Option, none, some, [], ltb, arith}
use globus_dsi_rest.Gridftp.Op.{Buffer, OpArg}
use globus_dsi_rest.Setup.Heap.{block, is_null}
use globus_dsi_rest.Setup.Heap.Accounts.{at}
use globus_dsi_rest.Setup.WritePart.{
  WritePart, write_part, WriteArg, custom, unprepared, block_arg, blocks_arg, text_arg, op_arg,
  multipart_arg, WriteParts, no_parts, one_part,
}
use globus_dsi_rest.Setup.CleanUp.Frees.{buffers_hold, PartIsWhole, ArgIsWhole, PartsIsWhole}

abbrev pub buffer_holds : Option Buffer → ℕ → ℕ
buffer_holds none p = 0
buffer_holds (some b) p = at (block b.address) p

-- How often the block `p` is a buffer of an operation that is pending or current, and how often it is
-- one outside the free list.
abbrev pub waiting : OpArg → ℕ → ℕ
waiting s p = buffers_hold s.pending_buffers p + buffer_holds s.current_buffer p

abbrev pub op_leaves : OpArg → ℕ → ℕ
op_leaves s p = buffers_hold s.registered_buffers p + waiting s p

unfoldable mutual
  pub part_leaves : WritePart → ℕ → ℕ
  part_leaves (write_part hs arg) p = arg_leaves arg p

  pub arg_leaves : WriteArg → ℕ → ℕ
  arg_leaves custom p = 0
  arg_leaves unprepared p = 0
  arg_leaves (text_arg arg text b) p = 0
  arg_leaves (block_arg arg b) p = 0
  arg_leaves (blocks_arg arg blocks bs) p = 0
  arg_leaves (op_arg arg s) p = op_leaves s p
  arg_leaves (multipart_arg arg m ps) p = parts_leave ps p

  pub parts_leave : WriteParts → ℕ → ℕ
  parts_leave no_parts p = 0
  parts_leave (one_part x xs) p = part_leaves x p + parts_leave xs p

-- An operation that has no buffer outside its free list.
abbrev pub OpIsNew : OpArg → Type 0
OpIsNew s = (s.pending_buffers ≡ []) × (s.registered_buffers ≡ []) × (s.current_buffer ≡ none)

-- A whole part before its transfer.
unfoldable mutual
  pub PartIsNew : WritePart → Type 0
  PartIsNew (write_part hs arg) = ArgIsNew arg

  pub ArgIsNew : WriteArg → Type 0
  ArgIsNew unprepared = ⊥
  ArgIsNew custom = Unit
  ArgIsNew (text_arg arg text b) = Unit
  ArgIsNew (block_arg arg b) = Unit
  ArgIsNew (blocks_arg arg blocks bs) = Unit
  ArgIsNew (op_arg arg s) = OpIsNew s
  ArgIsNew (multipart_arg arg m ps) =
      ((is_null m.parts && ltb 0 m.num_parts) ≡ false) × PartsIsNew ps

  pub PartsIsNew : WriteParts → Type 0
  PartsIsNew no_parts = Unit
  PartsIsNew (one_part x xs) = PartIsNew x × PartsIsNew xs

mutual
  unfolding PartIsNew ArgIsNew PartsIsNew PartIsWhole ArgIsWhole PartsIsWhole

  new_part : (x : WritePart) → PartIsNew x → PartIsWhole x
  new_part (write_part hs arg) w = new_arg arg w

  new_arg : (x : WriteArg) → ArgIsNew x → ArgIsWhole x
  new_arg unprepared w = absurd w
  new_arg custom w = tt
  new_arg (text_arg arg text b) w = tt
  new_arg (block_arg arg b) w = tt
  new_arg (blocks_arg arg blocks bs) w = tt
  new_arg (op_arg arg s) w = tt
  new_arg (multipart_arg arg m ps) w = (w.0, new_parts ps w.1)

  new_parts : (xs : WriteParts) → PartsIsNew xs → PartsIsWhole xs
  new_parts no_parts w = tt
  new_parts (one_part x xs) w = (new_part x w.0, new_parts xs w.1)

pub op_leaves-none : (s : OpArg) (p : ℕ) → OpIsNew s → op_leaves s p ≡ 0
op_leaves-none s p w = omega (
  arith,
  ap (λ t. buffers_hold t p) w.0,
  ap (λ t. buffers_hold t p) w.1,
  ap (λ t. buffer_holds t p) w.2,
)

mutual
  unfolding PartIsNew ArgIsNew PartsIsNew part_leaves arg_leaves parts_leave

  part_none : (x : WritePart) (p : ℕ) → PartIsNew x → part_leaves x p ≡ 0
  part_none (write_part hs arg) p w = arg_none arg p w

  arg_none : (x : WriteArg) (p : ℕ) → ArgIsNew x → arg_leaves x p ≡ 0
  arg_none unprepared p w = absurd w
  arg_none custom p w = refl
  arg_none (text_arg arg text b) p w = refl
  arg_none (block_arg arg b) p w = refl
  arg_none (blocks_arg arg blocks bs) p w = refl
  arg_none (op_arg arg s) p w = op_leaves-none s p w
  arg_none (multipart_arg arg m ps) p w = parts_none ps p w.1

  parts_none : (xs : WriteParts) (p : ℕ) → PartsIsNew xs → parts_leave xs p ≡ 0
  parts_none no_parts p w = refl
  parts_none (one_part x xs) p w = omega (arith, part_none x p w.0, parts_none xs p w.1)

-- A part before its transfer is whole, and nothing of it is left behind.
pub PartIsNew-whole : (x : WritePart) → PartIsNew x → PartIsWhole x
PartIsNew-whole x w = new_part x w

pub part_leaves-none : (x : WritePart) (p : ℕ) → PartIsNew x → part_leaves x p ≡ 0
part_leaves-none x p w = part_none x p w

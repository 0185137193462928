-- ===== src/Write/Blocks.antt =====
-- `globus_l_dsi_rest_write_blocks` of write_blocks.c.
pub mod Room
pub mod Laws
pub mod Overrun
use globus_dsi_rest.Base.{
  ℕ, zero, suc, ◌+◌, Bool, true, false, ◌&&◌, Option, none, List, [], ◌++◌, ltb, leb, ◌==◌,
  if◌then◌else◌, Bytes, length, get_elem?, set,
}
use globus_dsi_rest.Base.Runs.{Run, done, out_of_fuel, ◌>>=◌, ◌>>◌, assert, some_of}
use globus_dsi_rest.Write.Source.{Reply, Pull}
use globus_dsi_rest.Write.Block.{Block, amount, write_block}

-- `globus_i_dsi_rest_write_blocks_arg_t`
pub record Blocks : Type 0 where
  pub block_count : ℕ
  pub current_block : ℕ
  pub blocks : List Block

-- The state when the current block has become `b`.
abbrev pub put_block : Blocks → Block → Blocks
put_block s b = record s {
  blocks = set s.blocks s.current_block b;
  current_block = if b.offset == b.block_len then s.current_block + 1 else s.current_block;
}

-- The loop with `out` written. Each round copies like `write_block`, with the limit
-- `amt > buffer_length` of the whole buffer; a copy beyond the end of the buffer has no defined
-- result.
unfoldable pub blocks_loop : ℕ → Blocks → ℕ → Bytes → Run (Reply Blocks)
unfolding write_block
blocks_loop zero s n out = out_of_fuel
blocks_loop (suc fuel) s n out = elim (ltb s.current_block s.block_count && ltb (length out) n) [
  | false ↦ done (record { result = none; copied = out; state = s })
  | true ↦ do
    b ← some_of (get_elem? s.blocks s.current_block)
    r ← write_block b n
    assert (leb (length out + length r.copied) n)
    blocks_loop fuel (put_block s r.state) n (out ++ r.copied)
]

-- Each round leaves the block behind or fills the buffer.
unfoldable pub write_blocks : Pull Blocks
unfolding blocks_loop
write_blocks s n = blocks_loop (s.block_count + 1) s n []

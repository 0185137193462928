-- ===== src/Write/Block.antt =====
-- `globus_l_dsi_rest_write_block` of write_block.c, and its uses in write_form.c and write_json.c.
pub mod Laws
use globus_dsi_rest.Base.{ℕ, Option, none, ltb, if◌then◌else◌, Bytes, add_size, sub_size}
use globus_dsi_rest.Base.Runs.{Run, done, ◌>>=◌, read_mem}
use globus_dsi_rest.Write.Source.{Reply, Pull}

-- `globus_i_dsi_rest_write_block_arg_t`; `block_data` is the memory that the pointer leads to.
pub record Block : Type 0 where
  pub block_data : Bytes
  pub block_len : ℕ
  pub offset : ℕ

-- `amt`, cut to the buffer.
abbrev pub amount : Block → ℕ → ℕ
amount b n = let amt = sub_size b.block_len b.offset in if ltb n amt then n else amt

unfoldable pub write_block : Pull Block
write_block b n = do
  bytes ← read_mem b.block_data b.offset (amount b n)
  done (record {
    result = none;
    copied = bytes;
    state = record b { offset = add_size b.offset (amount b n) };
  })

unfoldable pub write_form : Pull Block
write_form = write_block

unfoldable pub write_json : Pull Block
write_json = write_block

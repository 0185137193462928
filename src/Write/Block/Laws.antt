-- ===== src/Write/Block/Laws.antt =====
-- write_block.c meets the contract of a write callback.
use globus_dsi_rest.Base.{
  ℕ, ◌+◌, ◌-◌, ◌≤◌, ◌<◌, ◌≡◌, refl, sym, ◌∙◌, ap, ap₂, none, Bytes, length, take, drop, drop-drop,
  arith, size_mod, ◌++◌, add_size,
}
use globus_dsi_rest.Base.Runs.{done, take-split, read_mem_lem, length-read}
use globus_dsi_rest.Write.Source.{Delivers, Source}
use globus_dsi_rest.Write.Block.{Block, amount, write_block}

pub record IsBlock (b : Block) : Type 0 where
  pub in_memory : b.block_len ≤ length b.block_data
  pub word : b.block_len < size_mod
  pub within : b.offset ≤ b.block_len

-- The bytes that are not sent yet.
abbrev pub rest : Block → Bytes
rest b = take (b.block_len - b.offset) (drop b.offset b.block_data)

pub amount_lem :
    (b : Block) (n : ℕ)
    → IsBlock b
    → (amount b n ≤ n)
      × (amount b n ≤ b.block_len - b.offset)
      × (0 < n → amount b n ≡ 0 → b.block_len - b.offset ≡ 0)
amount_lem b n v = ground arith

pub length-rest : (b : Block) → IsBlock b → length (rest b) ≡ b.block_len - b.offset
length-rest b v = length-read b.block_data b.offset (b.block_len - b.offset) (omega arith)

-- `offset` after a call.
abbrev pub after : Block → ℕ → Block
after b a = record b { offset = b.offset + a }

pub after-IsBlock :
    (b : Block) (a : ℕ) → IsBlock b → a ≤ b.block_len - b.offset → IsBlock (after b a)
after-IsBlock b a v h = record { in_memory = v.in_memory; word = v.word; within = omega arith }

pub rest-after :
    (b : Block) (a : ℕ)
    → a ≤ b.block_len - b.offset
    → rest b ≡ take a (drop b.offset b.block_data) ++ rest (after b a)
rest-after b a h =
    take-split a (b.block_len - b.offset) (drop b.offset b.block_data) h
    ∙ ap₂ (λ k xs. take a (drop b.offset b.block_data) ++ take k xs)
        (let e : b.block_len - b.offset - a ≡ b.block_len - (b.offset + a) = omega arith in e)
        (drop-drop b.offset a b.block_data)

-- A call hands out the next `amount` bytes and steps over them.
pub write_block_lem :
    (b : Block) (n : ℕ)
    → IsBlock b
    → write_block b n
      ≡ done (record {
        result = none;
        copied = take (amount b n) (drop b.offset b.block_data);
        state = after b (amount b n);
      })
unfolding write_block
write_block_lem b n v =
    let a = amount b n in
    let h = amount_lem b n v in
    let e : add_size b.offset a ≡ b.offset + a = omega arith in
    rw (read_mem_lem b.block_data b.offset a (omega arith), e)

-- From a block within its memory, a call with a non-empty buffer succeeds, hands out a prefix of
-- the unsent bytes that fits the buffer, keeps the rest for the next call, and hands out nothing
-- only when nothing is left.
pub write_block-Delivers :
    (b : Block) (n : ℕ) → IsBlock b → 0 < n → Delivers rest IsBlock b n (write_block b n)
write_block-Delivers b n v pos =
    let a = amount b n in
    let h = amount_lem b n v in
    let len = length-read b.block_data b.offset a (omega arith) in
    record {
      reply = record {
        result = none;
        copied = take a (drop b.offset b.block_data);
        state = after b a;
      };
      returned = write_block_lem b n v;
      success = refl;
      good = after-IsBlock b a v h.1;
      prefix = rest-after b a h.1;
      fits = omega arith;
      progress =
          λ e. ap (λ k. take k (drop b.offset b.block_data)) (h.2 pos (sym len ∙ ap length e));
    }

abbrev pub block_source : Source write_block
block_source = record { content = rest; Good = IsBlock; delivers = write_block-Delivers }

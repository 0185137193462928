-- ===== src/Write/Blocks/Overrun.antt =====
-- Where write_blocks.c writes beyond the caller's buffer.
use globus_dsi_rest.Base.{
  ℕ, zero, suc, ◌+◌, ◌≤◌, ◌<◌, ◌≡◌, ◌∙◌, refl, List, [], ◌∷◌, ◌++◌, inl, inr, Bytes, length, drop,
  drop_all, leb, ltb, ◌&&◌, false, Bool-cases, arith,
}
use mathlib.Core.Path.{subst}
use globus_dsi_rest.Base.Runs.{stuck, elem_at, ◌>>◌}
use globus_dsi_rest.Write.Blocks.{Blocks, blocks_loop, write_blocks}
use globus_dsi_rest.Write.Block.{Block, amount}
use globus_dsi_rest.Write.Blocks.Room.{Whole, Fits, Room, Whole-none}
use globus_dsi_rest.Write.Blocks.Laws.{
  IsBlocks, Enough, next-IsBlocks, next-Enough, round_lem, round-Room, length-taken, taken, next,
}

-- A loop that has ended was within the buffer.
over-Room :
    (s : Blocks) (n : ℕ) (out : Bytes)
    → IsBlocks s
    → (ltb s.current_block s.block_count && ltb (length out) n) ≡ false
    → Room n (drop s.current_block s.blocks) (length out)
unfolding Whole
over-Room s n out v over = elim (Bool-cases (ltb s.current_block s.block_count)) [
  | inl more ↦ inl (Whole-none (drop s.current_block s.blocks) _ (ground arith))
  | inr last ↦
      let e = drop_all s.current_block s.blocks (ground (arith, v.counted)) in inl (rw e tt)
]

blocks_loop_stuck :
    (fuel : ℕ) (s : Blocks) (n : ℕ) (out : Bytes)
    → IsBlocks s
    → Enough fuel s n out
    → ¬ Room n (drop s.current_block s.blocks) (length out)
    → blocks_loop fuel s n out ≡ stuck
blocks_loop_stuck zero s n out v (inl h) over = absurd (omega arith)
blocks_loop_stuck zero s n out v (inr h) over = absurd (omega arith)
blocks_loop_stuck (suc fuel) s n out v h over =
    elim (Bool-cases (ltb s.current_block s.block_count && ltb (length out) n)) [
      | inr ended ↦ absurd (over (over-Room s n out v ended))
      | inl more ↦
          let lt : s.current_block < s.block_count = ground arith in
          let room : length out < n = ground arith in
          let (c, e) = elem_at s.current_block s.blocks (omega (arith, v.counted)) in
          let out' = out ++ taken s n out v c e lt room in
          let rest = blocks_loop fuel (next s n out v c e lt room) n out' in
          let start = round_lem s n out v c e lt room fuel in
          let len = length-taken s n out v c e lt room in
          elim (Bool-cases (leb (length out + length (taken s n out v c e lt room)) n)) [
            | inr cut ↦ start ∙ rw cut refl
            | inl fits ↦
                let small : length out + amount c n ≤ n = ground arith in
                start
                ∙ rw (fits, ◌>>◌)
                    (blocks_loop_stuck fuel (next s n out v c e lt room) n out'
                      (next-IsBlocks s n out v c e lt room)
                      (next-Enough s n out v c e lt room fuel h)
                      (λ r. over ((round-Room s n out v c e lt room).1 (small, r))))
          ]
    ]

-- When a buffer that is not empty ends within a block that is left, and that is not the first one with
-- any bytes, a call on blocks within their memory writes beyond the end of the buffer, whichever block
-- is the current one: each block is cut to the size of the whole buffer.
pub write_blocks_overrun :
    (s : Blocks) (n : ℕ)
    → IsBlocks s
    → 0 < n
    → ¬ Fits (drop s.current_block s.blocks) n
    → write_blocks s n ≡ stuck
unfolding write_blocks Fits
write_blocks_overrun s n v pos over =
    blocks_loop_stuck (s.block_count + 1) s n [] v (inl (omega arith))
      (λ r. over (whole (drop s.current_block s.blocks) r))
  where
    whole : (bs : List Block) → Room n bs 0 → Fits bs n
    whole [] r = tt
    whole (b ∷ bs) (inl w) = inl (subst (Whole (b ∷ bs)) (omega arith) w)
    whole (b ∷ bs) (inr (z, f)) = f

-- ===== src/Write/Blocks/Laws.antt =====
-- write_blocks.c sends the blocks in order.
use globus_dsi_rest.Base.{
  ℕ, zero, suc, ◌+◌, ◌-◌, ◌≤◌, ◌<◌, ◌≡◌, ◌⊎◌, ◌↔◌, refl, sym, ◌∙◌, ap, none, some, [], ◌∷◌, List,
  Bytes, length, take, drop, drop_all, length-append, arith, ltb, leb, true, Bool-cases, inl, inr,
  lt→ltb, ◌++◌, append_assoc, get_elem?, set, All, ◌==◌, false, ◌&&◌, eq→==, ==→eq,
}
use mathlib.Core.Path.{subst}
use mathlib.Core.Option.{some-injective}
use native.Mathlib.Numerals.{add-one}
use globus_dsi_rest.Base.Runs.{
  Run, done, ◌>>◌, assert, length-read, drop_elem, elem_at, drop-set, drop-suc-set, length-set,
}
use globus_dsi_rest.Write.Source.{Reply}
use globus_dsi_rest.Write.Block.{Block, amount}
use globus_dsi_rest.Write.Block.Laws.{
  IsBlock, rest, length-rest, after, amount_lem, after-IsBlock, rest-after, write_block_lem,
}
use globus_dsi_rest.Write.Blocks.Room.{Fits, Room, Room-next}
use globus_dsi_rest.Write.Blocks.{Blocks, put_block, blocks_loop, write_blocks}

-- What a list of blocks still holds.
abbrev pub unsent : List Block → Bytes
unsent [] = []
unsent (b ∷ bs) = rest b ++ unsent bs

pub record IsBlocks (s : Blocks) : Type 0 where
  pub counted : s.block_count ≡ length s.blocks
  pub within : s.current_block ≤ s.block_count
  pub each : All IsBlock s.blocks

abbrev pub remaining : Blocks → Bytes
remaining s = unsent (drop s.current_block s.blocks)

module _ (P : Block → Type 0) where
  All-elem : (i : ℕ) (bs : List Block) {b : Block} → All P bs → get_elem? bs i ≡ some b → P b
  All-elem i [] h e = cc
  All-elem zero (b ∷ bs) h e = subst P (some-injective b _ e) h.0
  All-elem (suc i) (b ∷ bs) h e = All-elem i bs h.1 e

  All-set : (i : ℕ) (bs : List Block) (b : Block) → All P bs → P b → All P (set bs i b)
  All-set i [] b h p = tt
  All-set zero (x ∷ bs) b h p = (p, h.1)
  All-set (suc i) (x ∷ bs) b h p = (h.0, All-set i bs b h.1 p)

module _ (s : Blocks) (b : Block) (a : ℕ) (v : IsBlocks s) (lt : s.current_block < s.block_count)
    (e : get_elem? s.blocks s.current_block ≡ some b) (small : a ≤ b.block_len - b.offset) where
  at_current : IsBlock b
  at_current = All-elem IsBlock s.current_block s.blocks v.each e

  -- One round that copies `a` bytes of the current block `b`.
  step-IsBlocks : IsBlocks (put_block s (after b a))
  step-IsBlocks = record {
    counted = v.counted ∙ sym (length-set s.blocks s.current_block (after b a));
    within = ground arith;
    each =
        All-set IsBlock s.current_block s.blocks (after b a) v.each
          (after-IsBlock b a at_current small);
  }

  -- A block that is sent to its end is left behind.
  step-tail :
      b.offset + a ≡ b.block_len
      → drop (put_block s (after b a)).current_block (put_block s (after b a)).blocks
        ≡ drop (suc s.current_block) s.blocks
  step-tail ends =
      let full : (b.offset + a == b.block_len) ≡ true = eq→== (b.offset + a) b.block_len ends in
      rw (full, add-one) (drop-suc-set s.current_block s.blocks (after b a))

  step-rest :
      remaining (put_block s (after b a))
      ≡ rest (after b a) ++ unsent (drop (suc s.current_block) s.blocks)
  step-rest = elim (Bool-cases (b.offset + a == b.block_len)) [
    | inl full ↦
        let f = ==→eq (b.offset + a) b.block_len full in
        let z : b.block_len - (b.offset + a) ≡ 0 = omega arith in
        rw (full, z, add-one) (ap unsent (drop-suc-set s.current_block s.blocks (after b a)))
    | inr more ↦
        rw more
          (ap unsent (drop-set s.current_block s.blocks (after b a) (omega (arith, v.counted))))
  ]

  -- It takes the first bytes of what remains.
  step-remaining :
      remaining s ≡ take a (drop b.offset b.block_data) ++ remaining (put_block s (after b a))
  step-remaining =
      let taken = take a (drop b.offset b.block_data) in
      ap unsent (drop_elem s.current_block s.blocks e)
      ∙ ap (λ t. t ++ unsent (drop (suc s.current_block) s.blocks)) (rest-after b a small)
      ∙ append_assoc taken (rest (after b a)) (unsent (drop (suc s.current_block) s.blocks))
      ∙ ap (λ t. taken ++ t) (sym step-rest)

-- How the loop ends from `s` with `out` written.
pub record Sends (s : Blocks) (n : ℕ) (out : Bytes) (r : Run (Reply Blocks)) : Type 0 where
  pub reply : Reply Blocks
  pub returned : r ≡ done reply
  pub success : reply.result ≡ none
  pub good : IsBlocks reply.state
  pub prefix : out ++ remaining s ≡ reply.copied ++ remaining reply.state
  pub grows : length out ≤ length reply.copied
  pub bound : length reply.copied ≤ n
  pub short : length reply.copied < n → remaining reply.state ≡ []

-- Fuel for every block that is left, or for leaving a loop whose buffer is full.
abbrev pub Enough : ℕ → Blocks → ℕ → Bytes → Type 0
Enough fuel s n out = (s.block_count - s.current_block < fuel) ⊎ ((n ≤ length out) × (0 < fuel))

pub amount_cases :
    (b : Block) (n : ℕ) → IsBlock b → (amount b n ≡ n) ⊎ (amount b n ≡ b.block_len - b.offset)
amount_cases b n v = ground arith

module _ (s : Blocks) (n : ℕ) (out : Bytes) (v : IsBlocks s) (b : Block)
    (e : get_elem? s.blocks s.current_block ≡ some b) (lt : s.current_block < s.block_count)
    (room : length out < n) where
  pub taken : Bytes
  taken = take (amount b n) (drop b.offset b.block_data)

  pub next : Blocks
  next = put_block s (after b (amount b n))

  current : IsBlock b
  current = All-elem IsBlock s.current_block s.blocks v.each e

  pub length-taken : length taken ≡ amount b n
  unfolding taken
  length-taken =
      length-read b.block_data b.offset (amount b n)
        (omega (arith, current, amount_lem b n current))

  pub next-Enough : (fuel : ℕ) → Enough (suc fuel) s n out → Enough fuel next n (out ++ taken)
  unfolding next
  next-Enough fuel h = elim (amount_cases b n current) [
    | inl full ↦ inr (omega (arith, length-append out taken, length-taken), omega (arith, h))
    | inr rest ↦
        let e : b.offset + amount b n ≡ b.block_len = omega (arith, current) in
        inl (rw (eq→== (b.offset + amount b n) b.block_len e) (omega (arith, h)))
  ]

  pub next-IsBlocks : IsBlocks next
  unfolding next
  next-IsBlocks = step-IsBlocks s b (amount b n) v lt e (amount_lem b n current).1

  -- A round with its test of the buffer's end.
  pub round_lem :
      (fuel : ℕ)
      → blocks_loop (suc fuel) s n out
        ≡ (assert (leb (length out + length taken) n) >> blocks_loop fuel next n (out ++ taken))
  unfolding blocks_loop taken next
  round_lem fuel =
      rw
        (
          blocks_loop,
          lt→ltb s.current_block s.block_count lt,
          lt→ltb (length out) n room,
          e,
          write_block_lem b n current,
        )
        refl

  pub in_bounds : length out + amount b n ≤ n → leb (length out + length taken) n ≡ true
  in_bounds h = let l = length-taken in ground arith

  pub length-out : length (out ++ taken) ≡ length out + amount b n
  length-out = omega (arith, length-append out taken, length-taken)

  -- Whether the blocks fit the rest of the buffer, before a round and behind it.
  pub round-Room :
      Room n (drop s.current_block s.blocks) (length out)
      ↔ (length out + amount b n ≤ n)
        × Room n (drop next.current_block next.blocks) (length (out ++ taken))
  unfolding next
  round-Room =
      let tail = drop next.current_block next.blocks in
      let whole : drop s.current_block s.blocks ≡ b ∷ drop (suc s.current_block) s.blocks =
        drop_elem s.current_block s.blocks e in
      let r =
        Room-next n b (drop (suc s.current_block) s.blocks) tail (length out) current room (λ full.
          step-tail s b (amount b n) v lt e (amount_lem b n current).1 (
            omega (
              arith,
              full,
              length-rest b current,
              amount_cases b n current,
              amount_lem b n current,
              current,
            ))) in
      rw (whole, length-out) r

  round-Sends :
      (fuel : ℕ)
      → length out + amount b n ≤ n
      → Sends next n (out ++ taken) (blocks_loop fuel next n (out ++ taken))
      → Sends s n out (blocks_loop (suc fuel) s n out)
  unfolding taken next
  round-Sends fuel fits rec = record {
    reply = rec.reply;
    returned = round_lem fuel ∙ rw (in_bounds fits, ◌>>◌) rec.returned;
    success = rec.success;
    good = rec.good;
    prefix =
        ap (λ t. out ++ t) (step-remaining s b (amount b n) v lt e (amount_lem b n current).1)
        ∙ sym (append_assoc out taken (remaining next))
        ∙ rec.prefix;
    grows = omega (arith, rec.grows, length-append out taken);
    bound = rec.bound;
    short = rec.short;
  }

over-Sends :
    (s : Blocks) (n : ℕ) (out : Bytes)
    → IsBlocks s
    → (ltb s.current_block s.block_count && ltb (length out) n) ≡ false
    → length out ≤ n
    → Sends s n out (done (record { result = none; copied = out; state = s }))
over-Sends s n out v over b = record {
  reply = record { result = none; copied = out; state = s };
  returned = refl;
  success = refl;
  good = v;
  prefix = refl;
  grows = omega arith;
  bound = b;
  short = λ lt. ap unsent (drop_all s.current_block s.blocks (ground arith));
}

loop_ends :
    (fuel : ℕ) (s : Blocks) (n : ℕ) (out : Bytes)
    → (ltb s.current_block s.block_count && ltb (length out) n) ≡ false
    → Sends s n out (done (record { result = none; copied = out; state = s }))
    → Sends s n out (blocks_loop (suc fuel) s n out)
unfolding blocks_loop
loop_ends fuel s n out over h = rw (over, blocks_loop) h

blocks_loop-Sends :
    (fuel : ℕ) (s : Blocks) (n : ℕ) (out : Bytes)
    → IsBlocks s
    → Enough fuel s n out
    → length out ≤ n
    → Room n (drop s.current_block s.blocks) (length out)
    → Sends s n out (blocks_loop fuel s n out)
blocks_loop-Sends zero s n out v (inl h) b r = absurd (omega arith)
blocks_loop-Sends zero s n out v (inr h) b r = absurd (omega arith)
blocks_loop-Sends (suc fuel) s n out v h b r =
    elim (Bool-cases (ltb s.current_block s.block_count && ltb (length out) n)) [
      | inr over ↦ loop_ends fuel s n out over (over-Sends s n out v over b)
      | inl more ↦
          let lt : s.current_block < s.block_count = ground arith in
          let room : length out < n = ground arith in
          let (c, e) = elem_at s.current_block s.blocks (omega (arith, v.counted)) in
          let (fits, r') = (round-Room s n out v c e lt room).0 r in
          round-Sends s n out v c e lt room fuel fits (
            blocks_loop-Sends fuel (next s n out v c e lt room) n
              (out ++ taken s n out v c e lt room) (next-IsBlocks s n out v c e lt room)
              (next-Enough s n out v c e lt room fuel h)
              (omega (arith, fits, length-out s n out v c e lt room)) r')
    ]

-- From blocks within their memory, unless the buffer ends within a block other than the first one with
-- any bytes, a call with a non-empty buffer ends and succeeds. It hands out a prefix of the
-- concatenation of what is left of the blocks, no more than the buffer takes, and keeps the rest for
-- the next call; it hands out fewer bytes than the buffer takes only when nothing is left.
pub write_blocks-Sends :
    (s : Blocks) (n : ℕ)
    → IsBlocks s
    → 0 < n
    → Fits (drop s.current_block s.blocks) n
    → Sends s n [] (write_blocks s n)
unfolding write_blocks
write_blocks-Sends s n v pos fits =
    blocks_loop-Sends (s.block_count + 1) s n [] v (inl (omega arith)) (omega arith)
      (inr (refl, fits))

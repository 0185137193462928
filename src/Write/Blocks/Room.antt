-- ===== src/Write/Blocks/Room.antt =====
-- Which blocks write_blocks.c copies within the caller's buffer.
use globus_dsi_rest.Base.{
  ℕ, ◌+◌, ◌-◌, ◌≤◌, ◌<◌, ◌≡◌, ◌⊎◌, ◌↔◌, sym, [], ◌∷◌, List, length, arith, inl, inr, Bool-cases,
  leb,
}
use mathlib.Core.Path.{subst}
use globus_dsi_rest.Write.Block.{Block, amount}
use globus_dsi_rest.Write.Block.Laws.{IsBlock, rest, length-rest}

-- Blocks that come one after the other up to the end of so much room, or to their own end, without
-- one that is cut.
unfoldable pub Whole : List Block → ℕ → Type 0
Whole [] room = Unit
Whole (b ∷ bs) room = (room ≡ 0) ⊎ ((length (rest b) ≤ room) × Whole bs (room - length (rest b)))

-- No block is cut where the room ends, or the first one with any bytes fills it.
unfoldable pub Fits : List Block → ℕ → Type 0
unfolding Whole
Fits [] room = Unit
Fits (b ∷ bs) room =
    Whole (b ∷ bs) room ⊎ (room ≤ length (rest b)) ⊎ ((length (rest b) ≡ 0) × Fits bs room)

-- The same when some bytes of the buffer are used.
abbrev pub Room : ℕ → List Block → ℕ → Type 0
Room n bs used = Whole bs (n - used) ⊎ ((used ≡ 0) × Fits bs n)

pub Whole-none : (bs : List Block) (room : ℕ) → room ≡ 0 → Whole bs room
unfolding Whole
Whole-none [] room e = tt
Whole-none (b ∷ bs) room e = inl e

module _ (n : ℕ) (b : Block) (bs tail : List Block) (used : ℕ) (v : IsBlock b) (left : used < n)
    (sent : length (rest b) ≤ n → tail ≡ bs) where
  into_tail :
      (r : ℕ)
      → length (rest b) ≤ n
      → r ≡ n - (used + amount b n)
      → Whole bs r
      → Whole tail (n - (used + amount b n))
  into_tail r full e w =
      subst (λ t. Whole t (n - (used + amount b n))) (sym (sent full)) (subst (Whole bs) e w)

  -- A round takes the whole block, or fills an empty buffer.
  forth : Room n (b ∷ bs) used → (used + amount b n ≤ n) × Room n tail (used + amount b n)
  unfolding Whole Fits
  forth (inl (inl z)) = absurd (omega arith)
  forth (inl (inr (le, w))) =
      let l = length-rest b v in
      (ground arith, inl (into_tail (n - used - length (rest b)) (omega arith) (ground arith) w))
  forth (inr (z, inl (inl e))) = absurd (omega arith)
  forth (inr (z, inl (inr (le, w)))) =
      let l = length-rest b v in
      (ground arith, inl (into_tail (n - length (rest b)) (omega arith) (ground arith) w))
  forth (inr (z, inr (inl ge))) =
      let l = length-rest b v in
      (ground arith, inl (Whole-none tail (n - (used + amount b n)) (ground arith)))
  forth (inr (z, inr (inr (none, f)))) =
      let l = length-rest b v in
      (ground arith, inr (ground arith, subst (λ t. Fits t n) (sym (sent (omega arith))) f))

  back : (used + amount b n ≤ n) × Room n tail (used + amount b n) → Room n (b ∷ bs) used
  unfolding Whole Fits
  back (le, r) =
      let l = length-rest b v in
      elim (Bool-cases (leb (length (rest b)) n)) [
        | inr over ↦
            let cut : n < length (rest b) = ground arith in
            inr (ground arith, inr (inl (omega arith)))
        | inl fits ↦
            let full : length (rest b) ≤ n = ground arith in
            elim r [
              | inl w ↦
                  let w' : Whole bs (n - (used + amount b n)) =
                    subst (λ t. Whole t (n - (used + amount b n))) (sent full) w in
                  inl (inr (ground arith, subst (Whole bs) (ground arith) w'))
              | inr (z, f) ↦
                  inr (ground arith, inr (inr (ground arith, subst (λ t. Fits t n) (sent full) f)))
            ]
      ]

  pub Room-next : Room n (b ∷ bs) used ↔ (used + amount b n ≤ n) × Room n tail (used + amount b n)
  Room-next = (forth, back)

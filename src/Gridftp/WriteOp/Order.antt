-- ===== src/Gridftp/WriteOp/Order.antt =====
-- The order of the pending buffers of a write operation, which is why it is enough to look at the
-- first one for the next bytes.
use mathlib.Core.Path.{subst}
use globus_dsi_rest.Base.{
  ℕ, ◌+◌, ◌≤◌, ◌<◌, ◌≡◌, ◌⊎◌, true, false, List, [], ◌∷◌, inl, inr, leb, All, add_size, size_mod,
  arith, Bool-cases, ◌==◌, eq→==,
}
use globus_dsi_rest.Gridftp.WriteOp.Register.{list_cases}
use globus_dsi_rest.Gridftp.Op.{Buffer, OpArg}
use globus_dsi_rest.Gridftp.WriteOp.Inv.{insert_pending-All}
use globus_dsi_rest.Gridftp.WriteOp.{insert_pending, is_transfer_offset_ready}

abbrev pub end_of : Buffer → ℕ
end_of b = b.transfer_offset + b.buffer_used

-- Each buffer ends where the later ones start, or before.
abbrev pub IsOrdered : List Buffer → Type 0
IsOrdered [] = Unit
IsOrdered (b ∷ bs) = All (λ c. end_of b ≤ c.transfer_offset) bs × IsOrdered bs

-- Buffers that share no byte of the file.
abbrev pub IsApart : Buffer → Buffer → Type 0
IsApart b p = (end_of p ≤ b.transfer_offset) ⊎ (end_of b ≤ p.transfer_offset)

abbrev pub EndsInRange : Buffer → Type 0
EndsInRange b = end_of b < size_mod

-- What ends before the first buffer of an ordered list ends before all of it.
before_all :
    (b p : Buffer) (ps : List Buffer)
    → end_of b ≤ p.transfer_offset
    → All (λ c. end_of p ≤ c.transfer_offset) ps
    → All (λ c. end_of b ≤ c.transfer_offset) ps
before_all b p [] h hs = tt
before_all b p (c ∷ cs) h hs = (omega (arith, hs.0), before_all b p cs h hs.1)

-- When a buffer with some bytes shares none with the pending ones, which are in order and end in
-- range, the pending buffers are in order with it.
pub insert_pending-IsOrdered :
    (b : Buffer) (ps : List Buffer)
    → IsOrdered ps
    → All (IsApart b) ps
    → All EndsInRange ps
    → 0 < b.buffer_used
    → IsOrdered (insert_pending b ps)
unfolding insert_pending
insert_pending-IsOrdered b [] o apart range pos = (tt, tt)
insert_pending-IsOrdered b (p ∷ ps) o apart range pos =
    let t = leb (add_size p.transfer_offset p.buffer_used) b.transfer_offset in
    elim (Bool-cases t) [
      | inl e ↦ rw e (
        insert_pending-All (λ c. end_of p ≤ c.transfer_offset) b ps (ground arith) o.0,
        insert_pending-IsOrdered b ps o.1 apart.1 range.1 pos,
      )
      | inr e ↦
          let h : end_of b ≤ p.transfer_offset = elim apart.0 [
            | inl x ↦ absurd (ground arith)
            | inr x ↦ x
          ] in
          rw e ((h, before_all b p ps h o.0), o)
    ]

-- When the pending buffers have some bytes, start at the operation's offset or behind it, and end
-- in range, the arrival of a buffer that starts at the offset makes the operation ready.
pub insert_pending_ready :
    (b : Buffer) (s : OpArg)
    → b.transfer_offset ≡ s.offset
    → All (λ p. s.offset ≤ p.transfer_offset) s.pending_buffers
    → All (λ p. 0 < p.buffer_used) s.pending_buffers
    → All EndsInRange s.pending_buffers
    → is_transfer_offset_ready (record s { pending_buffers = insert_pending b s.pending_buffers })
      ≡ true
unfolding insert_pending is_transfer_offset_ready
insert_pending_ready b s e starts some_used range =
    let t : (b.transfer_offset == s.offset) ≡ true = eq→== b.transfer_offset s.offset e in
    elim (list_cases s.pending_buffers) [
      | inl q ↦ simp (q, t, insert_pending, is_transfer_offset_ready)
      | inr (p, ps, q) ↦
          let h = (subst (All (λ p. s.offset ≤ p.transfer_offset)) q starts).0 in
          let u = (subst (All (λ p. 0 < p.buffer_used)) q some_used).0 in
          let r = (subst (All EndsInRange) q range).0 in
          let f : leb (add_size p.transfer_offset p.buffer_used) b.transfer_offset ≡ false =
            ground arith in
          simp (q, f, t, insert_pending, is_transfer_offset_ready)
    ]

-- ===== src/Gridftp/ReadOp/Flush.antt =====
-- The registration of a buffer in read_gridftp_op.c.
use mathlib.Core.Path.{subst}
use globus_dsi_rest.Base.{
  ℕ, ◌<◌, ◌≡◌, ◌⊎◌, refl, ◌∙◌, ap, Bool, true, false, none, some, [], ◌∷◌, ◌++◌, append-nil, inl,
  inr, take, add_size, arith, Bool-cases,
}
use globus_dsi_rest.Gridftp.Op.{Buffer, used_bytes, OpArg, Server}
use globus_dsi_rest.Gridftp.ReadOp.{
  is_complete, enqueue, Ended, registered, write_of, send_all, send_pending, flush,
}
use globus_dsi_rest.Gridftp.ReadOp.Inv.{sent, Contiguous, IsBuffer, IsSound}
use globus_dsi_rest.Gridftp.ReadOp.Rounds.{
  current_bytes, taken, Grants, sent-append, Contiguous-append, length-used,
}

leftover :
    (eof : Bool) (b : Buffer) → is_complete eof b ≡ false → (eof ≡ false) ⊎ (used_bytes b ≡ [])
unfolding is_complete
leftover false b c = inl refl
leftover true b c = let z : b.buffer_used ≡ 0 = ground arith in inr (ap (λ n. take n b.memory) z)

-- A buffer that is complete is on the data channel; another one stays the current buffer.
pub record Flushes (start : ℕ) (b : Buffer) (s : OpArg) (f : Ended) : Type 0 where
  pub op : OpArg
  pub returned : f ≡ record { result = none; op = op }
  pub sound : IsSound start op
  pub locked : op.locked ≡ s.locked
  pub received : taken op ≡ sent s.writes ++ used_bytes b

module _ (srv : Server) (ok : Grants srv) (start : ℕ) (eof : Bool) (b : Buffer) (s : OpArg)
    (v : IsSound start s) (good : IsBuffer b) where
  -- The state with the buffer.
  abbrev holding : OpArg
  holding = record s { current_buffer = some b }

  abbrev after : OpArg
  after =
      registered b [] (write_of b s) (record s { current_buffer = none; pending_buffers = b ∷ [] })

  flush_complete :
      is_complete eof b ≡ true → flush srv eof holding ≡ record { result = none; op = after }
  unfolding flush enqueue send_pending send_all
  flush_complete c =
      let e : enqueue eof holding ≡ record s { current_buffer = none; pending_buffers = b ∷ [] } =
        simp (c, enqueue, v.flushed) in
      ap (send_pending srv) e ∙ rw (ok.accepts (write_of b s), send_all) refl

  flush_open :
      is_complete eof b ≡ false → flush srv eof holding ≡ record { result = none; op = holding }
  unfolding flush enqueue send_pending send_all
  flush_open c =
      let e : enqueue eof holding ≡ holding = simp (c, enqueue) in
      ap (send_pending srv) e ∙ ap (λ p. send_all srv p holding) v.flushed

  after-IsSound : IsSound start after
  after-IsSound = record {
    contiguous =
        subst (λ n. Contiguous start (s.writes ++ (write_of b s ∷ [])) (add_size s.offset n))
          (length-used b good)
          (Contiguous-append start s.offset s.writes (write_of b s) v.contiguous refl);
    counted = omega (arith, v.counted);
    registered = (good, v.registered);
    free = v.free;
    current = tt;
    flushed = refl;
  }

  holding-IsSound : b.buffer_used < b.buffer_len → IsSound start holding
  holding-IsSound lt = record {
    contiguous = v.contiguous;
    counted = v.counted;
    registered = v.registered;
    free = v.free;
    current = (good, lt);
    flushed = v.flushed;
  }

  open_room : is_complete eof b ≡ false → b.buffer_used < b.buffer_len
  unfolding is_complete
  open_room c = ground (arith, good.within)

  -- Of the last bytes nothing stays in the current buffer.
  pub flush-Flushes :
      (f : Flushes start b s (flush srv eof holding)) × ((eof ≡ false)
        ⊎ (current_bytes f.op.current_buffer ≡ []))
  flush-Flushes = elim (Bool-cases (is_complete eof b)) [
    | inl c ↦ (
      record {
        op = after;
        returned = flush_complete c;
        sound = after-IsSound;
        locked = refl;
        received =
            append-nil (sent (s.writes ++ (write_of b s ∷ [])))
            ∙ sent-append s.writes (write_of b s);
      },
      inr refl,
    )
    | inr c ↦ (
      record {
        op = holding;
        returned = flush_open c;
        sound = holding-IsSound (open_room c);
        locked = refl;
        received = refl;
      },
      leftover eof b c,
    )
  ]

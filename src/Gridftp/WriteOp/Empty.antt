-- ===== src/Gridftp/WriteOp/Empty.antt =====
-- An empty read that is not the end of the data.
use globus_dsi_rest.Base.{
  ℕ, suc, ◌-◌, ◌<◌, ◌≡◌, ◌≢◌, refl, ◌∙◌, ap, Bool, true, false, not, ◌&&◌, none, some, List, [],
  ◌∷◌, ◌==◌, length, size_mod, arith, eq→==, ne→==, add_size, ap₂, ◌||◌,
}
use globus_dsi_rest.Base.Runs.{done, stuck, ◌>>=◌, ◌>>◌, assert}
use globus_dsi_rest.Gridftp.Op.{Buffer, OpArg, Server, buffer_get, no_offset, unlock, remove}
use globus_dsi_rest.Gridftp.ReadOp.Inv.{lock_lem}
use globus_dsi_rest.Transfer.Request.{first_error}
use globus_dsi_rest.Gridftp.WriteOp.{
  Arrival, ends_section, note_arrival, place, arrive, read_callback, register_one, register_loop,
  register_reads, bytes_available, remaining, free_buffer,
}

module _ (srv : Server) where
  -- A free buffer that is marked as used cannot be registered.
  register_one_stuck :
      (left : ℕ) (b : Buffer) (s : OpArg)
      → b.buffer_used ≢ 0
      → register_one srv left (record { buffer = some b; op = s }) ≡ stuck
  unfolding register_one
  register_one_stuck left b s used =
      rw (ne→== b.buffer_used 0 used, register_one, assert, ◌>>=◌, ◌>>◌) refl

  register_loop_stuck :
      (rounds bytes : ℕ) (b : Buffer) (bs : List Buffer) (s : OpArg)
      → s.free_buffers ≡ b ∷ bs
      → b.buffer_used ≢ 0
      → s.current_buffer ≡ none
      → s.end_offset ≡ no_offset
      → register_loop srv (suc rounds) bytes s ≡ stuck
  unfolding register_loop buffer_get
  register_loop_stuck rounds bytes b bs s free used c whole =
      let s' : OpArg = record s { current_buffer = some b; free_buffers = bs } in
      let g : buffer_get srv srv.block_size s ≡ record { buffer = some b; op = s' } =
        simp (c, free, buffer_get) in
      let left = remaining srv s bytes in
      let t : (not (s.end_offset == no_offset) && left == 0) ≡ false =
        ap (λ x. not x && left == 0) (eq→== s.end_offset no_offset whole) in
      let q = ap (register_one srv left) g ∙ register_one_stuck left b s' used in
      rw (t, register_loop) (rw (q, ◌>>=◌) refl)

  register_reads_stuck :
      (b : Buffer) (bs : List Buffer) (s : OpArg)
      → s.free_buffers ≡ b ∷ bs
      → b.buffer_used ≢ 0
      → s.current_buffer ≡ none
      → s.result ≡ none
      → s.eof ≡ false
      → s.end_offset ≡ no_offset
      → length s.registered_buffers < srv.optimal_concurrency
      → register_reads srv s ≡ stuck
  unfolding register_reads
  register_reads_stuck b bs s free used c r eof whole more =
      let rounds = srv.optimal_concurrency - length s.registered_buffers in
      let bytes = bytes_available s.registered_buffers in
      let go : register_reads srv s ≡ register_loop srv rounds bytes s =
        simp (r, eof, register_reads) in
      let n : rounds ≡ suc (rounds - 1) = omega arith in
      go
      ∙ ap (λ k. register_loop srv k bytes s) n
      ∙ register_loop_stuck (rounds - 1) bytes b bs s free used c whole

-- The arrival of no bytes, from which nobody can tell that the data ends.
abbrev pub empty_read : ℕ → ℕ → Arrival
empty_read address offset = record {
  result = none;
  address = address;
  bytes = [];
  offset = offset;
  eof = false;
}

-- The state when such an arrival is noted, and behind it: the buffer is free, with the largest size
-- as its used one.
abbrev noted_empty : ℕ → ℕ → List Buffer → OpArg → OpArg
noted_empty address offset rest s =
    record (note_arrival (empty_read address offset) (record s { locked = true })) {
      registered_buffers = rest;
    }

abbrev emptied : Buffer → OpArg → OpArg
emptied b s =
    free_buffer (record b { buffer_used = size_mod - 1; transfer_offset = no_offset; memory = [] })
      s

and_false : (x : Bool) → (x && false) ≡ false
and_false true = refl
and_false false = refl

place-empty_read :
    (address offset : ℕ) (b : Buffer) (s : OpArg)
    → s.result ≡ none
    → place (empty_read address offset) b s ≡ emptied b s
unfolding place
place-empty_read address offset b s r = simp (r, place)

module _ (s : OpArg) (address offset : ℕ) (b : Buffer) (u : s.locked ≡ false) (r : s.result ≡ none)
    (e : (remove address s.registered_buffers).buffer ≡ some b) where
  abbrev pub left_registered : List Buffer
  left_registered = (remove address s.registered_buffers).rest

  read_callback_empty :
      read_callback (empty_read address offset) s
      ≡ done (unlock (emptied b (noted_empty address offset left_registered s)))
  unfolding read_callback arrive note_arrival
  read_callback_empty =
      rw (lock_lem s u, read_callback)
        (rw (e, ◌>>=◌)
          (ap (λ x. done (unlock x))
            (place-empty_read address offset b (noted_empty address offset left_registered s)
              (ap (λ x. first_error x none) r))))

  -- When a registered read of an operation without an end and without an error arrives without a
  -- byte, with the mutex free, and it is not the end of the data, an assertion fails the next
  -- time that reads are registered, if the server's concurrency leaves room for one and no buffer
  -- is current.
  pub empty_read_stuck :
      (srv : Server)
      → s.eof ≡ false
      → s.current_buffer ≡ none
      → offset < no_offset
      → s.end_offset ≡ no_offset
      → length left_registered < srv.optimal_concurrency
      → (read_callback (empty_read address offset) s >>= register_reads srv) ≡ stuck
  unfolding note_arrival ends_section
  empty_read_stuck srv eof c lt whole more =
      let ne : (add_size offset 0 == s.end_offset) ≡ false =
        ne→== (add_size offset 0) s.end_offset (λ q. omega (arith, whole)) in
      let end : ends_section (record s { locked = true }) (empty_read address offset) ≡ false =
        ap (λ x. not (s.end_offset == 0) && x) ne ∙ and_false (not (s.end_offset == 0)) in
      ap (λ x. x >>= register_reads srv) read_callback_empty
      ∙ register_reads_stuck srv
          (record b { buffer_used = size_mod - 1; transfer_offset = no_offset; memory = [] })
          s.free_buffers (unlock (emptied b (noted_empty address offset left_registered s))) refl
          (λ q. absurd (omega arith)) c (ap (λ x. first_error x none) r)
          (ap₂ (λ x y. x || y) eof end) whole more

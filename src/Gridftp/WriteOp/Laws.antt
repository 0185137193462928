-- ===== src/Gridftp/WriteOp/Laws.antt =====
-- Calls of `globus_l_dsi_rest_write_gridftp_op`.
use mathlib.Core.Path.{subst}
use globus_dsi_rest.Base.{
  ℕ, suc, ◌+◌, ◌^◌, ◌≤◌, ◌<◌, ◌≡◌, ◌⊎◌, refl, sym, ◌∙◌, ap, ap₂, Bool, true, false, ◌&&◌, ◌||◌,
  none, some, [], inl, inr, ltb, ◌==◌, Bytes, length, Error, size_mod, arith, Bool-cases,
  Option-cases, ==→eq, ne→==, ◌≢◌,
}
use globus_dsi_rest.Base.Runs.{Run, done, out_of_fuel, ◌>>=◌}
use globus_dsi_rest.Gridftp.Op.{OpArg, Server, unlock}
use globus_dsi_rest.Gridftp.ReadOp.Inv.{lock_lem}
use globus_dsi_rest.Gridftp.WriteOp.{
  Arrivals, is_transfer_offset_ready, is_reading_complete, wait_ready, hand_out, Handed, Written,
  write_gridftp_op,
}
use globus_dsi_rest.Gridftp.WriteOp.Inv.{IsSound, slice}
use globus_dsi_rest.Gridftp.WriteOp.Arrive.{IsHonestServer, IsSound-locked}
use globus_dsi_rest.Gridftp.WriteOp.HandOut.{hand_out-Hands}
use globus_dsi_rest.Gridftp.WriteOp.Wait.{wakes, wait_ready_now, wait_ready-Woken}

-- What a call leaves behind. The bytes are the next ones of the file. A call without an error that
-- hands out nothing was given no room, or is at the end of the section, or finds that the data has
-- ended with no read left to wait for.
pub record Wrote (file : Bytes) (s : OpArg) (n : ℕ) (r : Run Written) : Type 0 where
  pub written : Written
  pub returned : r ≡ done written
  pub sound : IsSound file written.op
  pub unlocked : written.op.locked ≡ false
  pub content : written.copied ≡ slice file s.offset (length written.copied)
  pub offset : written.op.offset ≡ s.offset + length written.copied
  pub fits : length written.copied ≤ n
  pub ends :
      written.result ≡ none
      → length written.copied ≡ 0
      → (n ≡ 0) ⊎ (s.offset ≡ s.end_offset) ⊎ (is_reading_complete written.op ≡ true)

or_false : (x y : Bool) → (x || y) ≡ true → x ≡ false → y ≡ true
or_false false y h e = h
or_false true y h e = absurd cc

complete_same :
    (s t : OpArg)
    → t.eof ≡ s.eof
    → t.registered_buffers ≡ s.registered_buffers
    → is_reading_complete s ≡ is_reading_complete t
unfolding is_reading_complete
complete_same s t e r = simp (e, r, is_reading_complete)

module _ (srv : Server) (arrivals : Arrivals) (file : Bytes) (honest : IsHonestServer file arrivals)
    (small : length file < size_mod) where
  abbrev after_wait : ℕ → OpArg → Run Written
  after_wait n s = elim s.result as (λ x. Run Written) [
    | some e ↦ done (record { result = some e; copied = []; op = unlock s })
    | none ↦ do
      h ← hand_out (n + 1) n [] s
      done (record { result = none; copied = h.copied; op = unlock h.op })
  ]

  after_wait-none :
      (n : ℕ) (s : OpArg) (h : Handed)
      → s.result ≡ none
      → hand_out (n + 1) n [] s ≡ done h
      → after_wait n s ≡ done (record { result = none; copied = h.copied; op = unlock h.op })
  after_wait-none n s h q e =
      let go : Run Handed → Run Written =
        λ x. x >>= (λ h. done (record { result = none; copied = h.copied; op = unlock h.op })) in
      ap
        (λ r. elim r as (λ x. Run Written) [
          | some x ↦ done (record { result = some x; copied = []; op = unlock s })
          | none ↦ go (hand_out (n + 1) n [] s)
        ])
        q
      ∙ ap go e

  after_wait-Wrote :
      (n : ℕ) (s₀ s : OpArg)
      → n < 2 ^ 31
      → IsSound file s
      → s.offset ≡ s₀.offset
      → (wakes s ≡ true) ⊎ ((e : Error) × (s.result ≡ some e))
      → Wrote file s₀ n (after_wait n s)
  after_wait-Wrote n s₀ s room v same why = elim (Option-cases s.result) [
    | inr (e, q) ↦ record {
      written = record { result = some e; copied = []; op = unlock s };
      returned = rw q refl;
      sound = IsSound-locked file s false v;
      unlocked = refl;
      content = refl;
      offset = same ∙ omega arith;
      fits = omega arith;
      ends = λ x. absurd cc;
    }
    | inl q ↦
        let h = hand_out-Hands file small n room (n + 1) [] s v (omega arith) (omega arith) in
        let len : length h.handed.copied ≡ length h.bytes = ap length h.appended in
        record {
          written = record { result = none; copied = h.handed.copied; op = unlock h.handed.op };
          returned = after_wait-none n s h.handed q h.returned;
          sound = IsSound-locked file h.handed.op false h.sound;
          unlocked = refl;
          content = h.appended ∙ h.content ∙ ap₂ (slice file) same (sym len);
          offset = omega (arith, h.offset, same, len);
          fits = omega (arith, h.fits, len);
          ends = λ _. λ z. elim (Bool-cases (ltb 0 n)) [
            | inr t ↦ inl (ground arith)
            | inl t ↦ elim (Bool-cases (is_transfer_offset_ready s)) [
              | inl r ↦
                  let pos : 0 < length h.bytes = h.moves (ap₂ (λ x y. x && y) t r) in
                  absurd (omega arith)
              | inr r ↦ inr (
                  inr (
                    complete_same (unlock h.handed.op) s (sym h.eof) (sym h.registered) ∙ elim why [
                      | inl w ↦ or_false (is_transfer_offset_ready s) (is_reading_complete s) w r
                      | inr (e, x) ↦ absurd cc
                    ]))
            ]
          ];
        }
  ]

  write_on :
      (waits : ℕ) (s : OpArg) (n : ℕ)
      → s.locked ≡ false
      → (s.offset == s.end_offset) ≡ false
      → write_gridftp_op srv arrivals waits s n
        ≡ (wait_ready srv arrivals waits (record s { locked = true }) >>= after_wait n)
  unfolding write_gridftp_op
  write_on waits s n u e = rw (lock_lem s u, write_gridftp_op) (rw (e, ◌>>=◌) refl)

  -- When the server's arrivals are pieces of a file of less than 2^64 bytes, errors or the end of
  -- the data, a call of write_gridftp_op on a sound operation with the mutex free and with room
  -- for fewer than 2^31 bytes still waits behind the given number of waits, or returns with the
  -- mutex free, the operation sound, and the next bytes of the file, no more than there is room
  -- for. It succeeds without a byte only when there is no room, the section is complete, or the
  -- data has ended and no read is outstanding.
  pub write_gridftp_op-Wrote :
      (waits : ℕ) (s : OpArg) (n : ℕ)
      → IsSound file s
      → s.locked ≡ false
      → n < 2 ^ 31
      → (write_gridftp_op srv arrivals waits s n ≡ out_of_fuel)
        ⊎ Wrote file s n (write_gridftp_op srv arrivals waits s n)
  unfolding write_gridftp_op
  write_gridftp_op-Wrote waits s n v u room =
      let s₁ : OpArg = record s { locked = true } in
      let w = IsSound-locked file s true v in
      elim (Bool-cases (s.offset == s.end_offset)) [
        | inl e ↦ inr (record {
          written = record { result = none; copied = []; op = unlock (record s₁ { eof = true }) };
          returned = rw (lock_lem s u, write_gridftp_op) (rw (e, ◌>>=◌) refl);
          sound = record { pieces = v.pieces; free = inl refl; idle = v.idle; within = v.within };
          unlocked = refl;
          content = refl;
          offset = omega arith;
          fits = omega arith;
          ends = λ _ _. inr (inl (==→eq s.offset s.end_offset e));
        })
        | inr e ↦
            let on = write_on waits s n u e in
            elim (wait_ready-Woken srv arrivals file honest waits s₁ w refl) [
              | inl f ↦ inl (on ∙ ap (λ x. x >>= after_wait n) f)
              | inr p ↦ inr (
                  subst (Wrote file s n) (sym (on ∙ ap (λ x. x >>= after_wait n) p.returned))
                    (after_wait-Wrote n s p.op room p.sound p.offset p.why))
            ]
      ]

  -- A call on a sound operation with the mutex free, with room for some bytes and fewer than
  -- 2^31, that finds no error and the next bytes of an incomplete section pending, returns with
  -- success and some bytes, whatever else arrives.
  pub write_gridftp_op_ready :
      (waits : ℕ) (s : OpArg) (n : ℕ)
      → IsSound file s
      → s.locked ≡ false
      → 0 < n
      → n < 2 ^ 31
      → s.result ≡ none
      → s.offset ≢ s.end_offset
      → is_transfer_offset_ready s ≡ true
      → (w : Written) × ((write_gridftp_op srv arrivals (suc waits) s n ≡ done w)
          × (w.result ≡ none)
          × (0 < length w.copied))
  unfolding write_gridftp_op wait_ready is_transfer_offset_ready
  write_gridftp_op_ready waits s n v u pos room q ne ready =
      let s₁ : OpArg = record s { locked = true } in
      let e : (s.offset == s.end_offset) ≡ false = ne→== s.offset s.end_offset ne in
      let h =
        hand_out-Hands file small n room (n + 1) [] s₁ (IsSound-locked file s true v) (omega arith)
          (omega arith) in
      let t : ltb 0 n ≡ true = ground arith in
      let some_bytes = h.moves (ap₂ (λ x y. x && y) t ready) in
      (
        record { result = none; copied = h.handed.copied; op = unlock h.handed.op },
        (
          write_on (suc waits) s n u e
              ∙ ap (λ x. x >>= after_wait n)
                  (wait_ready_now srv arrivals waits s₁
                    (ap (λ x. x || is_reading_complete s₁) ready))
              ∙ after_wait-none n s₁ h.handed q h.returned,
          refl,
          omega (arith, ap (length {A = ℕ}) h.appended),
        ),
      )

-- ===== src/Gridftp/ReadOp/Laws.antt =====
-- What a response leaves on the data channel through read_gridftp_op.c.
use globus_dsi_rest.Base.{
  ℕ, zero, suc, ◌+◌, ◌≤◌, ◌<◌, ◌≡◌, refl, sym, ◌∙◌, ap, ap₂, true, false, none, some, [], ◌∷◌, ◌++◌,
  append_assoc, append-nil, inl, inr, ◌==◌, Bytes, length, arith, Bool-cases, ==→eq, ==→ne, ne→==,
}
use globus_dsi_rest.Base.Runs.{Run, done, ◌>>=◌}
use globus_dsi_rest.Gridftp.Op.{Buffer, used_bytes, OpArg, Server, unlock, buffer_get}
use globus_dsi_rest.Gridftp.ReadOp.{
  Others, wait_below, copy_into, Ended, flush, send_fail, Looped, copy_loop, leave, read_gridftp_op,
}
use globus_dsi_rest.Gridftp.ReadOp.Inv.{
  sent, IsSound, IsSound-locked, IsFair, wait_below-Waited, lock_lem,
}
use globus_dsi_rest.Gridftp.ReadOp.Flush.{flush-Flushes}
use globus_dsi_rest.Gridftp.ReadOp.Rounds.{
  current_bytes, taken, Grants, buffer_get-HasRoom, copy_into-Copies,
}

-- What a call leaves behind: a valid state, the mutex free, and the bytes taken once, in order.
pub record Receives (start : ℕ) (s : OpArg) (bytes : Bytes) (r : Run Ended) : Type 0 where
  pub op : OpArg
  pub returned : r ≡ done (record { result = none; op = op })
  pub sound : IsSound start op
  pub unlocked : op.locked ≡ false
  pub received : taken op ≡ taken s ++ bytes

nil_of_length : (xs : Bytes) → length xs ≡ 0 → xs ≡ []
nil_of_length [] h = refl
nil_of_length (x ∷ xs) h = absurd (omega arith)

record Loops (start : ℕ) (s : OpArg) (bytes : Bytes) (r : Run Looped) : Type 0 where
  op : OpArg
  returned : r ≡ done (record { exit = send_fail; result = none; op = op })
  sound : IsSound start op
  locked : op.locked ≡ true
  received : taken op ≡ taken s ++ bytes

module _ (srv : Server) (others : Others) where
  copy_loop_step :
      (fuel : ℕ) (bytes rest : Bytes) (s s₁ op op₁ op₂ : OpArg) (b : Buffer)
      → wait_below others srv.optimal_concurrency (s.registered_buffers_count + 1) s ≡ done s₁
      → buffer_get srv (length bytes) s₁ ≡ record { buffer = some b; op = op }
      → copy_into b bytes op ≡ done (record { op = op₁; rest = rest })
      → flush srv false op₁ ≡ record { result = none; op = op₂ }
      → copy_loop srv others (suc fuel) bytes s ≡ (elim (length rest == 0) as (λ x. Run Looped) [
        | true ↦ done (record { exit = send_fail; result = none; op = op₂ })
        | false ↦ copy_loop srv others fuel rest op₂
      ])
  unfolding copy_loop
  copy_loop_step fuel bytes rest s s₁ op op₁ op₂ b w g c f =
      rw (w, copy_loop)
        (rw (g, ◌>>=◌)
          (rw (ap (λ x. x.op) g) (
            rw (c, ◌>>=◌)
              (ap
                (λ x. elim x.result as (λ q. Run Looped) [
                  | some e ↦ done (record { exit = send_fail; result = some e; op = x.op })
                  | none ↦ elim (length rest == 0) as (λ q. Run Looped) [
                    | true ↦ done (record { exit = send_fail; result = none; op = x.op })
                    | false ↦ copy_loop srv others fuel rest x.op
                  ]
                ])
                f))))

module _ (srv : Server) (ok : Grants srv) (others : Others) (fair : IsFair others) (start : ℕ) where
  -- One round of the loop.
  record Rounds (s : OpArg) (bytes : Bytes) : Type 0 where
    op : OpArg
    rest : Bytes
    stepped :
        (fuel : ℕ)
        → copy_loop srv others (suc fuel) bytes s ≡ (elim (length rest == 0) as (λ x. Run Looped) [
          | true ↦ done (record { exit = send_fail; result = none; op = op })
          | false ↦ copy_loop srv others fuel rest op
        ])
    sound : IsSound start op
    locked : op.locked ≡ true
    received : taken op ++ rest ≡ taken s ++ bytes
    shorter : length rest < length bytes

  round :
      (bytes : Bytes) (s : OpArg)
      → IsSound start s
      → s.locked ≡ true
      → 0 < length bytes
      → Rounds s bytes
  round bytes s v l pos =
      let (w, below) =
        wait_below-Waited others fair start srv.optimal_concurrency (s.registered_buffers_count + 1)
          s v l ok.concurrent (omega arith) in
      let g = buffer_get-HasRoom srv start (length bytes) w.op ok w.keeps.sound pos in
      let c = copy_into-Copies g.buffer bytes g.op g.good g.room pos in
      let (f, last) = flush-Flushes srv ok start false c.buffer g.op g.sound c.good in
      record {
        op = f.op;
        rest = c.rest;
        stepped = λ fuel.
            copy_loop_step srv others fuel bytes c.rest s w.op g.op
              (record g.op { current_buffer = some c.buffer }) f.op g.buffer w.returned g.given
              c.returned f.returned;
        sound = f.sound;
        locked = f.locked ∙ g.locked ∙ w.locked;
        received =
            ap (λ t. t ++ c.rest) f.received
            ∙ append_assoc (sent g.op.writes) (used_bytes c.buffer) c.rest
            ∙ ap₂ (λ t u. sent t ++ u) (g.writes ∙ w.keeps.writes) c.split
            ∙ sym (append_assoc (sent s.writes) (used_bytes g.buffer) bytes)
            ∙ ap (λ t. (sent s.writes ++ t) ++ bytes) (g.held ∙ ap current_bytes w.keeps.current);
        shorter = c.shorter;
      }

  copy_loop-Loops :
      (fuel : ℕ) (bytes : Bytes) (s : OpArg)
      → IsSound start s
      → s.locked ≡ true
      → 0 < length bytes
      → length bytes ≤ fuel
      → Loops start s bytes (copy_loop srv others fuel bytes s)
  copy_loop-Loops zero bytes s v l pos enough = absurd (omega arith)
  copy_loop-Loops (suc fuel) bytes s v l pos enough =
      let r = round bytes s v l pos in
      elim (Bool-cases (length r.rest == 0)) [
        | inl e ↦ record {
          op = r.op;
          returned = r.stepped fuel ∙ rw e refl;
          sound = r.sound;
          locked = r.locked;
          received =
              sym (append-nil (taken r.op))
              ∙ ap (λ t. taken r.op ++ t) (sym (nil_of_length r.rest (==→eq (length r.rest) 0 e)))
              ∙ r.received;
        }
        | inr e ↦
            let t =
              copy_loop-Loops fuel r.rest r.op r.sound r.locked
                (omega (arith, ==→ne (length r.rest) 0 e)) (omega (arith, r.shorter)) in
            record {
              op = t.op;
              returned = r.stepped fuel ∙ rw e t.returned;
              sound = t.sound;
              locked = t.locked;
              received = t.received ∙ r.received;
            }
      ]

  -- A call with some bytes.
  pub read_gridftp_op-Receives :
      (s : OpArg) (bytes : Bytes)
      → IsSound start s
      → s.locked ≡ false
      → 0 < length bytes
      → Receives start s bytes (read_gridftp_op srv others s bytes)
  unfolding read_gridftp_op leave
  read_gridftp_op-Receives s bytes v u pos =
      let r =
        copy_loop-Loops (length bytes) bytes (record s { locked = true })
          (IsSound-locked start s true v) refl pos (omega arith) in
      let ne : (length bytes == 0) ≡ false = ne→== (length bytes) 0 (λ e. omega arith) in
      record {
        op = unlock r.op;
        returned =
            rw (lock_lem s u, read_gridftp_op) (rw (ne, ◌>>=◌) (rw (r.returned, ◌>>=◌) refl));
        sound = IsSound-locked start r.op false r.sound;
        unlocked = refl;
        received = r.received;
      }

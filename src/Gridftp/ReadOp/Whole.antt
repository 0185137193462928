-- ===== src/Gridftp/ReadOp/Whole.antt =====
-- A whole response through read_gridftp_op.c, with the server's callbacks at any time.
use mathlib.Core.Path.{subst}
use globus_dsi_rest.Base.{
  ℕ, ◌+◌, ◌<◌, ◌≡◌, refl, sym, ◌∙◌, ap, ap₂, true, false, none, List, [], ◌∷◌, ◌++◌, append_assoc,
  append-nil, inl, inr, Bytes, length, All, arith, Option-cases,
}
use globus_dsi_rest.Base.Runs.{Run, done, ◌>>=◌}
use globus_dsi_rest.Gridftp.Op.{OpArg, Server, unlock, new_op}
use globus_dsi_rest.Gridftp.ReadOp.{
  Others, wait_below, Ended, enqueue, send_pending, send_all, flush, finish_data, read_gridftp_op,
  write_callbacks,
}
use globus_dsi_rest.Gridftp.ReadOp.Inv.{
  sent, Contiguous, IsBuffer, IsOpen, IsSound, IsSound-locked, IsFair, wait_below-Waited, lock_lem,
  Finishes, write_callbacks-Finished,
}
use globus_dsi_rest.Gridftp.ReadOp.Flush.{flush-Flushes}
use globus_dsi_rest.Gridftp.ReadOp.Rounds.{current_bytes, taken, Grants}
use globus_dsi_rest.Gridftp.ReadOp.Laws.{read_gridftp_op-Receives}

module _ (srv : Server) (ok : Grants srv) (start : ℕ) where
  -- What is left in the current buffer is sent.
  record Empties (s : OpArg) : Type 0 where
    op : OpArg
    returned : flush srv true s ≡ record { result = none; op = op }
    sound : IsSound start op
    locked : op.locked ≡ s.locked
    received : sent op.writes ≡ taken s
    empty : current_bytes op.current_buffer ≡ []

  last_flush : (s : OpArg) → IsSound start s → Empties s
  unfolding flush enqueue send_pending send_all
  last_flush s v = elim (Option-cases s.current_buffer) [
    | inl e ↦
        let q : enqueue true s ≡ s = simp (e, enqueue) in
        record {
          op = s;
          returned = ap (send_pending srv) q ∙ ap (λ p. send_all srv p s) v.flushed;
          sound = v;
          locked = refl;
          received =
              sym (append-nil (sent s.writes)) ∙ ap (λ o. sent s.writes ++ current_bytes o) (sym e);
          empty = ap current_bytes e;
        }
    | inr (b, e) ↦
        let o : IsBuffer b × (b.buffer_used < b.buffer_len) = subst IsOpen e v.current in
        let (f, last) = flush-Flushes srv ok start true b s v o.0 in
        let empty : current_bytes f.op.current_buffer ≡ [] = elim last [
          | inl n ↦ absurd cc
          | inr z ↦ z
        ] in
        record {
          op = f.op;
          returned = ap (λ c. flush srv true (record s { current_buffer = c })) e ∙ f.returned;
          sound = f.sound;
          locked = f.locked;
          received =
              sym (append-nil (sent f.op.writes))
              ∙ ap (λ t. sent f.op.writes ++ t) (sym empty)
              ∙ f.received
              ∙ ap (λ c. sent s.writes ++ current_bytes c) (sym e);
          empty = empty;
        }
  ]

-- At the end all bytes are on the data channel, end to end, and no write is outstanding.
pub record Delivered (start : ℕ) (bytes : Bytes) (r : Run Ended) : Type 0 where
  pub op : OpArg
  pub returned : r ≡ done (record { result = none; op = op })
  pub sent : sent op.writes ≡ bytes
  pub contiguous : Contiguous start op.writes op.offset
  pub outstanding : op.registered_buffers ≡ []
  pub unlocked : op.locked ≡ false

nil_of_length {ℓ} : {A : Type ℓ} (xs : List A) → length xs < 1 → xs ≡ []
nil_of_length [] h = refl
nil_of_length (x ∷ xs) h = absurd (omega arith)

finish_data_step :
    (srv : Server) (others : Others) (s op w : OpArg)
    → flush srv true s ≡ record { result = none; op = op }
    → wait_below others 1 (op.registered_buffers_count + 1) op ≡ done w
    → finish_data srv others s ≡ done (record { result = none; op = unlock w })
unfolding finish_data
finish_data_step srv others s op w f e =
    ap
      (λ x. wait_below others 1 (x.op.registered_buffers_count + 1) x.op >>= λ s'.
        done (record { result = x.result; op = unlock s' }))
      f
    ∙ ap (λ r. r >>= λ s'. done (record { result = none; op = unlock s' })) e

module _ (srv : Server) (ok : Grants srv) (others : Others) (fair : IsFair others) (start : ℕ) where
  read_gridftp_op-Delivered :
      (s : OpArg)
      → IsSound start s
      → s.locked ≡ false
      → Delivered start (taken s) (read_gridftp_op srv others s [])
  unfolding read_gridftp_op
  read_gridftp_op-Delivered s v u =
      let f =
        last_flush srv ok start (record s { locked = true }) (IsSound-locked start s true v) in
      let (w, below) =
        wait_below-Waited others fair start 1 (f.op.registered_buffers_count + 1) f.op f.sound
          f.locked (omega arith) (omega arith) in
      record {
        op = unlock w.op;
        returned =
            rw (lock_lem s u, read_gridftp_op)
              (finish_data_step srv others (record s { locked = true }) f.op w.op f.returned
                w.returned);
        sent = ap sent w.keeps.writes ∙ f.received;
        contiguous = w.keeps.sound.contiguous;
        outstanding = nil_of_length w.op.registered_buffers below;
        unlocked = refl;
      }

-- libcurl hands over chunk after chunk and then the end of the data; between two calls the server
-- finishes some writes.
unfoldable pub receive : Server → Others → Others → OpArg → List Bytes → Run Ended
receive srv others between s [] = read_gridftp_op srv others s []
receive srv others between s (c ∷ cs) = do
  e ← read_gridftp_op srv others s c
  s' ← write_callbacks (between e.op) e.op
  receive srv others between s' cs

abbrev pub concat : List Bytes → Bytes
concat [] = []
concat (c ∷ cs) = c ++ concat cs

module _ (srv : Server) (ok : Grants srv) (others : Others) (fair : IsFair others)
    (between : Others) (orderly : (s : OpArg) → Finishes s.registered_buffers (between s))
    (start : ℕ) where
  receive_from :
      (cs : List Bytes) (s : OpArg)
      → IsSound start s
      → s.locked ≡ false
      → All (λ c. 0 < length c) cs
      → Delivered start (taken s ++ concat cs) (receive srv others between s cs)
  unfolding receive
  receive_from [] s v u pos =
      subst (λ t. Delivered start t (read_gridftp_op srv others s [])) (sym (append-nil (taken s)))
        (read_gridftp_op-Delivered srv ok others fair start s v u)
  receive_from (c ∷ cs) s v u pos =
      let r = read_gridftp_op-Receives srv ok others fair start s c v u pos.0 in
      let q =
        write_callbacks-Finished start (between r.op) r.op r.sound r.unlocked (orderly r.op) in
      let same : taken q.op ++ concat cs ≡ taken s ++ (c ++ concat cs) =
        ap₂ (λ w o. (sent w ++ current_bytes o) ++ concat cs) q.keeps.writes q.keeps.current
        ∙ ap (λ t. t ++ concat cs) r.received
        ∙ append_assoc (taken s) c (concat cs) in
      let d = receive_from cs q.op q.keeps.sound q.unlocked pos.1 in
      subst (λ t. Delivered start t (receive srv others between s (c ∷ cs))) same
        (record {
          op = d.op;
          returned = rw (r.returned, receive) (rw (q.returned, ◌>>=◌) d.returned);
          sent = d.sent;
          contiguous = d.contiguous;
          outstanding = d.outstanding;
          unlocked = d.unlocked;
        })

  -- When memory does not run out and the server takes every write and goes on finishing them, in
  -- whatever order and at whatever time, the calls of read_gridftp_op for the chunks of a response,
  -- none of them empty, and for its end all return with success. The writes on the data channel lie
  -- end to end from the operation's offset on, their bytes are exactly the response's, and at the
  -- end none is outstanding and the mutex is free.
  pub receive-Delivered :
      (end_offset : ℕ) (cs : List Bytes)
      → All (λ c. 0 < length c) cs
      → Delivered start (concat cs) (receive srv others between (new_op start end_offset) cs)
  unfolding sent
  receive-Delivered end_offset cs pos =
      receive_from cs (new_op start end_offset)
        (record {
          contiguous = refl;
          counted = refl;
          registered = tt;
          free = tt;
          current = tt;
          flushed = refl;
        })
        refl pos

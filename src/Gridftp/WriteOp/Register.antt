-- ===== src/Gridftp/WriteOp/Register.antt =====
-- `globus_l_dsi_rest_write_register_reads` keeps a sound operation sound.
use mathlib.Core.Path.{subst}
use globus_dsi_rest.Base.{
  ℕ, zero, suc, ◌+◌, ◌-◌, ◌≡◌, ◌⊎◌, refl, sym, ◌∙◌, ap, true, ◌&&◌, not, Option, none, some, List,
  [], ◌∷◌, ◌++◌, inl, inr, ltb, ◌==◌, if◌then◌else◌, Bytes, length, All, Error, add_size,
  Bool-cases, Option-cases, eq→==,
}
use globus_dsi_rest.Base.Runs.{Run, done, ◌>>=◌, ◌>>◌, assert}
use globus_dsi_rest.Gridftp.Op.{
  Buffer, ChannelRead, OpArg, Server, buffer_get, buffer_room, new_buffer, header_size, no_offset,
}
use globus_dsi_rest.Gridftp.ReadOp.{Ended}
use globus_dsi_rest.Gridftp.WriteOp.{
  free_buffer, remaining, Round, failed, reads_next, register_one, register_loop, register_reads,
  bytes_available,
}
use globus_dsi_rest.Gridftp.WriteOp.Inv.{IsSound, IsUnused}

-- The state with a buffer taken from the free ones, or a new one.
abbrev taken : Buffer → List Buffer → ℕ → OpArg → OpArg
taken b rest n s = record s { current_buffer = some b; free_buffers = rest; allocated = n }

pub list_cases :
    (xs : List Buffer) → (xs ≡ []) ⊎ ((b : Buffer) × (rest : List Buffer) × (xs ≡ b ∷ rest))
list_cases [] = inl refl
list_cases (b ∷ rest) = inr (b, rest, refl)

-- What `globus_i_dsi_rest_buffer_get` does when no buffer is being filled and the free ones are
-- unused.
data GetsUnused (srv : Server) (size : ℕ) (s : OpArg) : Type 0 where
  nothing : buffer_get srv size s ≡ record { buffer = none; op = s } → GetsUnused srv size s
  got :
      (b : Buffer) (rest : List Buffer) (n : ℕ)
      → IsUnused b
      → All IsUnused rest
      → buffer_get srv size s ≡ record { buffer = some b; op = taken b rest n s }
      → GetsUnused srv size s

buffer_get-GetsUnused :
    (srv : Server) (size : ℕ) (s : OpArg)
    → s.current_buffer ≡ none
    → All IsUnused s.free_buffers
    → GetsUnused srv size s
unfolding buffer_get
buffer_get-GetsUnused srv size s c h =
    let cases : (s.free_buffers ≡ [])
        ⊎ ((b : Buffer) × (rest : List Buffer) × (s.free_buffers ≡ b ∷ rest)) =
      list_cases s.free_buffers in
    elim cases [
      | inr (b, rest, e) ↦
          let hs = subst (All IsUnused) e h in
          got b rest s.allocated hs.0 hs.1 (simp (c, e, buffer_get))
      | inl e ↦
          let room = buffer_room srv.block_size size in
          elim (Bool-cases (srv.alloc (header_size + room))) [
            | inl a ↦ got (new_buffer s.allocated room) [] (s.allocated + 1) refl tt (
                let q : buffer_get srv size s ≡ record {
                  buffer = some (new_buffer s.allocated room);
                  op = taken (new_buffer s.allocated room) [] (s.allocated + 1) s;
                } =
                  simp (c, e, a, buffer_get) in
                q)
            | inr a ↦ nothing (simp (c, e, a, buffer_get))
          ]
    ]

-- A sound operation with the same bytes pending, as far as it was and in the same hands.
pub record Same (file : Bytes) (s s' : OpArg) : Type 0 where
  pub sound : IsSound file s'
  pub locked : s'.locked ≡ s.locked
  pub offset : s'.offset ≡ s.offset
  pub pending : s'.pending_buffers ≡ s.pending_buffers
  pub result : s'.result ≡ s.result

-- A round that goes on registers a read of a sound operation.
data OneRound (file : Bytes) (s : OpArg) (r : Run Round) : Type 0 where
  ends : (e : Error) (s' : OpArg) → r ≡ done (failed e s') → Same file s s' → OneRound file s r
  continues :
      (n : ℕ) (s' : OpArg)
      → r ≡ done (reads_next n s')
      → Same file s s'
      → All IsUnused s'.free_buffers
      → OneRound file s r

module _ (srv : Server) (file : Bytes) (s : OpArg) (v : IsSound file s) where
  Same-refl : Same file s s
  Same-refl = record { sound = v; locked = refl; offset = refl; pending = refl; result = refl }

  -- Other free and registered buffers, all unused.
  Same-free :
      (rest regs : List Buffer) (n : ℕ) (rs : List ChannelRead)
      → All IsUnused rest
      → Same file s (record s {
        current_buffer = none;
        registered_buffers = regs;
        free_buffers = rest;
        allocated = n;
        reads = rs;
      })
  Same-free rest regs n rs h = record {
    sound = record { pieces = v.pieces; free = inr h; idle = refl; within = v.within };
    locked = refl;
    offset = refl;
    pending = refl;
    result = refl;
  }

  register_one-OneRound :
      (left : ℕ)
      → All IsUnused s.free_buffers
      → OneRound file s (register_one srv left (buffer_get srv srv.block_size s))
  unfolding register_one
  register_one-OneRound left h = elim (buffer_get-GetsUnused srv srv.block_size s v.idle h) [
    | nothing q ↦
        ends Error.memory (record s { current_buffer = none }) (ap (register_one srv left) q)
          (Same-free s.free_buffers s.registered_buffers s.allocated s.reads h)
    | got b rest n u hs q ↦
        let this_read = if ltb left b.buffer_len then left else b.buffer_len in
        let read : ChannelRead = record { address = b.address; length = this_read } in
        let t : (b.buffer_used == 0) ≡ true = eq→== b.buffer_used 0 u in
        elim (Option-cases (srv.register_read read)) [
          | inr (e, r) ↦
              ends e
                (free_buffer (record b { transfer_offset = no_offset })
                  (record (taken b rest n s) { current_buffer = none }))
                (ap (register_one srv left) q
                  ∙ rw (t, register_one, ◌>>=◌, ◌>>◌, assert) (rw r refl))
                (Same-free (record b { transfer_offset = no_offset } ∷ rest) s.registered_buffers n
                  s.reads (u, hs))
          | inl r ↦
              continues this_read
                (record (taken b rest n s) {
                  current_buffer = none;
                  registered_buffers =
                      record b { transfer_offset = no_offset } ∷ s.registered_buffers;
                  reads = s.reads ++ (read ∷ []);
                })
                (ap (register_one srv left) q
                  ∙ rw (t, register_one, ◌>>=◌, ◌>>◌, assert) (rw r refl))
                (Same-free rest (record b { transfer_offset = no_offset } ∷ s.registered_buffers) n
                  (s.reads ++ (read ∷ [])) hs)
                hs
        ]
  ]

-- What registering reads leaves behind.
pub record Registered (file : Bytes) (s : OpArg) (r : Run Ended) : Type 0 where
  pub ended : Ended
  pub returned : r ≡ done ended
  pub same : Same file s ended.op

Same-trans : {file : Bytes} {s₁ s₂ s₃ : OpArg} → Same file s₁ s₂ → Same file s₂ s₃ → Same file s₁ s₃
Same-trans a b = record {
  sound = b.sound;
  locked = b.locked ∙ a.locked;
  offset = b.offset ∙ a.offset;
  pending = b.pending ∙ a.pending;
  result = b.result ∙ a.result;
}

module _ (srv : Server) (file : Bytes) where
  unmoved :
      (s : OpArg) (x : Option Error)
      → IsSound file s
      → Registered file s (done (record { result = x; op = s }))
  unmoved s x v = record {
    ended = record { result = x; op = s };
    returned = refl;
    same = Same-refl srv file s v;
  }

  register_loop-Registered :
      (rounds bytes : ℕ) (s : OpArg)
      → IsSound file s
      → All IsUnused s.free_buffers
      → Registered file s (register_loop srv rounds bytes s)
  unfolding register_loop
  register_loop-Registered zero bytes s v h = unmoved s none v
  register_loop-Registered (suc rounds) bytes s v h =
      elim (Bool-cases (not (s.end_offset == no_offset) && remaining srv s bytes == 0)) [
        | inl e ↦ rw (e, register_loop) (unmoved s none v)
        | inr e ↦ elim (register_one-OneRound srv file s v (remaining srv s bytes) h) [
          | ends x s' q same ↦ record {
            ended = record { result = some x; op = s' };
            returned = rw (e, register_loop) (rw (q, ◌>>=◌) refl);
            same = same;
          }
          | continues n s' q same hs ↦
              let r = register_loop-Registered rounds (add_size bytes n) s' same.sound hs in
              record {
                ended = r.ended;
                returned = rw (e, register_loop) (rw (q, ◌>>=◌) r.returned);
                same = Same-trans same r.same;
              }
        ]
      ]

  pub register_reads-Registered :
      (s : OpArg) → IsSound file s → Registered file s (register_reads srv s)
  unfolding register_reads
  register_reads-Registered s v =
      let nothing_to_do : Registered file s (done (record { result = none; op = s })) =
        unmoved s none v in
      elim (Option-cases s.result) [
        | inr (x, e) ↦
            let q : register_reads srv s ≡ done (record { result = none; op = s }) =
              simp (e, register_reads) in
            subst (Registered file s) (sym q) nothing_to_do
        | inl e ↦ elim (Bool-cases s.eof) [
          | inl t ↦
              let q : register_reads srv s ≡ done (record { result = none; op = s }) =
                simp (e, t, register_reads) in
              subst (Registered file s) (sym q) nothing_to_do
          | inr t ↦
              let rounds = srv.optimal_concurrency - length s.registered_buffers in
              let bytes = bytes_available s.registered_buffers in
              let q : register_reads srv s ≡ register_loop srv rounds bytes s =
                simp (e, t, register_reads) in
              subst (Registered file s) (sym q) (
                register_loop-Registered rounds bytes s v
                  (elim v.free [ inl x ↦ absurd cc | inr hs ↦ hs ]))
        ]
      ]

-- ===== src/Gridftp/ReadOp/Rounds.antt =====
-- One round of the loop of read_gridftp_op.c: a buffer and the copy into it.
use mathlib.Core.Path.{subst}
use globus_dsi_rest.Base.{
  ℕ, ◌+◌, ◌-◌, ◌<◌, ◌≡◌, ◌⊎◌, refl, sym, ◌∙◌, ap, true, Option, none, some, List, [], ◌∷◌, ◌++◌,
  append_assoc, append-nil, inl, inr, Bytes, length, length-append, length-take, take, take_all,
  take-append-drop, length-drop, drop, min, All, add_size, arith, Option-cases, lt→ltb,
}
use globus_dsi_rest.Base.Runs.{Run, done}
use globus_dsi_rest.Gridftp.Op.{
  Buffer, used_bytes, ChannelWrite, OpArg, Server, buffer_get, buffer_room, new_buffer, Gotten,
}
use globus_dsi_rest.Gridftp.ReadOp.{copy_into, Copied}
use globus_dsi_rest.Gridftp.ReadOp.Inv.{sent, Contiguous, IsBuffer, IsFree, IsOpen, IsSound}

-- The bytes in the current buffer.
abbrev pub current_bytes : Option Buffer → Bytes
current_bytes none = []
current_bytes (some b) = used_bytes b

-- All bytes that the operation has taken: those on the data channel, and those that wait.
abbrev pub taken : OpArg → Bytes
taken s = sent s.writes ++ current_bytes s.current_buffer

-- The server takes every write, and memory does not run out.
pub record Grants (srv : Server) : Type 0 where
  pub accepts : (w : ChannelWrite) → srv.register_write w ≡ none
  pub allocates : (n : ℕ) → srv.alloc n ≡ true
  pub concurrent : 0 < srv.optimal_concurrency

pub sent-append :
    (ws : List ChannelWrite) (w : ChannelWrite) → sent (ws ++ (w ∷ [])) ≡ sent ws ++ w.bytes
unfolding sent
sent-append [] w = append-nil w.bytes
sent-append (x ∷ ws) w =
    ap (λ t. x.bytes ++ t) (sent-append ws w) ∙ sym (append_assoc x.bytes (sent ws) w.bytes)

pub Contiguous-append :
    (o e : ℕ) (ws : List ChannelWrite) (w : ChannelWrite)
    → Contiguous o ws e
    → w.offset ≡ e
    → Contiguous o (ws ++ (w ∷ [])) (add_size e (length w.bytes))
Contiguous-append o e [] w c h = (h ∙ sym c, ap (λ k. add_size k (length w.bytes)) c)
Contiguous-append o e (x ∷ ws) w c h =
    (c.0, Contiguous-append (add_size o (length x.bytes)) e ws w c.1 h)

pub length-used : (b : Buffer) → IsBuffer b → length (used_bytes b) ≡ b.buffer_used
length-used b v = omega (arith, length-take b.buffer_used b.memory, v.filled)

-- A buffer with room, which holds what the current one held.
pub record HasRoom (start : ℕ) (s : OpArg) (g : Gotten) : Type 0 where
  pub buffer : Buffer
  pub op : OpArg
  pub given : g ≡ record { buffer = some buffer; op = op }
  pub good : IsBuffer buffer
  pub room : buffer.buffer_used < buffer.buffer_len
  pub held : used_bytes buffer ≡ current_bytes s.current_buffer
  pub sound : IsSound start op
  pub writes : op.writes ≡ s.writes
  pub locked : op.locked ≡ s.locked

buffer_room_pos : (block size : ℕ) → 0 < size → 0 < buffer_room block size
unfolding buffer_room
buffer_room_pos block size h = ground arith

module _ (srv : Server) (start size : ℕ) (s : OpArg) (v : IsSound start s) where
  get_current : {b : Buffer} → s.current_buffer ≡ some b → HasRoom start s (buffer_get srv size s)
  unfolding buffer_get
  get_current {b} e =
      let o : IsBuffer b × (b.buffer_used < b.buffer_len) = subst IsOpen e v.current in
      record {
        buffer = b;
        op = s;
        given = simp (e, buffer_get);
        good = o.0;
        room = o.1;
        held = sym (ap current_bytes e);
        sound = v;
        writes = refl;
        locked = refl;
      }

  get_free :
      {b : Buffer} {bs : List Buffer}
      → s.current_buffer ≡ none
      → s.free_buffers ≡ b ∷ bs
      → HasRoom start s (buffer_get srv size s)
  unfolding buffer_get
  get_free {b} {bs} e f =
      let h : IsFree b × All IsFree bs = subst (All IsFree) f v.free in
      let good : IsBuffer b = record {
        room = h.0.room;
        within = omega (arith, h.0.unused);
        filled = omega (arith, h.0.unused);
      } in
      record {
        buffer = b;
        op = record s { current_buffer = some b; free_buffers = bs };
        given = simp (e, f, buffer_get);
        good = good;
        room = omega (arith, h.0.unused, h.0.room);
        held = ap (λ n. take n b.memory) h.0.unused ∙ sym (ap current_bytes e);
        sound = record {
          contiguous = v.contiguous;
          counted = v.counted;
          registered = v.registered;
          free = h.1;
          current = (good, omega (arith, h.0.unused, h.0.room));
          flushed = v.flushed;
        };
        writes = refl;
        locked = refl;
      }

  get_new :
      (granted : (n : ℕ) → srv.alloc n ≡ true)
      → 0 < size
      → s.current_buffer ≡ none
      → s.free_buffers ≡ []
      → HasRoom start s (buffer_get srv size s)
  unfolding buffer_get
  get_new granted pos e f =
      let room = buffer_room srv.block_size size in
      let b = new_buffer s.allocated room in
      let good : IsBuffer b = record {
        room = buffer_room_pos srv.block_size size pos;
        within = omega arith;
        filled = omega arith;
      } in
      record {
        buffer = b;
        op = record s { current_buffer = some b; allocated = s.allocated + 1 };
        given = simp (e, f, buffer_get, granted);
        good = good;
        room = buffer_room_pos srv.block_size size pos;
        held = sym (ap current_bytes e);
        sound = record {
          contiguous = v.contiguous;
          counted = v.counted;
          registered = v.registered;
          free = v.free;
          current = (good, buffer_room_pos srv.block_size size pos);
          flushed = v.flushed;
        };
        writes = refl;
        locked = refl;
      }

List-cases {ℓ} : {A : Type ℓ} (xs : List A) → (xs ≡ []) ⊎ ((x : A) × (ys : List A) × (xs ≡ x ∷ ys))
List-cases [] = inl refl
List-cases (x ∷ xs) = inr (x, xs, refl)

pub buffer_get-HasRoom :
    (srv : Server) (start size : ℕ) (s : OpArg)
    → Grants srv
    → IsSound start s
    → 0 < size
    → HasRoom start s (buffer_get srv size s)
buffer_get-HasRoom srv start size s ok v pos = elim (Option-cases s.current_buffer) [
  | inr (b, e) ↦ get_current srv start size s v e
  | inl e ↦ elim (List-cases s.free_buffers) [
    | inl f ↦ get_new srv start size s v ok.allocates pos e f
    | inr (b, bs, f) ↦ get_free srv start size s v e f
  ]
]

-- A copy moves at least a byte, and leaves the buffer in bounds.
pub record Copies (b : Buffer) (bytes : Bytes) (s : OpArg) (r : Run Copied) : Type 0 where
  pub buffer : Buffer
  pub rest : Bytes
  pub returned : r ≡ done (record { op = record s { current_buffer = some buffer }; rest = rest })
  pub good : IsBuffer buffer
  pub split : used_bytes buffer ++ rest ≡ used_bytes b ++ bytes
  pub shorter : length rest < length bytes

pub copy_into-Copies :
    (b : Buffer) (bytes : Bytes) (s : OpArg)
    → IsBuffer b
    → b.buffer_used < b.buffer_len
    → 0 < length bytes
    → Copies b bytes s (copy_into b bytes s)
unfolding copy_into
copy_into-Copies b bytes s v room pos =
    let n = min (b.buffer_len - b.buffer_used) (length bytes) in
    let p : 0 < n = omega arith in
    let len : length (used_bytes b ++ take n bytes) ≡ b.buffer_used + n =
      omega (
        arith,
        length-append (used_bytes b) (take n bytes),
        length-used b v,
        length-take n bytes,
      ) in
    record {
      buffer = record b { memory = used_bytes b ++ take n bytes; buffer_used = b.buffer_used + n };
      rest = drop n bytes;
      returned = rw (lt→ltb 0 n p) refl;
      good = record { room = v.room; within = omega arith; filled = omega (arith, len) };
      split =
          ap (λ t. t ++ drop n bytes)
            (take_all (b.buffer_used + n) (used_bytes b ++ take n bytes) (omega (arith, len)))
          ∙ append_assoc (used_bytes b) (take n bytes) (drop n bytes)
          ∙ ap (λ t. used_bytes b ++ t) (take-append-drop n bytes);
      shorter = omega (arith, length-drop n bytes);
    }

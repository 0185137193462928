-- ===== src/Gridftp/WriteOp/HandOut.antt =====
-- The loop of `globus_l_dsi_rest_write_gridftp_op` that copies into libcurl's buffer.
use mathlib.Core.Path.{subst}
use globus_dsi_rest.Base.{
  ℕ, zero, suc, ◌+◌, ◌-◌, ◌^◌, ◌≤◌, ◌<◌, ◌≡◌, refl, sym, ◌∙◌, ap, ap₂, Bool, true, false, ◌&&◌, min,
  List, [], ◌∷◌, ◌++◌, inl, inr, ltb, ◌==◌, Bytes, length, take, drop, All, add_size, size_mod,
  arith, length-take, length-drop, length-append, append-nil, append_assoc, drop-drop, take_all,
  Bool-cases, ==→eq,
}
use globus_dsi_rest.Base.Runs.{Run, done, ◌>>=◌, ◌>>◌, assert, take-split}
use globus_dsi_rest.Gridftp.Op.{Buffer, used_bytes, OpArg}
use globus_dsi_rest.Gridftp.WriteOp.{is_transfer_offset_ready, to_copy, consume, hand_out, Handed}
use globus_dsi_rest.Gridftp.WriteOp.Register.{list_cases}
use globus_dsi_rest.Gridftp.WriteOp.Inv.{IsSound, IsPiece, slice}

-- What is copied at once fits: all that there is room for, or all of the buffer.
pub to_copy_lem : (room : ℕ) (b : Buffer) → room < 2 ^ 31 → to_copy room b ≡ min room b.buffer_used
unfolding to_copy
to_copy_lem room b h = ground arith

take-take : (m n : ℕ) (xs : Bytes) → m ≤ n → take m (take n xs) ≡ take m xs
take-take zero n xs h = refl
take-take (suc m) zero xs h = absurd (omega arith)
take-take (suc m) (suc n) [] h = refl
take-take (suc m) (suc n) (x ∷ xs) h = ap (λ t. x ∷ t) (take-take m n xs (omega arith))

drop-take : (m n : ℕ) (xs : Bytes) → drop m (take (m + n) xs) ≡ take n (drop m xs)
drop-take zero n xs = ap (λ k. take k xs) (omega arith)
drop-take (suc m) n [] =
    ap (drop (suc m)) (take_all (suc m + n) [] (omega arith)) ∙ sym (take_all n [] (omega arith))
drop-take (suc m) n (x ∷ xs) =
    ap (λ k. drop (suc m) (take k (x ∷ xs))) (let q : suc m + n ≡ suc (m + n) = omega arith in q)
    ∙ drop-take m n xs

-- Two neighbouring pieces of a file are one.
pub slice-append :
    (file : Bytes) (o m n : ℕ) → slice file o m ++ slice file (o + m) n ≡ slice file o (m + n)
slice-append file o m n =
    ap (λ t. slice file o m ++ take n t) (sym (drop-drop o m file))
    ∙ sym (
        take-split m (m + n) (drop o file) (omega arith)
        ∙ ap (λ k. slice file o m ++ take k (drop m (drop o file))) (omega arith))

pub and_true : (x y : Bool) → (x && y) ≡ true → (x ≡ true) × (y ≡ true)
and_true true y h = (refl, h)
and_true false y h = absurd cc

-- What is left of a piece when its first `k` bytes are gone.
abbrev shortened : ℕ → Buffer → Buffer
shortened k b = record b {
  memory = drop k (used_bytes b);
  buffer_used = b.buffer_used - k;
  transfer_offset = add_size b.transfer_offset k;
}

module _ (file : Bytes) (small : length file < size_mod) where
  add_offset : (o k : ℕ) → o + k ≤ length file → add_size o k ≡ o + k
  add_offset o k h = omega (arith, small)

  length-used : (b : Buffer) → IsPiece file b → length (used_bytes b) ≡ b.buffer_used
  length-used b p = omega (arith, length-take b.buffer_used b.memory, p.filled)

  shortened-IsPiece :
      (k : ℕ) (b : Buffer) → IsPiece file b → k < b.buffer_used → IsPiece file (shortened k b)
  shortened-IsPiece k b p lt =
      let e : add_size b.transfer_offset k ≡ b.transfer_offset + k =
        add_offset b.transfer_offset k (omega (arith, p.within)) in
      let len : length (drop k (used_bytes b)) ≡ b.buffer_used - k =
        omega (arith, length-drop k (used_bytes b), length-used b p) in
      record {
        some_used = omega arith;
        filled = omega arith;
        within = omega (arith, p.within);
        content =
            take_all (b.buffer_used - k) (drop k (used_bytes b)) (omega arith)
            ∙ ap (drop k) p.content
            ∙ ap (λ m. drop k (slice file b.transfer_offset m)) (omega arith)
            ∙ drop-take k (b.buffer_used - k) (drop b.transfer_offset file)
            ∙ ap (take (b.buffer_used - k)) (drop-drop b.transfer_offset k file)
            ∙ ap (λ o. slice file o (b.buffer_used - k)) (sym e);
      }

  -- The first bytes of a piece are bytes of the file.
  piece_start :
      (k : ℕ) (b : Buffer)
      → IsPiece file b
      → k ≤ b.buffer_used
      → take k b.memory ≡ slice file b.transfer_offset k
  piece_start k b p le =
      sym (take-take k b.buffer_used b.memory le)
      ∙ ap (take k) p.content
      ∙ take-take k b.buffer_used (drop b.transfer_offset file) le

  -- A sound operation after some bytes of its first piece are consumed.
  record Consumed (k : ℕ) (s s' : OpArg) : Type 0 where
    sound : IsSound file s'
    locked : s'.locked ≡ s.locked
    offset : s'.offset ≡ s.offset + k
    eof : s'.eof ≡ s.eof
    registered : s'.registered_buffers ≡ s.registered_buffers

  consume-Consumed :
      (k : ℕ) (b : Buffer) (bs : List Buffer) (s : OpArg)
      → IsSound file s
      → s.pending_buffers ≡ b ∷ bs
      → b.transfer_offset ≡ s.offset
      → k ≤ b.buffer_used
      → Consumed k s (consume k b bs s)
  unfolding consume
  consume-Consumed k b bs s v e o le =
      let hs = subst (All (IsPiece file)) e v.pieces in
      let within : s.offset + k ≤ length file = omega (arith, hs.0.within, o) in
      let a : add_size s.offset k ≡ s.offset + k = add_offset s.offset k within in
      elim (Bool-cases (ltb k b.buffer_used)) [
        | inl t ↦
            rw (t, consume)
              (record {
                sound = record {
                  pieces = (shortened-IsPiece k b hs.0 (ground arith), hs.1);
                  free = v.free;
                  idle = v.idle;
                  within = omega arith;
                };
                locked = refl;
                offset = a;
                eof = refl;
                registered = refl;
              })
        | inr t ↦
            rw (t, consume)
              (record {
                sound = record {
                  pieces = hs.1;
                  free = elim v.free [ inl x ↦ inl x | inr fs ↦ inr (refl, fs) ];
                  idle = v.idle;
                  within = omega arith;
                };
                locked = refl;
                offset = a;
                eof = refl;
                registered = refl;
              })
      ]

  -- What the loop leaves behind: it has copied bytes of the file, and as many as it could.
  pub record Hands (n : ℕ) (copied : Bytes) (s : OpArg) (r : Run Handed) : Type 0 where
    pub handed : Handed
    pub bytes : Bytes
    pub returned : r ≡ done handed
    pub sound : IsSound file handed.op
    pub locked : handed.op.locked ≡ s.locked
    pub appended : handed.copied ≡ copied ++ bytes
    pub content : bytes ≡ slice file s.offset (length bytes)
    pub offset : handed.op.offset ≡ s.offset + length bytes
    pub fits : length copied + length bytes ≤ n
    pub eof : handed.op.eof ≡ s.eof
    pub registered : handed.op.registered_buffers ≡ s.registered_buffers
    pub stopped : (ltb (length handed.copied) n && is_transfer_offset_ready handed.op) ≡ false
    pub moves : (ltb (length copied) n && is_transfer_offset_ready s) ≡ true → 0 < length bytes

  hand_out_step :
      (fuel n k : ℕ) (copied : Bytes) (s : OpArg) (b : Buffer) (bs : List Buffer)
      → (ltb (length copied) n && is_transfer_offset_ready s) ≡ true
      → s.pending_buffers ≡ b ∷ bs
      → to_copy (n - length copied) b ≡ k
      → 0 < k
      → k < 2 ^ 31
      → hand_out (suc fuel) n copied s
        ≡ hand_out fuel n (copied ++ take k b.memory) (consume k b bs s)
  unfolding hand_out
  hand_out_step fuel n k copied s b bs t e q pos small =
      let a : (ltb 0 k && ltb k (2 ^ 31)) ≡ true = ground arith in
      rw (t, hand_out) (rw e (rw q (rw (a, assert, ◌>>=◌, ◌>>◌) refl)))

  ready_first :
      (s : OpArg)
      → is_transfer_offset_ready s ≡ true
      → (b : Buffer) × (bs : List Buffer) × (s.pending_buffers ≡ b ∷ bs)
        × (b.transfer_offset ≡ s.offset)
  unfolding is_transfer_offset_ready
  ready_first s t = elim (list_cases s.pending_buffers) [
    | inl e ↦
        let q : is_transfer_offset_ready s ≡ false = simp (e, is_transfer_offset_ready) in absurd cc
    | inr (b, bs, e) ↦
        let q : is_transfer_offset_ready s ≡ (b.transfer_offset == s.offset) =
          simp (e, is_transfer_offset_ready) in
        (b, bs, e, ==→eq b.transfer_offset s.offset (sym q ∙ t))
  ]

  module _ (n : ℕ) (room : n < 2 ^ 31) where
    pub hand_out-Hands :
        (fuel : ℕ) (copied : Bytes) (s : OpArg)
        → IsSound file s
        → length copied ≤ n
        → n - length copied < fuel
        → Hands n copied s (hand_out fuel n copied s)
    unfolding hand_out
    hand_out-Hands zero copied s v le enough = absurd (omega arith)
    hand_out-Hands (suc fuel) copied s v le enough =
        elim (Bool-cases (ltb (length copied) n && is_transfer_offset_ready s)) [
          | inr t ↦ record {
            handed = record { copied = copied; op = s };
            bytes = [];
            returned = rw (t, hand_out) refl;
            sound = v;
            locked = refl;
            appended = sym (append-nil copied);
            content = refl;
            offset = omega arith;
            fits = omega arith;
            eof = refl;
            registered = refl;
            stopped = t;
            moves = λ x. absurd cc;
          }
          | inl t ↦
              let (b, bs, e, o) =
                ready_first s
                  ((and_true (ltb (length copied) n) (is_transfer_offset_ready s) t).1) in
              let p = (subst (All (IsPiece file)) e v.pieces).0 in
              let lt : length copied < n =
                let u = (and_true (ltb (length copied) n) (is_transfer_offset_ready s) t).0 in
                ground arith in
              let k = min (n - length copied) b.buffer_used in
              let here = take k b.memory in
              let pos : 0 < k = omega (arith, p.some_used) in
              let len : length here ≡ k = omega (arith, length-take k b.memory, p.filled) in
              let c = consume-Consumed k b bs s v e o (omega arith) in
              let r =
                hand_out-Hands fuel (copied ++ here) (consume k b bs s) c.sound
                  (omega (arith, length-append copied here))
                  (omega (arith, length-append copied here)) in
              record {
                handed = r.handed;
                bytes = here ++ r.bytes;
                returned =
                    hand_out_step fuel n k copied s b bs t e
                      (to_copy_lem (n - length copied) b (omega arith)) pos (omega arith)
                    ∙ r.returned;
                sound = r.sound;
                locked = r.locked ∙ c.locked;
                appended = r.appended ∙ append_assoc copied here r.bytes;
                content =
                    ap₂ (λ x y. x ++ y)
                      (piece_start k b p (omega arith) ∙ ap₂ (slice file) o (sym len))
                      (r.content
                        ∙ ap (λ q. slice file q (length r.bytes)) (c.offset ∙ omega (arith, len)))
                    ∙ slice-append file s.offset (length here) (length r.bytes)
                    ∙ ap (slice file s.offset) (sym (length-append here r.bytes));
                offset = omega (arith, r.offset, c.offset, length-append here r.bytes);
                fits = omega (arith, r.fits, length-append copied here, length-append here r.bytes);
                eof = r.eof ∙ c.eof;
                registered = r.registered ∙ c.registered;
                stopped = r.stopped;
                moves = λ x. omega (arith, length-append here r.bytes);
              }
        ]

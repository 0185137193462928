-- ===== src/Gridftp/WriteOp/Inv.antt =====
-- What holds of a write operation on a file, whatever arrives and in whatever order.
use mathlib.Core.Path.{subst}
use globus_dsi_rest.Base.{
  ℕ, ◌+◌, ◌-◌, ◌≤◌, ◌<◌, ◌≡◌, ◌⊎◌, refl, sym, ◌∙◌, ap, Bool, true, false, ◌&&◌, ◌||◌, not, Option,
  none, some, List, [], ◌∷◌, inl, inr, leb, ◌==◌, Bytes, length, take, drop, All, Error, add_size,
  size_mod, arith, Bool-cases, Option-cases, eq→==, ne→==,
}
use globus_dsi_rest.Gridftp.Op.{Buffer, used_bytes, OpArg, no_offset}
use globus_dsi_rest.Transfer.Request.{first_error}
use globus_dsi_rest.Gridftp.WriteOp.{
  Arrival, insert_pending, note_arrival, place, free_buffer, ends_section,
}

-- The `n` bytes of a file from an offset on.
abbrev pub slice : Bytes → ℕ → ℕ → Bytes
slice file o n = take n (drop o file)

-- A buffer holds a piece of the file that is not empty.
pub record IsPiece (file : Bytes) (b : Buffer) : Type 0 where
  pub some_used : 0 < b.buffer_used
  pub filled : b.buffer_used ≤ length b.memory
  pub within : b.transfer_offset + b.buffer_used ≤ length file
  pub content : used_bytes b ≡ slice file b.transfer_offset b.buffer_used

abbrev pub IsUnused : Buffer → Type 0
IsUnused b = b.buffer_used ≡ 0

-- Behind the first end of the data no buffer is asked for again, so only before it are the free ones
-- known to be empty.
pub record IsSound (file : Bytes) (s : OpArg) : Type 0 where
  pub pieces : All (IsPiece file) s.pending_buffers
  pub free : (s.eof ≡ true) ⊎ All IsUnused s.free_buffers
  pub idle : s.current_buffer ≡ none
  pub within : s.offset ≤ length file

-- An arrival from a server that reads the file: an error, the end of the data, or a piece of the file.
pub data IsHonest (file : Bytes) (a : Arrival) : Type 0 where
  failed : {e : Error} → a.result ≡ some e → IsHonest file a
  ended : a.bytes ≡ [] → a.eof ≡ true → IsHonest file a
  piece :
      0 < length a.bytes
      → a.offset + length a.bytes ≤ length file
      → a.bytes ≡ slice file a.offset (length a.bytes)
      → IsHonest file a

pub insert_pending-All :
    (P : Buffer → Type 0) (b : Buffer) (ps : List Buffer)
    → P b
    → All P ps
    → All P (insert_pending b ps)
unfolding insert_pending
insert_pending-All P b [] h hs = (h, tt)
insert_pending-All P b (p ∷ ps) h hs =
    elim (Bool-cases (leb (add_size p.transfer_offset p.buffer_used) b.transfer_offset)) [
      | inl e ↦ rw e (hs.0, insert_pending-All P b ps h hs.1)
      | inr e ↦ rw e (h, hs)
    ]

take_all_used : (xs : Bytes) → take (length xs) xs ≡ xs
take_all_used [] = refl
take_all_used (x ∷ xs) = ap (λ t. x ∷ t) (take_all_used xs)

-- The buffer of an arrival that holds a piece of the file.
abbrev filled : Arrival → Buffer → Buffer
filled a b = record b { buffer_used = length a.bytes; transfer_offset = a.offset; memory = a.bytes }

abbrev IsPieceOf : Bytes → Arrival → Type 0
IsPieceOf file a =
    (0 < length a.bytes)
    × (a.offset + length a.bytes ≤ length file)
    × (a.bytes ≡ slice file a.offset (length a.bytes))

module _ (file : Bytes) (a : Arrival) (b : Buffer) (s : OpArg) (v : IsSound file s) where
  place_failed : {e : Error} → s.result ≡ some e → IsSound file (place a b s)
  unfolding place
  place_failed {e} r =
      subst (IsSound file)
        (sym (
          let q : place a b s
              ≡ free_buffer (record b { buffer_used = 0; transfer_offset = 0; memory = a.bytes })
                  (record s { eof = true }) =
            simp (r, place) in
          q))
        (record { pieces = v.pieces; free = inl refl; idle = v.idle; within = v.within })

  place_empty : s.result ≡ none → s.eof ≡ true → a.bytes ≡ [] → IsSound file (place a b s)
  unfolding place
  place_empty r e z =
      let t : (length a.bytes == 0) ≡ true = eq→== (length a.bytes) 0 (ap length z) in
      subst (IsSound file)
        (sym (
          let q : place a b s
              ≡ free_buffer
                  (record b {
                    buffer_used = size_mod - 1;
                    transfer_offset = no_offset;
                    memory = a.bytes;
                  })
                  s =
            simp (r, place, t) in
          q))
        (record { pieces = v.pieces; free = inl e; idle = v.idle; within = v.within })

  place_piece : s.result ≡ none → IsPieceOf file a → IsSound file (place a b s)
  unfolding place
  place_piece r (pos, within, same) =
      let t : (length a.bytes == 0) ≡ false = ne→== (length a.bytes) 0 (λ e. omega arith) in
      subst (IsSound file)
        (sym (
          let q : place a b s
              ≡ record s { pending_buffers = insert_pending (filled a b) s.pending_buffers } =
            simp (r, place, t) in
          q))
        (record {
          pieces =
              insert_pending-All (IsPiece file) (filled a b) s.pending_buffers
                (record {
                  some_used = pos;
                  filled = omega arith;
                  within = within;
                  content = take_all_used a.bytes ∙ same;
                })
                v.pieces;
          free = v.free;
          idle = v.idle;
          within = v.within;
        })

-- The state when an arrival is noted and its buffer is no longer registered.
abbrev pub noted : Arrival → List Buffer → OpArg → OpArg
noted a rest s = record (note_arrival a s) { registered_buffers = rest }

first_error-none_right : (o n : Option Error) → first_error o n ≡ none → n ≡ none
first_error-none_right none n h = h
first_error-none_right (some x) n h = absurd cc

or-true_right : (x y : Bool) → y ≡ true → (x || y) ≡ true
or-true_right true y h = refl
or-true_right false y h = h

noted-IsSound :
    (file : Bytes) (a : Arrival) (rest : List Buffer) (s : OpArg)
    → IsSound file s
    → IsSound file (noted a rest s)
unfolding note_arrival
noted-IsSound file a rest s v = record {
  pieces = v.pieces;
  free = elim v.free [ inl e ↦ inl (ap (λ x. x || ends_section s a) e) | inr f ↦ inr f ];
  idle = v.idle;
  within = v.within;
}

pub place-IsSound :
    (file : Bytes) (a : Arrival) (b : Buffer) (rest : List Buffer) (s : OpArg)
    → IsSound file s
    → IsHonest file a
    → IsSound file (place a b (noted a rest s))
unfolding note_arrival ends_section
place-IsSound file a b rest s v h =
    let w = noted-IsSound file a rest s v in
    elim (Option-cases (noted a rest s).result) [
      | inr (e, r) ↦ place_failed file a b (noted a rest s) w r
      | inl r ↦ elim h [
        | failed {e} q ↦
            let n : a.result ≡ none = first_error-none_right s.result a.result r in absurd cc
        | ended z e ↦
            place_empty file a b (noted a rest s) w r
              (or-true_right s.eof (ends_section s a) (
                ap
                  (λ x.
                    x
                    || (not (s.end_offset == 0)
                        && add_size a.offset (length a.bytes) == s.end_offset))
                  e))
              z
        | piece p q c ↦ place_piece file a b (noted a rest s) w r (p, q, c)
      ]
    ]

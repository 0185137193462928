-- ===== src/Transfer/ReadMultipart/Split.antt =====
-- A delimiter that arrives in small chunks.
use globus_dsi_rest.Base.{
  ℕ, ◌+◌, ◌<◌, ◌≡◌, refl, sym, Bool, true, false, [], ◌∷◌, Bytes, length, get_or, ltb, leb, ◌==◌,
  lt→ltb, eq→==, ne→==, arith,
}
use globus_dsi_rest.Base.Runs.{done, stuck, ◌>>=◌, ◌>>◌}
use globus_dsi_rest.Transfer.ReadMultipart.{
  PartReader, PartCalls, sought, scan, match_byte, hold_back, use_data, use_scanned, read_loop,
  read_multipart,
}
use globus_dsi_rest.Transfer.ReadMultipart.Scan.{at}

-- A reader that holds back the start of a delimiter.
abbrev pub holding : {S : Type 0} → ℕ → Bytes → PartReader S → PartReader S
holding k start s = record (at k s) { buffered = start }

scan_next :
    {S : Type 0} (calls : PartCalls S) (d : Bytes) (s : PartReader S) (k c : ℕ) (start : Bytes)
    → k < length d
    → get_or d k 0 ≡ c
    → scan calls d (holding k start s) 0 (c ∷ [])
      ≡ done (record { reader = holding (k + 1) start s; scanned = 1 })
unfolding scan match_byte
scan_next calls d s k c start lt same =
    let t : ltb k (length d) ≡ true = lt→ltb k (length d) lt in
    let m : (c == get_or d k 0) ≡ true = eq→== c (get_or d k 0) (sym same) in
    rw (t, scan) (rw (m, match_byte) refl)

use_next :
    {S : Type 0} (calls : PartCalls S) (s : PartReader S) (k l c : ℕ) (start : Bytes)
    → 0 < k
    → k + 1 < l
    → use_data calls (holding (k + 1) start s) (c ∷ []) 1 l ≡ stuck
unfolding use_data hold_back
use_next calls s k l c start pos more =
    let a : (k + 1 == l) ≡ false = ne→== (k + 1) l (λ q. absurd (omega (arith, q, more))) in
    let b : ltb 0 (k + 1) ≡ true = lt→ltb 0 (k + 1) (omega arith) in
    let e : leb (k + 1) 1 ≡ false = ground arith in
    rw (a, use_data) (rw (b, use_data) (rw (e, hold_back) refl))

-- When the delimiter fits the local array, a byte of it or more has been matched outside of a header
-- section, and the next chunk is one more byte of it but not its last, then the call is stuck: it
-- subtracts the bytes that have matched from the one that was scanned.
pub read_multipart_stuck :
    {S : Type 0} (alloc : ℕ → Bool) (calls : PartCalls S) (s : PartReader S) (k c : ℕ)
    (start : Bytes)
    → length (sought (at 0 s)) < s.boundary_length + 9
    → 0 < k
    → k + 1 < length (sought (at 0 s))
    → get_or (sought (at 0 s)) k 0 ≡ c
    → read_multipart alloc calls (holding k start s) (c ∷ []) ≡ stuck
unfolding read_multipart read_loop use_scanned
read_multipart_stuck alloc calls s k c start fits pos more next =
    let l = length (sought (at 0 s)) in
    let t : ltb l (s.boundary_length + 9) ≡ true = lt→ltb _ _ fits in
    let scanned = scan_next calls (sought (at 0 s)) s k c start (omega (arith, more)) next in
    let used = use_next calls s k l c start pos more in
    rw (t, ◌>>◌) (rw (scanned, ◌>>=◌) (rw (used, use_scanned) refl))

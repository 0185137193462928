-- ===== src/Uri/Query/Build.antt =====
-- uri_add_query.c counts enough room, and writes one escaped pair for each parameter that is set.
use globus_dsi_rest.Base.{
  ℕ, suc, ◌+◌, ◌-◌, ◌≤◌, ◌<◌, ◌≡◌, sym, ◌∙◌, ap₂, Bool, true, [], ◌∷◌, ◌++◌, append_assoc,
  append-nil, inl, inr, List, Bytes, length, length-append, ok, arith, size_mod, add_size, sub_size,
  lt→ltb, Option-cases,
}
use globus_dsi_rest.KeyArray.{KeyArray, Pair, present, pairs, pairs-none, pairs_nil, pairs-some}
use globus_dsi_rest.Uri.Escape.Encode.{cursor, encode, length-encode, escape_lem, put_lem}
use globus_dsi_rest.Uri.Query.{pair_len, query_len, add_pair, add_pairs, build_query}

unfoldable pub encode_pair : Pair → Bytes
encode_pair p = encode p.0 ++ (b'=' ∷ encode p.1)

-- The pairs, the first behind `delim`, the others behind an ampersand.
unfoldable pub joined : ℕ → List Pair → Bytes
joined delim [] = []
joined delim (p ∷ ps) = delim ∷ (encode_pair p ++ joined b'&' ps)

unfoldable pub total_len : List Pair → ℕ
total_len [] = 0
total_len (p ∷ ps) = pair_len p + total_len ps

pub length-encode_pair : (p : Pair) → suc (length (encode_pair p)) ≤ pair_len p
unfolding encode_pair
length-encode_pair p =
    omega
      (arith, length-append (encode p.0) (b'=' ∷ encode p.1), length-encode p.0, length-encode p.1)

pub length-joined : (delim : ℕ) (ps : List Pair) → length (joined delim ps) ≤ total_len ps
unfolding joined total_len
length-joined delim [] = omega arith
length-joined delim (p ∷ ps) = omega (
  arith,
  length-append (encode_pair p) (joined b'&' ps),
  length-encode_pair p,
  length-joined b'&' ps,
)

pub query_len_lem :
    (kvs : KeyArray) (n : ℕ)
    → n + total_len (pairs kvs) < size_mod
    → query_len kvs n ≡ n + total_len (pairs kvs)
unfolding query_len total_len
query_len_lem [] n h = rw pairs_nil (omega arith)
query_len_lem (kv ∷ kvs) n h = elim (Option-cases (present kv)) [
  | inl e ↦ rw (e, pairs-none kv kvs e) (query_len_lem kvs n (rw (pairs-none kv kvs e) at h))
  | inr (p, e) ↦
      let h' : n + (pair_len p + total_len (pairs kvs)) < size_mod =
        rw (pairs-some kv kvs p e) at h in
      let s : add_size n (pair_len p) ≡ n + pair_len p = omega arith in
      rw (e, pairs-some kv kvs p e, s)
        (query_len_lem kvs (n + pair_len p) (omega arith) ∙ omega arith)
]

add_pair_lem :
    (delim : ℕ) (p : Pair) (w : Bytes) (a : ℕ)
    → pair_len p ≤ a
    → add_pair delim p (cursor w a)
      ≡ ok (cursor (w ++ (delim ∷ encode_pair p)) (a - suc (length (encode_pair p))))
unfolding add_pair encode_pair
add_pair_lem delim p w a h =
    let k = encode p.0 in
    let v = encode p.1 in
    let hk = length-encode p.0 in
    rw
      (
        put_lem delim w a (omega arith),
        escape_lem p.0 (w ++ (delim ∷ [])) (a - 1) (omega arith),
        put_lem b'=' ((w ++ (delim ∷ [])) ++ k) (a - 1 - length k) (omega arith),
        escape_lem p.1 (((w ++ (delim ∷ [])) ++ k) ++ (b'=' ∷ [])) (a - 1 - length k - 1)
            (omega arith),
      )
      (ap₂ (λ u b. ok (cursor u b)) (simp append_assoc) (omega (arith, length-append k (b'=' ∷ v))))

-- The second loop fails no assertion when the room of every parameter is there.
pub add_pairs_lem :
    (kvs : KeyArray) (delim : ℕ) (w : Bytes) (a : ℕ)
    → total_len (pairs kvs) ≤ a
    → add_pairs kvs delim (cursor w a)
      ≡ ok (cursor (w ++ joined delim (pairs kvs)) (a - length (joined delim (pairs kvs))))
unfolding add_pairs joined total_len
add_pairs_lem [] delim w a h =
    rw pairs_nil (ap₂ (λ u b. ok (cursor u b)) (sym (append-nil w)) (omega arith))
add_pairs_lem (kv ∷ kvs) delim w a h = elim (Option-cases (present kv)) [
  | inl e ↦
      rw (e, add_pairs, pairs-none kv kvs e)
        (add_pairs_lem kvs delim w a (rw (pairs-none kv kvs e) at h))
  | inr (p, e) ↦
      let h' : pair_len p + total_len (pairs kvs) ≤ a = rw (pairs-some kv kvs p e) at h in
      let k = suc (length (encode_pair p)) in
      let w' = w ++ (delim ∷ encode_pair p) in
      let rest = joined b'&' (pairs kvs) in
      rw (e, add_pairs, pairs-some kv kvs p e, add_pair_lem delim p w a (omega arith))
        (add_pairs_lem kvs b'&' w' (a - k) (omega (arith, length-encode_pair p))
          ∙ ap₂ (λ u b. ok (cursor u b)) (append_assoc w (delim ∷ encode_pair p) rest)
              (omega (arith, length-append (encode_pair p) rest)))
]

-- The room that is counted suffices, and the result is the URI with the escaped pairs behind it.
pub build_query_lem :
    (alloc : ℕ → Bool) (uri : Bytes) (kvs : KeyArray)
    → length uri + total_len (pairs kvs) + 1 < size_mod
    → alloc (length uri + total_len (pairs kvs) + 1) ≡ true
    → build_query alloc uri kvs ≡ ok (uri ++ joined b'?' (pairs kvs))
unfolding build_query
build_query_lem alloc uri kvs small got =
    let n = length uri + total_len (pairs kvs) in
    let count : query_len kvs (length uri) ≡ n = query_len_lem kvs (length uri) (omega arith) in
    let size : add_size n 1 ≡ n + 1 = omega arith in
    let left : sub_size (n + 1) (length uri) ≡ total_len (pairs kvs) + 1 = omega arith in
    rw
      (
        count,
        size,
        got,
        lt→ltb (length uri) (n + 1) (omega arith),
        left,
        add_pairs_lem kvs b'?' uri (total_len (pairs kvs) + 1) (omega arith),
      )
      (rw (
        lt→ltb 0 (total_len (pairs kvs) + 1 - length (joined b'?' (pairs kvs)))
          (omega (arith, length-joined b'?' (pairs kvs)))))

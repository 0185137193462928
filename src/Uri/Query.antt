-- ===== src/Uri/Query.antt =====
-- `globus_dsi_rest_uri_add_query` of uri_add_query.c.
pub mod Build
pub mod Parse
use globus_dsi_rest.Base.{
  ℕ, ◌+◌, ◌*◌, ◌≤◌, Bool, Option, none, some, [], ◌∷◌, ltb, leb, if◌then◌else◌, Bytes, length,
  Error, Result, ok, err, ◌>>=◌, ◌>>◌, check, add_size, sub_size,
}
use globus_dsi_rest.KeyArray.{KeyValue, KeyArray, Pair, present}
use globus_dsi_rest.Uri.Escape.{Cursor, put, escape, terminate}

-- The room that one parameter asks for.
abbrev pub pair_len : Pair → ℕ
pair_len p = 2 + 3 * length p.0 + 3 * length p.1

-- The first loop: `complete_uri_len` grows by the room of each parameter that is not a placeholder.
unfoldable pub query_len : KeyArray → ℕ → ℕ
query_len [] n = n
query_len (kv ∷ kvs) n =
    query_len kvs (elim (present kv) [ none ↦ n | some p ↦ add_size n (pair_len p) ])

-- `delim key = value`, escaped.
unfoldable pub add_pair : ℕ → Pair → Cursor → Result Cursor
add_pair delim p o = do o₁ ← put delim o; o₂ ← escape p.0 o₁; o₃ ← put b'=' o₂; escape p.1 o₃

-- The second loop, from `delim` and `p`.
unfoldable pub add_pairs : KeyArray → ℕ → Cursor → Result Cursor
unfolding add_pair
add_pairs [] delim o = ok o
add_pairs (kv ∷ kvs) delim o = elim (present kv) [
  | none ↦ add_pairs kvs delim o
  | some p ↦ add_pair delim p o >>= add_pairs kvs b'&'
]

unfoldable pub strdup : (ℕ → Bool) → Bytes → Result Bytes
strdup alloc s = if alloc (add_size (length s) 1) then ok s else err Error.memory

-- The branch for a non-empty array. `strcpy` needs the string and its NUL to fit.
unfoldable pub build_query : (ℕ → Bool) → Bytes → KeyArray → Result Bytes
unfolding query_len add_pairs terminate
build_query alloc uri kvs =
    let size = add_size (query_len kvs (length uri)) 1 in
    if alloc size
    then (check (ltb (length uri) size)
        >> (add_pairs kvs b'?' (record { written = uri; available = sub_size size (length uri) })
            >>= terminate))
    else err Error.memory

-- `query_parameters` may be null.
unfoldable pub uri_add_query : (ℕ → Bool) → Bytes → Option KeyArray → Result Bytes
unfolding strdup build_query
uri_add_query alloc uri none = strdup alloc uri
uri_add_query alloc uri (some kvs) =
    if ltb 0 (length kvs) then build_query alloc uri kvs else strdup alloc uri

-- ===== src/Uri/Escape.antt =====
-- `globus_i_dsi_rest_uri_escape` and `globus_dsi_rest_uri_escape` of uri_escape.c.
pub mod Encode
pub mod Decode
use globus_dsi_rest.Base.{
  ℕ, ◌-◌, ◌*◌, ◌/◌, ◌%◌, Bool, ◌||◌, ◌&&◌, [], ◌∷◌, ◌++◌, ltb, leb, ◌==◌, if◌then◌else◌, Bytes,
  codes, length, get_or, Error, Result, ok, err, ◌>>=◌, ◌>>◌, check, add_size,
}

-- The characters that the switch copies.
abbrev pub is_unreserved : ℕ → Bool
is_unreserved c =
    (leb b'a' c && leb c b'z')
    || (leb b'A' c && leb c b'Z')
    || (leb b'0' c && leb c b'9')
    || c == b'-'
    || c == b'_'
    || c == b'.'
    || c == b'~'

abbrev pub encoding_table : Bytes
encoding_table = codes "0123456789ABCDEF"

-- The bytes written through `*encodedp` so far, and `*availablep`.
pub record Cursor : Type 0 where
  pub written : Bytes
  pub available : ℕ

-- `assert(available > 0); *(encoded++) = c; available--;`
unfoldable pub put : ℕ → Cursor → Result Cursor
put c o = do
  check (ltb 0 o.available)
  ok (record { written = o.written ++ (c ∷ []); available = o.available - 1 })

-- One round of the loop: the switch over `*raw`.
unfoldable pub escape_char : ℕ → Cursor → Result Cursor
unfolding put
escape_char c o = if is_unreserved c then put c o else if c == b' ' then put b'+' o else do
  o₁ ← put b'%' o
  o₂ ← put (get_or encoding_table (c / 16 % 16) 0) o₁
  put (get_or encoding_table (c % 16) 0) o₂

unfoldable pub escape : Bytes → Cursor → Result Cursor
unfolding escape_char
escape [] o = ok o
escape (c ∷ s) o = do o' ← escape_char c o; escape s o'

-- `*p = 0`: the final NUL needs one byte of what is left.
unfoldable pub terminate : Cursor → Result Bytes
terminate o = do check (ltb 0 o.available); ok o.written

-- The string that the caller receives. `alloc n` says whether `malloc(n)` succeeds.
unfoldable pub uri_escape : (ℕ → Bool) → Bytes → Result Bytes
unfolding escape terminate
uri_escape alloc s =
    let elen = add_size (length s * 3) 1 in
    if alloc elen
    then (escape s (record { written = []; available = elen }) >>= terminate)
    else err Error.memory

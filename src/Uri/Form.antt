-- ===== src/Uri/Form.antt =====
-- `globus_i_dsi_rest_encode_form_data` of encode_form_data.c.
pub mod Laws
use globus_dsi_rest.Base.{
  ℕ, zero, suc, ◌+◌, ◌*◌, ◌≤◌, Bool, [], ◌∷◌, ltb, if◌then◌else◌, Bytes, length, Error, Result, ok,
  err, ◌>>=◌, add_size, deref,
}
use globus_dsi_rest.KeyArray.{KeyValue, KeyArray}
use globus_dsi_rest.Uri.Escape.{Cursor, put, escape, terminate}

-- The first loop; `strlen` reads through both pointers.
unfoldable pub form_len : KeyArray → ℕ → Result ℕ
form_len [] n = ok n
form_len (kv ∷ kvs) n = do
  k ← deref kv.key
  v ← deref kv.value
  form_len kvs (add_size n (3 * length k + 3 * length v + 2))

-- `key = value`, escaped. `form_len` counts what is left of the allocation, so a write without
-- room is one out of bounds.
unfoldable pub add_field : KeyValue → Cursor → Result Cursor
add_field kv o = do
  k ← deref kv.key
  o₁ ← escape k o
  o₂ ← put b'=' o₁
  v ← deref kv.value
  escape v o₂

-- The second loop from index `i`.
unfoldable pub add_fields : KeyArray → ℕ → Cursor → Result Cursor
unfolding add_field
add_fields [] i o = ok o
add_fields (kv ∷ kvs) i o = do
  o₁ ← (if ltb 0 i then put b'&' o else ok o)
  o₂ ← add_field kv o₁
  add_fields kvs (i + 1) o₂

unfoldable pub encode_form_data : (ℕ → Bool) → KeyArray → Result Bytes
unfolding form_len add_fields terminate
encode_form_data alloc kvs = do
  n ← form_len kvs 1
  if alloc n
      then (add_fields kvs 0 (record { written = []; available = n }) >>= terminate)
      else err Error.memory

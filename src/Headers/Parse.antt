-- ===== src/Headers/Parse.antt =====
-- `globus_i_dsi_rest_header_parse` of header_parse.c. A buffer is a C string: the bytes from its
-- start to the NUL behind it, of which the first `size` are the line.
pub mod Room
pub mod Line
pub mod Empty
use globus_dsi_rest.Base.{
  ℕ, suc, ◌+◌, ◌-◌, ◌*◌, ◌/◌, ◌%◌, Bool, true, not, ◌&&◌, ◌||◌, [], ◌∷◌, ◌++◌, ltb, ◌==◌,
  if◌then◌else◌, Bytes, length, take, drop, Error, Option, none, some, size_mod, add_size, sub_size,
}
use globus_dsi_rest.Base.Runs.{Run, done, stuck, ◌>>=◌, ◌>>◌, assert}
use globus_dsi_rest.KeyArray.{KeyValue, KeyArray, key_value}

-- The array's first `count` elements, and how many its memory holds (`none`: a null pointer).
pub record HeaderArray : Type 0 where
  pub entries : KeyArray
  pub capacity : Option ℕ

-- HEADER_ALLOC_CHUNK_SIZE
abbrev pub chunk : ℕ
chunk = 8

-- `sizeof(globus_dsi_rest_key_value_t)`: two pointers.
abbrev pub entry_size : ℕ
entry_size = 16

unfoldable pub must_grow : HeaderArray → Bool
must_grow h = elim h.capacity [
  | none ↦ true
  | some c ↦ not (ltb 0 (length h.entries) && not (length h.entries % chunk == 0))
]

-- The test and the `realloc`, whose failure is `none`.
unfoldable pub make_room : (ℕ → Bool) → HeaderArray → Option HeaderArray
unfolding must_grow
make_room alloc h =
    let room = (length h.entries + chunk) * entry_size % size_mod in
    if must_grow h
    then (if alloc room then some (record h { capacity = some (room / entry_size) }) else none)
    else some h

-- `memchr`
unfoldable pub index_of : ℕ → Bytes → Option ℕ
index_of c [] = none
index_of c (x ∷ xs) =
    let rest = index_of c xs in
    if x == c then some 0 else elim rest [ none ↦ none | some i ↦ some (suc i) ]

abbrev pub is_space : ℕ → Bool
is_space c = c == b' ' || c == b'\t' || c == b'\r' || c == b'\n'

-- The loop over the white space in front of the value, which runs to the string's end.
unfoldable pub skip_space : Bytes → Bytes
skip_space [] = []
skip_space (c ∷ s) = let rest = skip_space s in if is_space c then rest else c ∷ s

-- A NUL instead of the first byte `c`.
unfoldable pub cut_at : ℕ → Bytes → Bytes
cut_at c [] = []
cut_at c (x ∷ s) = let rest = cut_at c s in if x == c then [] else x ∷ rest

-- The two strings. No `malloc` is checked, and `snprintf` into no bytes leaves no string.
unfoldable pub parse_entry : (ℕ → Bool) → Bytes → ℕ → ℕ → Run KeyValue
unfolding skip_space cut_at
parse_entry alloc buffer size colon =
    let v = skip_space (drop (suc colon) buffer) in
    let room = add_size (sub_size size (length buffer - length v)) 1 in
    do
      assert (alloc (suc colon))
      assert (alloc room)
      assert (ltb 0 room)
      done (key_value (take colon buffer) (cut_at b'\r' (take (room - 1) v)))

-- `headers->key_value[headers->count++] = …`, which must lie in the array's memory.
unfoldable pub add_entry : KeyValue → HeaderArray → Run HeaderArray
add_entry kv h = elim h.capacity [
  | none ↦ stuck
  | some c ↦
      if ltb (length h.entries) c
      then done (record h { entries = h.entries ++ (kv ∷ []) })
      else stuck
]

-- The `globus_result_t` (`none` is GLOBUS_SUCCESS) and `*headers`.
pub record Parsed : Type 0 where
  pub result : Option Error
  pub headers : HeaderArray

unfoldable pub parse_line : (ℕ → Bool) → HeaderArray → Bytes → ℕ → Run Parsed
unfolding index_of parse_entry add_entry
parse_line alloc h buffer size = elim (index_of b':' (take size buffer)) [
  | none ↦ done (record { result = none; headers = h })
  | some colon ↦ if colon == 0 then done (record { result = some Error.parse; headers = h }) else do
    kv ← parse_entry alloc buffer size colon
    h' ← add_entry kv h
    done (record { result = none; headers = h' })
]

unfoldable pub header_parse : (ℕ → Bool) → HeaderArray → Bytes → ℕ → Run Parsed
unfolding make_room parse_line
header_parse alloc h buffer size = elim (make_room alloc h) [
  | none ↦ done (record { result = some Error.memory; headers = h })
  | some h' ↦ parse_line alloc h' buffer size
]

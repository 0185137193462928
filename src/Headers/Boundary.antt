-- ===== src/Headers/Boundary.antt =====
-- The boundary that header.c takes from a Content-Type of a multipart response.
pub mod Quoted
use globus_dsi_rest.Base.{
  ℕ, zero, suc, ◌+◌, ◌-◌, ◌≡◌, refl, Bool, true, false, ◌&&◌, Option, none, some, [], ◌∷◌, ◌++◌,
  List, ltb, ◌==◌, if◌then◌else◌, Bytes, length, take, drop, arith,
}
use globus_dsi_rest.Base.Runs.{Run, done, stuck, ◌>>=◌, some_of}
use globus_dsi_rest.KeyArray.{KeyValue, KeyArray}
use globus_dsi_rest.Headers.Response.{same_name, lower}
use globus_dsi_rest.Headers.Status.{is_blank}

-- `strncasecmp(s, p, strlen(p)) == 0`
unfoldable pub starts_with : Bytes → Bytes → Bool
starts_with [] s = true
starts_with (p ∷ ps) [] = false
starts_with (p ∷ ps) (c ∷ s) =
    let rest = starts_with ps s in if lower c == lower p then rest else false

-- `strcasestr`: the text from the first occurrence on.
unfoldable pub find_text : Bytes → Bytes → Option Bytes
unfolding starts_with
find_text p [] = if length p == 0 then some [] else none
find_text p (c ∷ s) =
    let rest = find_text p s in if starts_with p (c ∷ s) then some (c ∷ s) else rest

-- The loop over a quoted boundary from an index on: `boundary_end` is in front of the last quote that
-- no backslash precedes. A backslash at the end jumps over the NUL.
unfoldable pub quoted_end : ℕ → Option ℕ → Bytes → Run (Option ℕ)
quoted_end b end [] = done end
quoted_end b end (c ∷ []) = if c == b'\\' then stuck else done (if c == b'"' then some b else end)
quoted_end b end (c ∷ d ∷ s) =
    let next = quoted_end (b + 1) (if c == b'"' then some b else end) (d ∷ s) in
    let jump = quoted_end (b + 2) end s in if c == b'\\' then jump else next

-- The loop over another boundary: the index of the first white space.
unfoldable pub token_end : ℕ → Bytes → Option ℕ
unfolding is_blank
token_end b [] = none
token_end b (c ∷ s) = let rest = token_end (b + 1) s in if is_blank c then some b else rest

-- `boundary` and the index behind `boundary_end`, if that is set.
pub record Found : Type 0 where
  pub boundary : Bytes
  pub ends : Option ℕ

unfoldable pub boundary_in : Bytes → Run Found
unfolding quoted_end token_end
boundary_in [] = done (record { boundary = []; ends = none })
boundary_in (c ∷ s) = elim (c == b'"') [
  | true ↦ do e ← quoted_end 0 none s; done (record { boundary = s; ends = e })
  | false ↦ done (record { boundary = c ∷ s; ends = token_end 0 (c ∷ s) })
]

-- The part of a value behind "boundary=", without which a null pointer is moved and read.
unfoldable pub boundary_of : Bytes → Run Found
unfolding find_text boundary_in
boundary_of value =
    some_of (find_text (b'b' ∷ b'o' ∷ b'u' ∷ b'n' ∷ b'd' ∷ b'a' ∷ b'r' ∷ b'y' ∷ b'=' ∷ []) value)
    >>= λ s. boundary_in (drop 9 s)

-- Whether a header tells the boundary.
unfoldable pub is_multipart : KeyValue → Run Bool
unfolding same_name starts_with
is_multipart kv = do
  key ← some_of kv.key
  let content_type =
      same_name key
        (b'C' ∷ b'o' ∷ b'n' ∷ b't' ∷ b'e' ∷ b'n' ∷ b't' ∷ b'-' ∷ b'T' ∷ b'y' ∷ b'p' ∷ b'e' ∷ [])
  elim content_type [
    | false ↦ done false
    | true ↦ do
      value ← some_of kv.value
      done (
          starts_with (b'm' ∷ b'u' ∷ b'l' ∷ b't' ∷ b'i' ∷ b'p' ∷ b'a' ∷ b'r' ∷ b't' ∷ b'/' ∷ [])
            value)
  ]

-- The loop over the headers. The end of an earlier boundary lies in another string.
unfoldable pub find_boundary : Option Found → KeyArray → Run (Option Found)
unfolding is_multipart boundary_of
find_boundary found [] = done found
find_boundary found (kv ∷ kvs) = do
  b ← is_multipart kv
  elim b [
    | false ↦ find_boundary found kvs
    | true ↦ do
      value ← some_of kv.value
      f ← boundary_of value
      elim f.ends [
        | some n ↦ find_boundary (some f) kvs
        | none ↦ elim found [
          | none ↦ find_boundary (some f) kvs
          | some old ↦ elim old.ends [ some n ↦ stuck | none ↦ find_boundary (some f) kvs ]
        ]
      ]
  ]

-- The copy up to `boundary_end`, whose precision counts for nothing when it is negative.
unfoldable pub copy_boundary : Found → Bytes
copy_boundary f = elim f.ends [
  | none ↦ f.boundary
  | some n ↦ if n == 0 then f.boundary else take (n - 1) f.boundary
]

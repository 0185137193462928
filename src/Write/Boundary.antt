-- ===== src/Write/Boundary.antt =====
-- `globus_i_dsi_rest_multipart_boundary_prepare` of multipart_boundary_prepare.c, and its copy
-- `globus_l_dsi_rest_prepare_boundary` in write_multipart.c.
pub mod Laws
use globus_dsi_rest.Base.{
  ℕ, ◌+◌, Bool, true, false, Option, none, some, List, [], ◌∷◌, ◌++◌, ltb, if◌then◌else◌, Bytes,
  codes, length, Error, add_size,
}
use globus_dsi_rest.Base.Runs.{Run, done, stuck, ◌>>=◌}
use globus_dsi_rest.KeyArray.{KeyArray, Pair, present}

-- The result, `*boundaryp` and `*boundary_lengthp`.
pub record Prepared : Type 0 where
  pub result : Option Error
  pub boundary : Option Bytes
  pub boundary_length : ℕ

abbrev pub crlf : Bytes
crlf = codes "\r\n"

-- What `sprintf(p, "%s: %s\r\n", …)` writes for a header.
abbrev pub header_line : Pair → Bytes
header_line p = p.0 ++ (codes ": " ++ (p.1 ++ crlf))

-- The loop that counts the headers' room.
unfoldable pub headers_len : KeyArray → ℕ → ℕ
headers_len [] n = n
headers_len (kv ∷ kvs) n = headers_len kvs (elim (present kv) [
  | none ↦ n
  | some p ↦ add_size (add_size (add_size n (length p.0)) (length p.1)) 4
])

-- The loop that prints them, behind `out`.
unfoldable pub print_headers : KeyArray → Bytes → Bytes
print_headers [] out = out
print_headers (kv ∷ kvs) out =
    print_headers kvs (elim (present kv) [ none ↦ out | some p ↦ out ++ header_line p ])

-- `part_header` may be null.
unfoldable pub count_headers : Option KeyArray → ℕ → ℕ
unfolding headers_len
count_headers none n = n
count_headers (some kvs) n = headers_len kvs n

unfoldable pub add_headers : Option KeyArray → Bytes → Bytes
unfolding print_headers
add_headers none out = out
add_headers (some kvs) out = print_headers kvs out

-- `sprintf` into `boundary_length + 1` allocated bytes: the text and its NUL have to fit.
unfoldable pub print_into : (ℕ → Bool) → ℕ → Bytes → Run Prepared
print_into alloc boundary_length text =
    if alloc (add_size boundary_length 1)
    then (if ltb (length text) (add_size boundary_length 1)
        then done
            (record { result = none; boundary = some text; boundary_length = boundary_length })
        else stuck)
    else done
        (record { result = some Error.memory; boundary = none; boundary_length = boundary_length })

unfoldable pub boundary_prepare : (ℕ → Bool) → Bytes → Bool → Option KeyArray → Run Prepared
unfolding count_headers add_headers print_into
boundary_prepare alloc delimiter false part_header =
    print_into alloc (count_headers part_header (add_size 8 (length delimiter)))
      (add_headers part_header (codes "\r\n--" ++ (delimiter ++ crlf)) ++ crlf)
boundary_prepare alloc delimiter true part_header =
    print_into alloc (add_size 8 (length delimiter))
      (codes "\r\n--" ++ (delimiter ++ codes "--\r\n"))

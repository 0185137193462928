-- ===== src/Write/Boundary/Laws.antt =====
-- The text of a boundary, and that its length is counted exactly.
use globus_dsi_rest.Base.{
  ℕ, ◌+◌, ◌<◌, ◌≡◌, refl, sym, ◌∙◌, Bool, true, false, Option, none, some, List, [], ◌∷◌, ◌++◌,
  append-nil, append_assoc, lt→ltb, Bytes, codes, length, length-append, add_size, size_mod, arith,
  inl, inr, Option-cases,
}
use globus_dsi_rest.Base.Runs.{done}
use globus_dsi_rest.KeyArray.{KeyArray, Pair, present, pairs, pairs_nil, pairs-none, pairs-some}
use globus_dsi_rest.Write.Boundary.{
  crlf, header_line, headers_len, print_headers, count_headers, add_headers, print_into,
  boundary_prepare,
}

-- The lines of the headers that are set.
abbrev pub header_block : List Pair → Bytes
header_block [] = []
header_block (p ∷ ps) = header_line p ++ header_block ps

abbrev pub header_pairs : Option KeyArray → List Pair
header_pairs none = []
header_pairs (some kvs) = pairs kvs

-- RFC 2046: a delimiter line with the headers of the part that it opens and the empty line
-- behind them, or the line that closes the last part.
abbrev pub boundary_text : Bytes → Bool → Option KeyArray → Bytes
boundary_text d false hs =
    codes "\r\n--" ++ (d ++ (crlf ++ (header_block (header_pairs hs) ++ crlf)))
boundary_text d true hs = codes "\r\n--" ++ (d ++ codes "--\r\n")

length-header_line : (p : Pair) → length (header_line p) ≡ length p.0 + length p.1 + 4
length-header_line p =
    omega (arith, length-append p.0 (codes ": " ++ (p.1 ++ crlf)), length-append p.1 crlf)

print_headers_lem :
    (kvs : KeyArray) (out : Bytes) → print_headers kvs out ≡ out ++ header_block (pairs kvs)
unfolding print_headers
print_headers_lem [] out = rw pairs_nil (sym (append-nil out))
print_headers_lem (kv ∷ kvs) out = elim (Option-cases (present kv)) [
  | inl e ↦ rw (e, pairs-none kv kvs e) (print_headers_lem kvs out)
  | inr (p, e) ↦
      rw (e, pairs-some kv kvs p e)
        (print_headers_lem kvs (out ++ header_line p)
          ∙ append_assoc out (header_line p) (header_block (pairs kvs)))
]

headers_len_lem :
    (kvs : KeyArray) (n : ℕ)
    → n + length (header_block (pairs kvs)) < size_mod
    → headers_len kvs n ≡ n + length (header_block (pairs kvs))
unfolding headers_len
headers_len_lem [] n h = rw pairs_nil (omega arith)
headers_len_lem (kv ∷ kvs) n h = elim (Option-cases (present kv)) [
  | inl e ↦ rw (e, pairs-none kv kvs e) (headers_len_lem kvs n (rw (pairs-none kv kvs e) at h))
  | inr (p, e) ↦
      let h' : n + length (header_block (p ∷ pairs kvs)) < size_mod =
        rw (pairs-some kv kvs p e) at h in
      let l = length-append (header_line p) (header_block (pairs kvs)) in
      let m = length-header_line p in
      let s : add_size (add_size (add_size n (length p.0)) (length p.1)) 4
          ≡ n + length (header_line p) =
        omega arith in
      rw (e, pairs-some kv kvs p e, s)
        (headers_len_lem kvs (n + length (header_line p)) (omega arith) ∙ omega arith)
]

count_headers_lem :
    (hs : Option KeyArray) (n : ℕ)
    → n + length (header_block (header_pairs hs)) < size_mod
    → count_headers hs n ≡ n + length (header_block (header_pairs hs))
unfolding count_headers
count_headers_lem none n h = omega arith
count_headers_lem (some kvs) n h = headers_len_lem kvs n h

add_headers_lem :
    (hs : Option KeyArray) (out : Bytes)
    → add_headers hs out ≡ out ++ header_block (header_pairs hs)
unfolding add_headers
add_headers_lem none out = sym (append-nil out)
add_headers_lem (some kvs) out = print_headers_lem kvs out

print_into_lem :
    (alloc : ℕ → Bool) (n : ℕ) (printed text : Bytes)
    → n ≡ length text
    → printed ≡ text
    → length text + 1 < size_mod
    → alloc (length text + 1) ≡ true
    → print_into alloc n printed
      ≡ done (record { result = none; boundary = some text; boundary_length = length text })
unfolding print_into
print_into_lem alloc n printed text e f small got =
    let s : add_size (length text) 1 ≡ length text + 1 = omega arith in
    rw (e, f, s, got, lt→ltb (length text) (length text + 1) (omega arith))

-- When the length of the boundary's text is in range and the allocation succeeds, the text that is
-- printed is that of RFC 2046 with the headers that are set, the length that is reported is
-- exactly that of the text, and the text fits the allocation; for a boundary between parts and
-- for the final one.
pub boundary_prepare_lem :
    (alloc : ℕ → Bool) (d : Bytes) (final : Bool) (hs : Option KeyArray)
    → length (boundary_text d final hs) + 1 < size_mod
    → alloc (length (boundary_text d final hs) + 1) ≡ true
    → boundary_prepare alloc d final hs
      ≡ done (record {
        result = none;
        boundary = some (boundary_text d final hs);
        boundary_length = length (boundary_text d final hs);
      })
unfolding boundary_prepare
boundary_prepare_lem alloc d false hs small got =
    let lines = header_block (header_pairs hs) in
    let l = length-append d (crlf ++ (lines ++ crlf)) in
    let m = length-append lines crlf in
    let w : add_size 8 (length d) ≡ 8 + length d = omega arith in
    print_into_lem alloc _ _ (boundary_text d false hs)
      (rw w (count_headers_lem hs (8 + length d) (omega arith) ∙ omega arith))
      (rw (add_headers_lem hs (codes "\r\n--" ++ (d ++ crlf))) (simp append_assoc)) small got
boundary_prepare_lem alloc d true hs small got =
    print_into_lem alloc _ _ (boundary_text d true hs)
      (omega (arith, length-append d (codes "--\r\n"))) refl small got

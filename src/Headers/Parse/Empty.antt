-- ===== src/Headers/Parse/Empty.antt =====
-- An empty value in a header line whose `size` leaves out the CRLF, as read_multipart.c passes it
-- for the headers of a part.
use globus_dsi_rest.Base.{
  ℕ, suc, ◌+◌, ◌-◌, ◌<◌, ◌≡◌, ◌≢◌, refl, sym, ◌∙◌, ap, false, [], ◌∷◌, ◌++◌, length, length-append,
  Bool, Bool-cases, inl, inr, ap₂, ◌==◌, Bytes, take, drop, take-append_length, some, size_mod,
  add_size, sub_size, arith, All, ne→==, append_assoc,
}
use globus_dsi_rest.Base.Runs.{stuck}
use globus_dsi_rest.Headers.Parse.{
  HeaderArray, must_grow, make_room, index_of, skip_space, parse_entry, parse_line, header_parse,
}
use globus_dsi_rest.Headers.Parse.Line.{index_of_lem, drop-append_suc, crlf, length-name}

-- A name that is not empty and has no colon, with an empty value, in front of the CRLF that `size`
-- does not count and of a text that does not start with white space: when the array has room,
-- header_parse asks for the largest `size_t` of memory, and if that fails it writes through the
-- null pointer.
pub header_parse_wraps :
    (alloc : ℕ → Bool) (h : HeaderArray) (name next : Bytes)
    → must_grow h ≡ false
    → name ≢ []
    → All (λ c. c ≢ b':') name
    → skip_space next ≡ next
    → length name + 3 < size_mod
    → alloc (size_mod - 1) ≡ false
    → header_parse alloc h (name ++ (b':' ∷ crlf next)) (length name + 1) ≡ stuck
unfolding header_parse make_room parse_line parse_entry skip_space
header_parse_wraps alloc h name next full named plain trim small refused =
    let buffer : Bytes = name ++ (b':' ∷ crlf next) in
    let size : length (name ++ (b':' ∷ [])) ≡ length name + 1 = length-append name (b':' ∷ []) in
    let found : index_of b':' (take (length name + 1) buffer) ≡ some (length name) =
      ap₂ (λ k b. index_of b':' (take k b)) (sym size)
        (sym (append_assoc name (b':' ∷ []) (crlf next)))
      ∙ ap (index_of b':') (take-append_length (name ++ (b':' ∷ [])) (crlf next))
      ∙ index_of_lem b':' name [] plain in
    let pos : (length name == 0) ≡ false =
      ne→== (length name) 0 (λ e. omega (arith, length-name name named)) in
    let v : skip_space (drop (suc (length name)) buffer) ≡ next =
      ap skip_space (drop-append_suc name b':' (crlf next)) ∙ trim in
    let l : length buffer ≡ length name + suc (suc (suc (length next))) =
      length-append name (b':' ∷ crlf next) in
    let room : add_size (sub_size (length name + 1) (length buffer - length next)) 1
        ≡ size_mod - 1 =
      omega (arith, l) in
    elim (Bool-cases (alloc (suc (length name)))) [
      | inl a ↦
          rw (full, header_parse) (rw (found, parse_line) (rw (pos, v, a, room, refused) refl))
      | inr a ↦ rw (full, header_parse) (rw (found, parse_line) (rw (pos, v, a) refl))
    ]

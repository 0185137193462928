-- ===== src/Headers/Print/RoundTrip.antt =====
-- The headers that compute_headers.c prints are read back by header_parse.c.
use globus_dsi_rest.Base.{
  ℕ, suc, ◌+◌, ◌^◌, ◌<◌, ◌≡◌, refl, sym, ◌∙◌, ap, Bool, true, [], ◌∷◌, ◌++◌, List, map, length,
  length-append, append_assoc, append-nil, Bytes, codes, none, some, Option-cases, inl, inr,
  size_mod, arith, All,
}
use globus_dsi_rest.Base.Runs.{Run, done, stuck, ◌>>=◌}
use mathlib.Core.Path.{subst}
use native.Mathlib.Numerals.{add-one}
use globus_dsi_rest.KeyArray.{
  KeyArray, Pair, key_value, present, pairs, pairs-none, pairs-some, pairs_nil,
}
use globus_dsi_rest.Headers.Parse.{HeaderArray, header_parse, skip_space}
use globus_dsi_rest.Headers.Parse.Room.{IsValid}
use globus_dsi_rest.Headers.Parse.Line.{line, crlf, IsHeader, Appends, header_parse-Appends}
use globus_dsi_rest.Headers.Print.{Append, header_text, add_header, add_all, compute_headers}

-- The list of strings of the headers that are set.
pub texts : List Pair → List Bytes
texts = map (λ p. header_text p.0 p.1)

add_header_lem :
    (append : Append)
    → ((l : List Bytes) (s : Bytes) → append l s ≡ some (l ++ (s ∷ [])))
    → (slist : List Bytes) (name value : Bytes)
    → add_header append slist name value
      ≡ record { result = none; request_headers = slist ++ (header_text name value ∷ []) }
unfolding add_header
add_header_lem append ok slist name value = rw (ok slist (header_text name value), add_header) refl

add_all_lem :
    (append : Append)
    → ((l : List Bytes) (s : Bytes) → append l s ≡ some (l ++ (s ∷ [])))
    → (kvs : KeyArray) (slist : List Bytes)
    → add_all append kvs slist
      ≡ record { result = none; request_headers = slist ++ texts (pairs kvs) }
unfolding add_all add_header texts
add_all_lem append ok [] slist =
    rw (pairs_nil)
      (ap (λ l. record { result = none; request_headers = l }) (sym (append-nil slist)))
add_all_lem append ok (kv ∷ kvs) slist = elim (Option-cases (present kv)) [
  | inl e ↦ rw (e, add_all, pairs-none kv kvs e) (add_all_lem append ok kvs slist)
  | inr (p, e) ↦
      rw (e, add_all, pairs-some kv kvs p e)
        (rw (add_header_lem append ok slist p.0 p.1) (
          ap (λ h. add_all append kvs h.request_headers) (add_header_lem append ok slist p.0 p.1)
          ∙ add_all_lem append ok kvs (slist ++ (header_text p.0 p.1 ∷ []))
          ∙ ap (λ l. record { result = none; request_headers = l })
              (append_assoc slist (header_text p.0 p.1 ∷ []) (texts (pairs kvs)))))
]

-- libcurl passes each header line with its CRLF to the header callback.
unfoldable pub parse_all : (ℕ → Bool) → HeaderArray → List Bytes → Run HeaderArray
parse_all alloc h [] = done h
parse_all alloc h (s ∷ ss) = do
  parsed ← header_parse alloc h (s ++ crlf []) (length (s ++ crlf []))
  elim parsed.result [ none ↦ parse_all alloc parsed.headers ss | some e ↦ stuck ]

abbrev pub entries_of : List Pair → KeyArray
entries_of = map (λ p. key_value p.0 p.1)

abbrev pub IsLine : Pair → Type 0
IsLine p = IsHeader p × (length (line p) + 1 < size_mod)

-- What is read from the lines of some headers.
pub record Reads (h : HeaderArray) (ps : List Pair) (r : Run HeaderArray) : Type 0 where
  pub headers : HeaderArray
  pub returned : r ≡ done headers
  pub entries : headers.entries ≡ h.entries ++ entries_of ps
  pub valid : IsValid headers

header_text-line : (p : Pair) → header_text p.0 p.1 ++ crlf [] ≡ line p
unfolding header_text
header_text-line p = append_assoc p.0 (codes ": " ++ p.1) (crlf [])

module _ (alloc : ℕ → Bool) (ok : (n : ℕ) → alloc n ≡ true) where
  header_parse-text :
      (h : HeaderArray) (p : Pair)
      → IsValid h
      → IsLine p
      → length h.entries < 2 ^ 59
      → Appends h p (
          header_parse alloc h
            (header_text p.0 p.1 ++ crlf [])
            (length (header_text p.0 p.1 ++ crlf [])))
  unfolding skip_space
  header_parse-text h p v l count =
      rw (header_text-line p)
        (rw (append-nil (line p)) at (header_parse-Appends alloc h p [] v l.0 refl ok count l.1))

  pub parse_all-texts :
      (ps : List Pair) (h : HeaderArray)
      → IsValid h
      → All IsLine ps
      → length h.entries + length ps < 2 ^ 59
      → Reads h ps (parse_all alloc h (texts ps))
  unfolding parse_all texts
  parse_all-texts [] h v l count = record {
    headers = h;
    returned = refl;
    entries = sym (append-nil h.entries);
    valid = v;
  }
  parse_all-texts (p ∷ ps) h v l count =
      let a = header_parse-text h p v l.0 (omega arith) in
      let more : length a.headers.entries ≡ suc (length h.entries) =
        ap length a.entries
        ∙ length-append h.entries (key_value p.0 p.1 ∷ [])
        ∙ add-one (length h.entries) in
      let r = parse_all-texts ps a.headers a.valid l.1 (omega (arith, more)) in
      record {
        headers = r.headers;
        returned = rw (a.returned, parse_all) r.returned;
        entries =
            r.entries
            ∙ ap (λ t. t ++ entries_of ps) a.entries
            ∙ append_assoc h.entries (key_value p.0 p.1 ∷ []) (entries_of ps);
        valid = r.valid;
      }

-- When libcurl appends to its list, the list holds a text for each header that is set.
pub compute_headers_lem :
    (append : Append) (kvs : KeyArray)
    → ((l : List Bytes) (s : Bytes) → append l s ≡ some (l ++ (s ∷ [])))
    → compute_headers append [] (some kvs)
      ≡ record { result = none; request_headers = texts (pairs kvs) }
unfolding compute_headers
compute_headers_lem append kvs ok =
    rw (add_all_lem append ok kvs [], compute_headers) (add_all_lem append ok kvs [])

-- When the allocations succeed and libcurl appends to its list, the lines that compute_headers
-- prints for some headers in one line each are parsed into a valid array of exactly the headers
-- whose key and value are both set, in their order.
pub compute_headers-parse :
    (append : Append) (alloc : ℕ → Bool) (kvs : KeyArray)
    → ((l : List Bytes) (s : Bytes) → append l s ≡ some (l ++ (s ∷ [])))
    → ((n : ℕ) → alloc n ≡ true)
    → All IsLine (pairs kvs)
    → length (pairs kvs) < 2 ^ 59
    → Reads
        (record { entries = []; capacity = none })
        (pairs kvs)
        (parse_all alloc
          (record { entries = []; capacity = none })
          (compute_headers append [] (some kvs)).request_headers)
compute_headers-parse append alloc kvs appends ok lines count =
    subst
      (λ ls.
        Reads (record { entries = []; capacity = none }) (pairs kvs)
          (parse_all alloc (record { entries = []; capacity = none }) ls))
      (sym (ap (λ h. h.request_headers) (compute_headers_lem append kvs appends)))
      (parse_all-texts alloc ok (pairs kvs) (record { entries = []; capacity = none }) refl lines
        (omega arith))

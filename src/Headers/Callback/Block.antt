-- ===== src/Headers/Callback/Block.antt =====
-- The lines of a response in header.c: a status line, header lines and an empty line.
use globus_dsi_rest.Base.{
  ℕ, ◌+◌, ◌^◌, ◌<◌, ◌≡◌, ◌≢◌, refl, sym, ◌∙◌, ap, Bool, true, false, ◌&&◌, none, some, [], ◌∷◌,
  ◌++◌, append_assoc, append-nil, map, List, ◌==◌, Bytes, length, All, size_mod, arith, ne→==,
  eq→==, length-append,
}
use globus_dsi_rest.Base.Runs.{Run, done, ◌>>=◌}
use globus_dsi_rest.KeyArray.{KeyArray, key_value, Pair}
use globus_dsi_rest.Headers.Parse.{HeaderArray, header_parse, parse_line, index_of, skip_space}
use globus_dsi_rest.Headers.Parse.Room.{IsValid, make_room_lem}
use globus_dsi_rest.Headers.Parse.Line.{line, IsHeader, header_parse-Appends, crlf}
use globus_dsi_rest.Headers.Callback.{
  HeaderState, Handled, Responder, take_header, end_headers, header, is_end,
}

-- Whether all lines were taken, and the state.
pub record Fed {ℓ} (S : Type ℓ) : Type ℓ where
  pub all_taken : Bool
  pub state : HeaderState S

-- libcurl hands over line after line, and stops when another number is returned. `behind` is what lies
-- in memory behind each line.
unfoldable pub headers_in {ℓ} :
    {S : Type ℓ} → (ℕ → Bool) → Responder S → Bytes → HeaderState S → List Bytes → Run (Fed S)
unfolding header
headers_in alloc r behind s [] = done (record { all_taken = true; state = s })
headers_in alloc r behind s (l ∷ ls) = do
  h ← header alloc (some r) s l behind
  elim (h.total == length l) [
    | true ↦ headers_in alloc r behind h.state ls
    | false ↦ done (record { all_taken = false; state = h.state })
  ]

abbrev pub as_array : List Pair → KeyArray
as_array ps = map (λ p. key_value p.0 p.1) ps

abbrev pub header_lines : List Pair → List Bytes
header_lines ps = map line ps

-- A header whose name does not start a new line.
abbrev pub IsField : Pair → Type 0
IsField p = IsHeader p × All (λ c. c ≢ b'\r') p.0 × (length (line p) + 1 < size_mod)

is_end-name :
    (name rest : Bytes)
    → name ≢ []
    → All (λ c. c ≢ b'\r') name
    → is_end (name ++ (b':' ∷ rest)) ≡ false
unfolding is_end
is_end-name [] rest ne h = absurd (ne refl)
is_end-name (c ∷ []) rest ne h = ap (λ b. b && false) (ne→== c b'\r' h.0)
is_end-name (c ∷ (d ∷ name)) rest ne h = ap (λ b. b && d == b'\n') (ne→== c b'\r' h.0)

module _ {ℓ} {S : Type ℓ} (alloc : ℕ → Bool) (ok : (n : ℕ) → alloc n ≡ true) (r : Responder S)
    (behind : Bytes) (trimmed : skip_space behind ≡ behind) where
  -- A header line is appended.
  record Appended (s : HeaderState S) (p : Pair) (run : Run (Handled S)) : Type ℓ where
    headers : HeaderArray
    returned :
        run ≡ done (record { total = length (line p); state = record s { headers = headers } })
    entries : headers.entries ≡ s.headers.entries ++ (key_value p.0 p.1 ∷ [])
    valid : IsValid headers

  header-late :
      (s : HeaderState S) (l : Bytes)
      → s.response_code ≢ 0
      → header alloc (some r) s l behind ≡ take_header alloc (some r) s l behind
  unfolding header
  header-late s l ne =
      let t : (s.response_code == 0 && length s.response_reason == 0) ≡ false =
        ap (λ b. b && length s.response_reason == 0) (ne→== s.response_code 0 ne) in
      rw (t, header) refl

  header-Appended :
      (s : HeaderState S) (p : Pair)
      → s.response_code ≢ 0
      → IsValid s.headers
      → IsField p
      → length s.headers.entries < 2 ^ 59
      → Appended s p (header alloc (some r) s (line p) behind)
  unfolding take_header is_end
  header-Appended s p ne v (ph, name, small) few =
      let a = header_parse-Appends alloc s.headers p behind v ph trimmed ok few small in
      let e : is_end (line p ++ behind) ≡ false =
        ap is_end (append_assoc p.0 (b':' ∷ (b' ' ∷ (p.1 ++ (b'\r' ∷ (b'\n' ∷ []))))) behind)
        ∙ is_end-name p.0 ((b' ' ∷ (p.1 ++ (b'\r' ∷ (b'\n' ∷ [])))) ++ behind) ph.named name in
      record {
        headers = a.headers;
        returned = header-late s (line p) ne ∙ rw (a.returned, take_header) (rw (e, ◌>>=◌) refl);
        entries = a.entries;
        valid = a.valid;
      }

  -- The lines of some headers append them all.
  pub record Collected (s : HeaderState S) (ps : List Pair) (ls : List Bytes) : Type ℓ where
    pub headers : HeaderArray
    pub returned :
        headers_in alloc r behind s (header_lines ps ++ ls)
        ≡ headers_in alloc r behind (record s { headers = headers }) ls
    pub entries : headers.entries ≡ s.headers.entries ++ as_array ps
    pub valid : IsValid headers

  pub headers_in-Collected :
      (ps : List Pair) (ls : List Bytes) (s : HeaderState S)
      → s.response_code ≢ 0
      → IsValid s.headers
      → All IsField ps
      → length s.headers.entries + length ps < 2 ^ 59
      → Collected s ps ls
  unfolding headers_in
  headers_in-Collected [] ls s ne v hs few = record {
    headers = s.headers;
    returned = refl;
    entries = sym (append-nil s.headers.entries);
    valid = v;
  }
  headers_in-Collected (p ∷ ps) ls s ne v hs few =
      let a = header-Appended s p ne v hs.0 (omega (arith, few)) in
      let s' : HeaderState S = record s { headers = a.headers } in
      let t : (length (line p) == length (line p)) ≡ true =
        eq→== (length (line p)) (length (line p)) refl in
      let c = headers_in-Collected ps ls s' ne a.valid hs.1 (
        omega (
          arith,
          few,
          ap length a.entries,
          length-append s.headers.entries (key_value p.0 p.1 ∷ []),
        )) in
      record {
        headers = c.headers;
        returned = rw (a.returned, headers_in) (rw (t, ◌>>=◌) c.returned);
        entries =
            c.entries
            ∙ ap (λ e. e ++ as_array ps) a.entries
            ∙ append_assoc s.headers.entries (key_value p.0 p.1 ∷ []) (as_array ps);
        valid = c.valid;
      }

  header_parse-end :
      (h : HeaderArray)
      → IsValid h
      → length h.entries < 2 ^ 59
      → (h' : HeaderArray) × ((header_parse alloc h (crlf behind) 2
            ≡ done (record { result = none; headers = h' }))
          × (h'.entries ≡ h.entries))
  unfolding header_parse parse_line index_of
  header_parse-end h v few =
      let g = make_room_lem alloc h v few ok in (g.grown, (rw (g.made, header_parse) refl, g.same))

  -- The empty line, behind some headers.
  pub header-end :
      (s : HeaderState S)
      → s.response_code ≢ 0
      → IsValid s.headers
      → length s.headers.entries < 2 ^ 59
      → (h : HeaderArray) × ((header alloc (some r) s (crlf []) behind
            ≡ end_headers (some r) 2 (record s { headers = h }))
          × (h.entries ≡ s.headers.entries))
  unfolding take_header is_end
  header-end s ne v few =
      let (h, (q, same)) = header_parse-end s.headers v few in
      (h, (header-late s (crlf []) ne ∙ rw (q, take_header) refl, same))

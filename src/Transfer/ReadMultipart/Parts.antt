-- ===== src/Transfer/ReadMultipart/Parts.antt =====
-- The data of a part reach its callback, up to the delimiter.
use native.Mathlib.Numerals.{add-one}
use globus_dsi_rest.Base.{
  ℕ, zero, suc, ◌+◌, ◌-◌, ◌<◌, ◌≡◌, ◌≢◌, refl, sym, ap, ◌∙◌, Bool, true, false, none, some, List,
  [], ◌∷◌, ◌++◌, ltb, ◌==◌, Bytes, codes, length, get_elem?, set, take, drop, add_size, sub_size,
  All, append-nil, inl, inr, Bool-cases, lt→ltb, ne→==, eq→==, arith, length-append, drop_all,
  take-append_length,
}
use globus_dsi_rest.Base.Runs.{Run, done, ◌>>=◌, ◌>>◌, get_elem?-set_self}
use globus_dsi_rest.Headers.Parse.{HeaderArray}
use globus_dsi_rest.Transfer.ReadMultipart.{
  ReadingPart, PartReader, in_preface, sought, deliver_to, deliver_part, scan, close_part,
  next_part, pass_on, use_data, ReadEnd, use_scanned, read_loop, read_multipart, read_chunks,
}
use globus_dsi_rest.Transfer.ReadMultipart.Scan.{at, calls_of, scan_data, scan_delimiter}

-- Within a part, whose delimiters fit the local array, the first part's preface being over.
pub record InPart {S : Type 0} (s : PartReader S) (p : ReadingPart S) : Type 0 where
  pub current : get_elem? s.parts s.part_index ≡ some p
  pub begun : (s.part_index == in_preface) ≡ false
  pub fits : length (sought (at 0 s)) < s.boundary_length + 9

-- A reader when the current part's callback has gone on to `a`.
abbrev pub given : {S : Type 0} → PartReader S → ReadingPart S → S → PartReader S
given s p a = record s { parts = set s.parts s.part_index (record p { arg = a }) }

sought_lem :
    {S : Type 0} (s : PartReader S)
    → (s.part_index == in_preface) ≡ false
    → (d : Bytes) × (sought (at 0 s) ≡ 13 ∷ d)
unfolding sought
sought_lem s e = elim (Bool-cases (s.part_index == sub_size s.num_parts 1)) [
  | inl l ↦ (codes "\n--" ++ (s.boundary ++ codes "--\r\n"), rw (e, sought) (rw l refl))
  | inr l ↦ (codes "\n--" ++ (s.boundary ++ codes "\r\n"), rw (e, sought) (rw l refl))
]

elem_lt : {A : Type 0} → (i : ℕ) (xs : List A) (x : A) → get_elem? xs i ≡ some x → i < length xs
elem_lt i [] x e = absurd cc
elem_lt zero (y ∷ xs) x e = omega arith
elem_lt (suc i) (y ∷ xs) x e = omega (arith, elem_lt i xs x e)

module _ {S : Type 0} (alloc : ℕ → Bool) (f : S → Bytes → S) (g : S → HeaderArray → S) where
  deliver_lem :
      (s : PartReader S) (p : ReadingPart S) (bytes : Bytes)
      → get_elem? s.parts s.part_index ≡ some p
      → deliver_to (calls_of f g) s bytes ≡ done (given s p (f p.arg bytes))
  unfolding deliver_to
  deliver_lem s p bytes e = rw (e, deliver_to) refl

  -- A call that one round ends.
  round_lem :
      (s s' : PartReader S) (c : ℕ) (buffer : Bytes) (k n : ℕ)
      → length (sought (at 0 s)) < s.boundary_length + 9
      → scan (calls_of f g) (sought (at 0 s)) (at 0 s) 0 (c ∷ buffer)
        ≡ done (record { reader = at k s; scanned = n })
      → use_data (calls_of f g) (at k s) (c ∷ buffer) n (length (sought (at 0 s))) ≡ done s'
      → drop n (c ∷ buffer) ≡ []
      → read_multipart alloc (calls_of f g) (at 0 s) (c ∷ buffer)
        ≡ done (record { result = none; reader = s' })
  unfolding read_multipart read_loop use_scanned
  round_lem s s' c buffer k n fits e u z =
      let t : ltb (length (sought (at 0 s))) (s.boundary_length + 9) ≡ true = lt→ltb _ _ fits in
      let m : (suc (length buffer) == 0) ≡ false =
        ne→== (suc (length buffer)) 0 (λ q. absurd (omega (arith, q))) in
      rw (add-one (suc (length buffer)), read_multipart)
        (rw (m, read_loop) (rw (t, ◌>>◌) (rw (e, ◌>>=◌) (rw (u, use_scanned) (rw z refl)))))

  -- The data of a part.
  chunk_lem :
      (s : PartReader S) (p : ReadingPart S) (c : ℕ) (body : Bytes)
      → InPart s p
      → All (λ x. x ≢ 13) (c ∷ body)
      → read_multipart alloc (calls_of f g) (at 0 s) (c ∷ body)
        ≡ done (record { result = none; reader = at 0 (given s p (f p.arg (c ∷ body))) })
  unfolding use_data pass_on deliver_part scan
  chunk_lem s p c body i h =
      let (d, e) = sought_lem s i.begun in
      let n = 0 + length (c ∷ body) in
      let scanned : scan (calls_of f g) (sought (at 0 s)) (at 0 s) 0 (c ∷ body)
          ≡ done (record { reader = at 0 s; scanned = n }) =
        rw e (
          ap (scan (calls_of f g) (13 ∷ d) (at 0 s) 0) (sym (append-nil (c ∷ body)))
          ∙ scan_data f g s d (c ∷ body) [] 0 h) in
      let no : (0 == length (sought (at 0 s))) ≡ false =
        rw e (ne→== 0 (suc (length d)) (λ q. absurd (omega (arith, q)))) in
      let used : use_data (calls_of f g) (at 0 s) (c ∷ body) n (length (sought (at 0 s)))
          ≡ done (at 0 (given s p (f p.arg (c ∷ body)))) =
        rw (no, use_data)
          (rw (i.begun, deliver_part)
            (rw (deliver_lem (at 0 s) p (c ∷ body) i.current, ◌>>=◌) refl)) in
      round_lem s _ c body 0 n i.fits scanned used (drop_all n (c ∷ body) (omega arith))

  given_current :
      (s : PartReader S) (p : ReadingPart S) (a : S)
      → get_elem? s.parts s.part_index ≡ some p
      → get_elem? (given s p a).parts s.part_index ≡ some (record p { arg = a })
  given_current s p a e =
      get_elem?-set_self s.parts s.part_index (record p { arg = a })
        (elem_lt s.part_index s.parts p e)

  -- The reader behind a part.
  abbrev ended : PartReader S → ReadingPart S → Bytes → PartReader S
  ended s p body =
      let a = f p.arg body in next_part (given (given s p a) (record p { arg = a }) (f a []))

  use_end :
      (s : PartReader S) (p : ReadingPart S) (bytes buffer : Bytes) (l m : ℕ)
      → InPart s p
      → ltb l m ≡ true
      → take (m - l) buffer ≡ bytes
      → use_data (calls_of f g) (at l s) buffer m l ≡ done (ended (at l s) p bytes)
  unfolding use_data close_part
  use_end s p bytes buffer l m i longer whole =
      let yes : (l == l) ≡ true = eq→== l l refl in
      let a = f p.arg bytes in
      let first = deliver_lem (at l s) p bytes i.current in
      let second =
        deliver_lem (given (at l s) p a) (record p { arg = a }) []
          (given_current (at l s) p a i.current) in
      rw (yes, use_data)
        (rw (i.begun, close_part)
          (rw longer (rw (whole, ◌>>=◌) (rw (first, ◌>>=◌) (rw (second, ◌>>=◌) refl)))))

  -- The end of a part's data, with the delimiter.
  end_lem :
      (s : PartReader S) (p : ReadingPart S) (c : ℕ) (body : Bytes)
      → InPart s p
      → All (λ x. x ≢ 13) (c ∷ body)
      → read_multipart alloc (calls_of f g) (at 0 s) (c ∷ (body ++ sought (at 0 s)))
        ≡ done (record {
          result = none;
          reader = ended (at (length (sought (at 0 s))) s) p (c ∷ body);
        })
  unfolding use_data close_part
  end_lem s p c body i h =
      let (d, e) = sought_lem s i.begun in
      let l = length (sought (at 0 s)) in
      let n = 0 + length (c ∷ body) in
      let m = n + l in
      let scanned : scan (calls_of f g) (sought (at 0 s)) (at 0 s) 0 (c ∷ (body ++ sought (at 0 s)))
          ≡ done (record { reader = at l s; scanned = m }) =
        rw e (
          scan_data f g s d (c ∷ body) (13 ∷ d) 0 h
          ∙ scan_delimiter f g s (13 ∷ d) (13 ∷ d) 0 n refl (omega arith)) in
      let some_bytes : ltb l m ≡ true = lt→ltb l m (omega arith) in
      let whole : take (m - l) (c ∷ (body ++ sought (at 0 s))) ≡ c ∷ body =
        ap (λ k. take k (c ∷ (body ++ sought (at 0 s)))) {y = length (c ∷ body)} (omega arith)
        ∙ take-append_length (c ∷ body) (sought (at 0 s)) in
      let used : use_data (calls_of f g) (at l s) (c ∷ (body ++ sought (at 0 s))) m l
          ≡ done (ended (at l s) p (c ∷ body)) =
        use_end s p (c ∷ body) (c ∷ (body ++ sought (at 0 s))) l m i some_bytes whole in
      round_lem s _ c (body ++ sought (at 0 s)) l m i.fits scanned used (
        drop_all m (c ∷ (body ++ sought (at 0 s)))
          (omega (arith, length-append body (sought (at 0 s)))))

-- What a part's callback makes of chunk after chunk.
unfoldable pub received : {S : Type 0} → (S → Bytes → S) → S → List Bytes → S
received f a [] = a
received f a (c ∷ cs) = received f (f a c) cs

-- A chunk with some bytes, none of them CR.
abbrev pub IsPlain : Bytes → Type 0
IsPlain bytes = (0 < length bytes) × All (λ c. c ≢ 13) bytes

-- How a part ends: its callback has got some bytes and then their end, and the next part is current.
pub record PartEnds {S : Type 0} (f : S → Bytes → S) (s : PartReader S) (p : ReadingPart S)
    (chunks : List Bytes) (r : Run (ReadEnd S)) : Type 0 where
  pub ended : ReadEnd S
  pub returned : r ≡ done ended
  pub success : ended.result ≡ none
  pub got :
      get_elem? ended.reader.parts s.part_index
      ≡ some (record p { arg = f (received f p.arg chunks) [] })
  pub next : ended.reader.part_index ≡ add_size s.part_index 1

module _ {S : Type 0} (alloc : ℕ → Bool) (f : S → Bytes → S) (g : S → HeaderArray → S) where
  last_chunk :
      (s : PartReader S) (p : ReadingPart S) (bytes : Bytes)
      → InPart s p
      → IsPlain bytes
      → PartEnds f s p
          (bytes ∷ [])
          (read_chunks alloc (calls_of f g) (at 0 s) ((bytes ++ sought (at 0 s)) ∷ []))
  unfolding read_chunks received next_part
  last_chunk s p [] i h = absurd (omega (arith, h.0))
  last_chunk s p (c ∷ body) i h =
      let l = length (sought (at 0 s)) in
      let a = f p.arg (c ∷ body) in
      record {
        ended = record { result = none; reader = ended alloc f g (at l s) p (c ∷ body) };
        returned = rw (end_lem alloc f g s p c body i h.1, ◌>>=◌) refl;
        success = refl;
        got =
            given_current alloc f g (given (at l s) p a) (record p { arg = a }) (f a [])
              (given_current alloc f g (at l s) p a i.current);
        next = refl;
      }

-- In a part, when its callback ends and the delimiter fits: chunks without a CR, and a last one that
-- has the part's delimiter behind its bytes, are all read with success. The part's callback gets
-- exactly their bytes, chunk by chunk and without the delimiter, and then the end of the data, and
-- the next part becomes the current one.
pub read_chunks-PartEnds :
    {S : Type 0} (alloc : ℕ → Bool) (f : S → Bytes → S) (g : S → HeaderArray → S) (s : PartReader S)
    (p : ReadingPart S) (chunks : List Bytes) (bytes : Bytes)
    → InPart s p
    → All IsPlain chunks
    → IsPlain bytes
    → PartEnds f s p
        (chunks ++ (bytes ∷ []))
        (read_chunks alloc (calls_of f g) (at 0 s) (chunks ++ ((bytes ++ sought (at 0 s)) ∷ [])))
unfolding read_chunks received sought
read_chunks-PartEnds alloc f g s p [] bytes i hs h = last_chunk alloc f g s p bytes i h
read_chunks-PartEnds alloc f g s p ([] ∷ chunks) bytes i hs h = absurd (omega (arith, hs.0.0))
read_chunks-PartEnds alloc f g s p ((c ∷ body) ∷ chunks) bytes i hs h =
    let a = f p.arg (c ∷ body) in
    let rest =
      read_chunks-PartEnds alloc f g (given s p a) (record p { arg = a }) chunks bytes
        (record {
          current = given_current alloc f g s p a i.current;
          begun = i.begun;
          fits = i.fits;
        })
        hs.1 h in
    record {
      ended = rest.ended;
      returned = rw (chunk_lem alloc f g s p c body i hs.0.1, ◌>>=◌) rest.returned;
      success = rest.success;
      got = rest.got;
      next = rest.next;
    }

-- ===== src/Transfer/ReadMultipart/Scan.antt =====
-- The loop over a chunk, on bytes of a part and on its delimiter.
use native.Mathlib.Numerals.{add-one}
use globus_dsi_rest.Base.{
  ℕ, zero, suc, ◌+◌, ◌≤◌, ◌<◌, ◌≡◌, ◌≢◌, sym, ap, ◌∙◌, true, false, [], ◌∷◌, ◌++◌, ltb, ◌==◌,
  if◌then◌else◌, Bytes, length, get_or, drop, All, lt→ltb, ne→==, eq→==, arith, length-drop,
}
use globus_dsi_rest.Base.Runs.{done, ◌>>=◌}
use globus_dsi_rest.Headers.Parse.{HeaderArray}
use globus_dsi_rest.Transfer.ReadMultipart.{PartReader, PartCalls, flush_held, match_byte, scan}

-- A reader within the data of a part, with `k` bytes of a delimiter matched and none held back.
abbrev pub at : {S : Type 0} → ℕ → PartReader S → PartReader S
at k s = record s { need_header = false; match_counter = k; buffered = [] }

drop_cons :
    (k : ℕ) (d : Bytes) (c : ℕ) (cs : Bytes)
    → drop k d ≡ c ∷ cs
    → (k < length d) × (get_or d k 0 ≡ c) × (drop (suc k) d ≡ cs)
drop_cons zero [] c cs e = absurd cc
drop_cons zero (x ∷ d) c cs e = (omega arith, cc, cc)
drop_cons (suc k) [] c cs e = absurd cc
drop_cons (suc k) (x ∷ d) c cs e = let (a, b, f) = drop_cons k d c cs e in (omega (arith, a), b, f)

-- A part's callback that ends.
abbrev pub calls_of : {S : Type 0} → (S → Bytes → S) → (S → HeaderArray → S) → PartCalls S
calls_of f g = record { read = λ a b. done (f a b); respond = λ a h. done (g a h) }

module _ {S : Type 0} (f : S → Bytes → S) (g : S → HeaderArray → S) (s : PartReader S) where
  match_other :
      (d : Bytes) (c : ℕ)
      → (c == 13) ≡ false
      → match_byte (calls_of f g) (13 ∷ d) (at 0 s) c ≡ done (at 0 s)
  unfolding match_byte flush_held
  match_other d c ne = rw (ne, match_byte) (ap (λ b. done (if b then at 1 s else at 0 s)) ne)

  -- Bytes that are no CR leave a reader that has matched nothing.
  pub scan_data :
      (d body tail : Bytes) (n : ℕ)
      → All (λ c. c ≢ 13) body
      → scan (calls_of f g) (13 ∷ d) (at 0 s) n (body ++ tail)
        ≡ scan (calls_of f g) (13 ∷ d) (at 0 s) (n + length body) tail
  unfolding scan
  scan_data d [] tail n h = ap (λ k. scan (calls_of f g) (13 ∷ d) (at 0 s) k tail) (omega arith)
  scan_data d (c ∷ body) tail n h =
      let lt : ltb 0 (suc (length d)) ≡ true = lt→ltb 0 (suc (length d)) (omega arith) in
      let ne : (c == 13) ≡ false = ne→== c 13 h.0 in
      rw (lt, scan)
        (rw (match_other d c ne, ◌>>=◌)
          (scan_data d body tail (n + 1) h.1
            ∙ ap (λ k. scan (calls_of f g) (13 ∷ d) (at 0 s) k tail) (omega arith)))

  -- The bytes of a delimiter match.
  pub scan_delimiter :
      (d rest : Bytes) (k n : ℕ)
      → drop k d ≡ rest
      → k ≤ length d
      → scan (calls_of f g) d (at k s) n rest
        ≡ done (record { reader = at (length d) s; scanned = n + length rest })
  unfolding scan match_byte
  scan_delimiter d [] k n e h =
      let full : k ≡ length d = omega (arith, length-drop k d, ap length e) in
      rw (full) (ap (λ m. done (record { reader = at (length d) s; scanned = m })) (omega arith))
  scan_delimiter d (c ∷ rest) k n e h =
      let (lt, same, e') = drop_cons k d c rest e in
      let t : ltb k (length d) ≡ true = lt→ltb k (length d) lt in
      let m : (c == get_or d k 0) ≡ true = eq→== c (get_or d k 0) (sym same) in
      let more : drop (k + 1) d ≡ rest = rw (add-one k) e' in
      rw (t, scan)
        (rw (m, ◌>>=◌)
          (scan_delimiter d rest (k + 1) (n + 1) more (omega (arith, lt))
            ∙ ap (λ m. done (record { reader = at (length d) s; scanned = m })) (omega arith)))

-- ===== src/Headers/Boundary/Quoted.antt =====
-- The boundary of a Content-Type, with quotes and without.
use globus_dsi_rest.Base.{
  ℕ, zero, suc, ◌+◌, ◌-◌, ◌<◌, ◌≤◌, ◌≡◌, ◌≢◌, refl, ◌∙◌, ap, false, none, some, [], ◌∷◌, ◌++◌, ◌==◌,
  Bytes, length, take, All, arith, ne→==,
}
use globus_dsi_rest.Base.Runs.{done, ◌>>=◌}
use globus_dsi_rest.Headers.Status.{is_blank}
use globus_dsi_rest.Headers.Boundary.{quoted_end, token_end, boundary_in, copy_boundary}

-- A character that stands for itself between quotes.
abbrev pub IsQuotable : ℕ → Type 0
IsQuotable c = (c ≢ b'"') × (c ≢ b'\\')

quoted_end-append :
    (n : ℕ) (b : Bytes)
    → All IsQuotable b
    → quoted_end n none (b ++ (b'"' ∷ [])) ≡ done (some (n + length b))
unfolding quoted_end
quoted_end-append n [] h = ap (λ k. done (some k)) (omega arith)
quoted_end-append n (c ∷ []) h = rw (ne→== c b'\\' h.0.1, quoted_end) refl
quoted_end-append n (c ∷ (d ∷ b)) h =
    rw (ne→== c b'\\' h.0.1, quoted_end)
      (rw (ne→== c b'"' h.0.0)
        (quoted_end-append (n + 1) (d ∷ b) h.1 ∙ ap (λ k. done (some k)) (omega arith)))

take-append_short : (n : ℕ) (s t : Bytes) → n ≤ length s → take n (s ++ t) ≡ take n s
take-append_short zero s t h = refl
take-append_short (suc n) [] t h = absurd (omega arith)
take-append_short (suc n) (c ∷ s) t h = ap (λ x. c ∷ x) (take-append_short n s t (omega arith))

-- A boundary that is not empty and has no quote and no backslash, between two quotes the second of
-- which ends the value, loses its last character.
pub boundary_in_quoted :
    (b : Bytes)
    → All IsQuotable b
    → 0 < length b
    → (boundary_in (b'"' ∷ (b ++ (b'"' ∷ []))) >>= λ f. done (copy_boundary f))
      ≡ done (take (length b - 1) b)
unfolding boundary_in copy_boundary
boundary_in_quoted b h pos =
    let q = quoted_end-append 0 b h in
    let t : (0 + length b == 0) ≡ false = ne→== (0 + length b) 0 (λ e. omega arith) in
    let cut : take (0 + length b - 1) (b ++ (b'"' ∷ [])) ≡ take (length b - 1) b =
      take-append_short (0 + length b - 1) b (b'"' ∷ []) (omega arith)
      ∙ ap (λ n. take n b) (omega arith) in
    rw (q, boundary_in) (rw (t, ◌>>=◌, copy_boundary) (ap done cut))

token_end-none : (n : ℕ) (b : Bytes) → All (λ c. is_blank c ≡ false) b → token_end n b ≡ none
unfolding token_end
token_end-none n [] h = refl
token_end-none n (c ∷ b) h = rw (h.0, token_end) (token_end-none (n + 1) b h.1)

-- Without quotes and without white space the boundary is the rest of the value.
pub boundary_in_token :
    (c : ℕ) (b : Bytes)
    → c ≢ b'"'
    → All (λ c. is_blank c ≡ false) (c ∷ b)
    → (boundary_in (c ∷ b) >>= λ f. done (copy_boundary f)) ≡ done (c ∷ b)
unfolding boundary_in copy_boundary
boundary_in_token c b ne h =
    rw (ne→== c b'"' ne, boundary_in) (rw (token_end-none 0 (c ∷ b) h, ◌>>=◌, copy_boundary) refl)

-- ===== src/Setup/PrepareWrite/Boundary.antt =====
-- The boundary of a multipart body and its first delimiter are held by the part.
use globus_dsi_rest.Base.{
  ℕ, ◌+◌, ◌<◌, ◌≡◌, ◌⊎◌, inl, inr, refl, Bool, false, Option, none, some, [], ◌∷◌, ◌++◌, Bytes,
  length, size_mod, arith,
}
use globus_dsi_rest.Base.Runs.{done}
use globus_dsi_rest.KeyArray.{KeyArray}
use globus_dsi_rest.Write.Boundary.{boundary_prepare}
use globus_dsi_rest.Write.Boundary.Laws.{boundary_text, boundary_prepare_lem}
use globus_dsi_rest.Setup.Delimiter.{headers_search, given_boundary}
use globus_dsi_rest.Setup.Heap.{null, block, Heap}
use globus_dsi_rest.Setup.Heap.Accounts.{
  at, Accounts, Ends, Ends-pure, Ends-bind, Plenty, allocate, malloc-bind, lift-bind,
}
use globus_dsi_rest.Setup.WritePart.{PartHeaders, write_part, WriteParts, no_parts, one_part}
use globus_dsi_rest.Setup.PrepareWrite.{Env, add_content_type}
use globus_dsi_rest.Setup.PrepareWrite.Owns.{
  headers_hold, content_type, add_content_type_lem, headers_of,
}
use globus_dsi_rest.Setup.PrepareWrite.Multipart.{
  Chosen, copy_delimiter, own_boundary, own_type, new_boundary, choose_boundary, Current,
  no_current, first_boundary, start_parts,
}

-- The headers and the boundary of a multipart part with or without a Content-Type.
abbrev pub typed_headers : Env → KeyArray → Option Bytes → KeyArray
typed_headers env hs none = hs ++ (content_type (own_type env) ∷ [])
typed_headers env hs (some value) = hs

abbrev pub typed_boundary : Env → Option Bytes → Option Bytes
typed_boundary env none = some (own_boundary env)
typed_boundary env (some value) = given_boundary value

-- A boundary that is chosen, or left out.
pub record IsChosen (held : ℕ → ℕ) (names : KeyArray) (d : Option Bytes) (c : Chosen) (h : Heap)
    : Type 0 where
  pub success : c.result ≡ none
  pub headers : c.left.headers ≡ names
  pub delimiter :
      ((c.boundary ≡ null) × (d ≡ none))
      ⊎ ((n : ℕ) × (c.boundary ≡ block n) × (d ≡ some c.delimiter))
  pub accounts : Accounts (λ p. held p + headers_hold c.left p + at c.boundary p) h

module _ (env : Env) (plenty : Plenty env.grants) (held : ℕ → ℕ) where
  copy_delimiter_lem :
      (hs : PartHeaders) (d : Option Bytes) (h : Heap)
      → Accounts (λ p. held p + headers_hold hs p) h
      → Ends (IsChosen held hs.headers d) (copy_delimiter env.grants hs d h)
  unfolding copy_delimiter
  copy_delimiter_lem hs none h a = Ends-pure _ h (record {
    success = refl;
    headers = refl;
    delimiter = inl (refl, refl);
    accounts = λ p. omega (arith, a p);
  })
  copy_delimiter_lem hs (some d) h a =
      malloc-bind (λ p. held p + headers_hold hs p) h env.grants plenty _ a
        λ n h₁ b.
          Ends-pure _ h₁ (record {
            success = refl;
            headers = refl;
            delimiter = inr (n, refl, refl);
            accounts = b;
          })

  new_boundary_lem :
      (hs : PartHeaders) (h : Heap)
      → Accounts (λ p. held p + headers_hold hs p) h
      → Ends
          (IsChosen held (typed_headers env hs.headers none) (typed_boundary env none))
          (new_boundary env hs h)
  unfolding new_boundary
  new_boundary_lem hs h a =
      malloc-bind (λ p. held p + headers_hold hs p) h env.grants plenty _ a
        λ n h₁ b.
          Ends-bind (add_content_type env.grants hs (own_type env)) _ h₁
            (add_content_type_lem env.grants plenty (λ p. held p + at (block n) p) hs (own_type env)
              h₁ (λ p. omega (arith, b p)))
            λ added h₂ c. rw c.success (
              Ends-pure _ h₂ (record {
                success = refl;
                headers = c.headers;
                delimiter = inr (n, refl, refl);
                accounts = λ p. omega (arith, c.accounts p);
              }))

  pub choose_boundary_lem :
      (hs : PartHeaders) (type : Option Bytes) (h : Heap)
      → headers_search hs.headers ≡ done type
      → Accounts (λ p. held p + headers_hold hs p) h
      → Ends
          (IsChosen held (typed_headers env hs.headers type) (typed_boundary env type))
          (choose_boundary env hs h)
  unfolding choose_boundary
  choose_boundary_lem hs none h e a =
      lift-bind (headers_search hs.headers) none _ h e (new_boundary_lem hs h a)
  choose_boundary_lem hs (some value) h e a =
      lift-bind (headers_search hs.headers) (some value) _ h e
        (copy_delimiter_lem hs (given_boundary value) h a)

-- The headers of the first part.
abbrev pub first_headers : WriteParts → Option KeyArray
first_headers no_parts = none
first_headers (one_part x xs) = some (headers_of x)

-- With a boundary there is a first part, and its delimiter has a length in range.
abbrev pub FirstFits : Option Bytes → Option KeyArray → Type 0
FirstFits none hs = Unit
FirstFits (some d) none = ⊥
FirstFits (some d) (some hs) = length (boundary_text d false (some hs)) + 1 < size_mod

pub record IsStarted (held : ℕ → ℕ) (c : Current) (h : Heap) : Type 0 where
  pub success : c.result ≡ none
  pub accounts : Accounts (λ p. held p + at c.current_boundary p) h

module _ (grants : ℕ → Bool) (plenty : Plenty grants) (held : ℕ → ℕ) where
  first_boundary_lem :
      (d : Bytes) (xs : WriteParts) (h : Heap)
      → FirstFits (some d) (first_headers xs)
      → Accounts held h
      → Ends (IsStarted held) (first_boundary grants d xs h)
  unfolding first_boundary
  first_boundary_lem d no_parts h fits a = absurd fits
  first_boundary_lem d (one_part (write_part hs arg) xs) h fits a =
      let text = boundary_text d false (some hs.headers) in
      lift-bind (boundary_prepare (λ _. grants h.next) d false (some hs.headers))
        (record { result = none; boundary = some text; boundary_length = length text }) _
        (record h { next = h.next + 1 })
        (boundary_prepare_lem (λ _. grants h.next) d false (some hs.headers) fits (plenty h.next))
        (Ends-pure _ (record h { next = h.next + 1 })
          (record { success = refl; accounts = allocate held h a }))

  pub start_parts_lem :
      (c : Chosen) (d : Option Bytes) (xs : WriteParts) (h : Heap)
      → ((c.boundary ≡ null) × (d ≡ none))
        ⊎ ((n : ℕ) × (c.boundary ≡ block n) × (d ≡ some c.delimiter))
      → FirstFits d (first_headers xs)
      → Accounts held h
      → Ends (IsStarted held) (start_parts grants c xs h)
  unfolding start_parts
  start_parts_lem c d xs h (inl q) fits a =
      rw (q.0, start_parts)
        (Ends-pure (no_current none) h
          (record { success = refl; accounts = λ p. omega (arith, a p) }))
  start_parts_lem c d xs h (inr q) fits a =
      let fits' : FirstFits (some c.delimiter) (first_headers xs) = rw q.2 at fits in
      rw (q.1, start_parts) (first_boundary_lem c.delimiter xs h fits' a)

-- ===== src/Setup/PrepareWrite/Whole.antt =====
-- What the preparation of a part allocates is held by the part, multipart bodies included.
use mathlib.Core.Path.{subst}
use globus_dsi_rest.Base.{
  ℕ, ◌+◌, ◌≡◌, ◌⊎◌, ◌∙◌, refl, sym, ap, true, Option, none, some, [], ◌∷◌, ◌++◌, Bytes, codes, ok,
  arith,
}
use globus_dsi_rest.Base.Runs.{done, stuck, out_of_fuel}
use globus_dsi_rest.KeyArray.{KeyArray}
use globus_dsi_rest.Uri.Form.{encode_form_data}
use globus_dsi_rest.Setup.Delimiter.{headers_search}
use globus_dsi_rest.Setup.Heap.{Pointer, null, block, Heap, M, ◌>>=◌}
use globus_dsi_rest.Setup.Heap.Accounts.{
  at, Accounts, Ends, Ends-pure, Ends-bind, Plenty, malloc-bind, must_malloc-bind,
}
use globus_dsi_rest.Setup.WritePart.{
  Body, Parts, no_part, part, PartHeaders, WriteArg, num_parts, PartReady, PartsReady,
}
use globus_dsi_rest.Setup.CleanUp.Frees.{part_holds, parts_hold, arg_holds}
use globus_dsi_rest.Setup.CleanUp.Leaves.{PartIsNew, PartsIsNew, ArgIsNew}
use globus_dsi_rest.Setup.PrepareWrite.{Env, copy_headers, free_headers}
use globus_dsi_rest.Setup.PrepareWrite.Owns.{
  headers_hold, content_type, IsReady, ready, fresh, copy_headers_lem, prepare_block_lem,
  prepare_blocks_lem, prepare_write_json_lem, prepare_write_form_lem, prepare_gridftp_lem,
}
use globus_dsi_rest.Setup.PrepareWrite.Boundary.{
  typed_headers, typed_boundary, choose_boundary_lem, first_headers, FirstFits, start_parts_lem,
}
use globus_dsi_rest.Setup.PrepareWrite.Multipart.{
  Chosen, choose_boundary, start_parts, alloc_parts, finish_multipart, with_headers, prepare_source,
  prepare_parts, prepare_write_callbacks,
}

-- The headers of a part when it has been prepared.
abbrev pub prepared_headers : Env → KeyArray → Body → KeyArray
prepared_headers env hs (Body.write_json json) =
    hs ++ (content_type (codes "application/json; charset=UTF-8") ∷ [])
prepared_headers env hs (Body.write_form form) =
    hs ++ (content_type (codes "application/x-www-form-urlencoded") ∷ [])
prepared_headers env hs (Body.write_multipart ps) = elim (headers_search hs) [
  | done type ↦ typed_headers env hs type
  | stuck ↦ hs
  | out_of_fuel ↦ hs
]
prepared_headers env hs _ = hs

abbrev pub first_of : Env → Parts → Option KeyArray
first_of env no_part = none
first_of env (part hs src ps) = some (prepared_headers env hs src)

-- What can be sent: JSON that has a text, a form that has an encoding, and multipart bodies in which
-- no name is looked at that is a null pointer, the first delimiter has a length in range, and a
-- boundary has a part behind it.
unfoldable mutual
  pub IsSendable : Env → KeyArray → Body → Type 0
  IsSendable env hs Body.no_callback = Unit
  IsSendable env hs Body.custom = Unit
  IsSendable env hs (Body.write_block bytes) = Unit
  IsSendable env hs (Body.write_blocks blocks) = Unit
  IsSendable env hs (Body.write_json none) = ⊥
  IsSendable env hs (Body.write_json (some json)) = Unit
  IsSendable env hs (Body.write_form form) =
      (text : Bytes) × (encode_form_data (λ _. true) form ≡ ok text)
  IsSendable env hs (Body.write_gridftp_op a) = Unit
  IsSendable env hs (Body.write_multipart ps) =
      (type : Option Bytes) × (headers_search hs ≡ done type)
      × FirstFits (typed_boundary env type) (first_of env ps)
      × PartsAreSendable env ps

  pub PartsAreSendable : Env → Parts → Type 0
  PartsAreSendable env no_part = Unit
  PartsAreSendable env (part hs src ps) = IsSendable env hs src × PartsAreSendable env ps

-- Parts that are prepared.
pub record AreReady (held : ℕ → ℕ) (first : Option KeyArray) (r : PartsReady) (h : Heap)
    : Type 0 where
  pub success : r.result ≡ none
  pub whole : PartsIsNew r.ready
  pub headers : first_headers r.ready ≡ first
  pub accounts : Accounts (λ p. held p + parts_hold r.ready p) h

module _ (env : Env) (plenty : Plenty env.grants) (mutex : env.mutex_rc ≡ 0)
    (cond : env.cond_rc ≡ 0) where
  with_headers_lem :
      (held : ℕ → ℕ) (hs : KeyArray) (src : Body) (names : KeyArray)
      (prepare : PartHeaders → M PartReady) (h : Heap)
      → ((q : Pointer) (h' : Heap)
          → Accounts (λ p. held p + headers_hold (fresh hs q) p) h'
          → Ends (IsReady held names) (prepare (fresh hs q) h'))
      → Accounts held h
      → Ends (IsReady held names) (with_headers env.grants hs src prepare h)
  unfolding with_headers free_headers
  with_headers_lem held hs src names prepare h prepared a =
      Ends-bind (copy_headers env.grants hs) _ h (copy_headers_lem env.grants plenty held hs h a)
        λ o h₁ q. rw q.1 (
          Ends-bind (prepare (fresh hs q.0)) free_headers h₁
            (prepared q.0 h₁ (λ p. omega (arith, q.2 p)))
            λ r h₂ b. rw (b.success, free_headers) (Ends-pure r h₂ b))

  alloc_parts_lem :
      (n : ℕ) (held : ℕ → ℕ) (h : Heap)
      → Accounts held h
      → Ends
          (λ a h'. (m : ℕ) × (a ≡ block m) × Accounts (λ p. held p + at (block m) p) h')
          (alloc_parts env.grants n h)
  unfolding alloc_parts
  alloc_parts_lem n held h a =
      malloc-bind held h env.grants plenty _ a λ m h₁ b. Ends-pure _ h₁ (m, refl, b)

  finish_lem :
      (held : ℕ → ℕ) (arg m : ℕ) (ps : Parts) (c : Chosen) (d : Option Bytes) (r : PartsReady)
      (h : Heap)
      → ((c.boundary ≡ null) × (d ≡ none))
        ⊎ ((n : ℕ) × (c.boundary ≡ block n) × (d ≡ some c.delimiter))
      → FirstFits d (first_headers r.ready)
      → r.result ≡ none
      → PartsIsNew r.ready
      → Accounts
          (λ p.
            held p
            + headers_hold c.left p
            + at c.boundary p
            + at (block arg) p
            + at (block m) p
            + parts_hold r.ready p)
          h
      → Ends
          (IsReady held c.left.headers)
          (finish_multipart env.grants (block arg) ps c (block m) r h)
  unfolding finish_multipart PartIsNew ArgIsNew part_holds arg_holds
  finish_lem held arg m ps c d r h bound fits e w a =
      rw (e, finish_multipart)
        (Ends-bind (start_parts env.grants c r.ready) _ h
          (start_parts_lem env.grants plenty _ c d r.ready h bound fits a)
          λ current h₁ s. rw s.success (
            Ends-pure _ h₁ (record {
              success = refl;
              whole = (refl, w);
              headers = refl;
              accounts = λ p. omega (arith, s.accounts p);
            })))

mutual
  unfolding prepare_source prepare_parts IsSendable PartsAreSendable PartIsNew PartsIsNew ArgIsNew
      parts_hold part_holds arg_holds

  source_lem :
      (env : Env) (plenty : Plenty env.grants) (mutex : env.mutex_rc ≡ 0) (cond : env.cond_rc ≡ 0)
      (held : ℕ → ℕ) (src : Body) (hs : PartHeaders) (h : Heap)
      → IsSendable env hs.headers src
      → Accounts (λ p. held p + headers_hold hs p) h
      → Ends (IsReady held (prepared_headers env hs.headers src)) (prepare_source env hs src h)
  source_lem env plenty mutex cond held Body.no_callback hs h s a =
      Ends-pure _ h (ready held hs WriteArg.custom h tt (λ p. omega (arith, a p)))
  source_lem env plenty mutex cond held Body.custom hs h s a =
      Ends-pure _ h (ready held hs WriteArg.custom h tt (λ p. omega (arith, a p)))
  source_lem env plenty mutex cond held (Body.write_block bytes) hs h s a =
      prepare_block_lem env.grants plenty held hs bytes h a
  source_lem env plenty mutex cond held (Body.write_blocks blocks) hs h s a =
      prepare_blocks_lem env.grants plenty held hs blocks h a
  source_lem env plenty mutex cond held (Body.write_json none) hs h s a = absurd s
  source_lem env plenty mutex cond held (Body.write_json (some json)) hs h s a =
      prepare_write_json_lem env.grants plenty held hs json h a
  source_lem env plenty mutex cond held (Body.write_form form) hs h s a =
      prepare_write_form_lem env.grants plenty held hs form s.0 h s.1 a
  source_lem env plenty mutex cond held (Body.write_gridftp_op b) hs h s a =
      prepare_gridftp_lem env plenty mutex cond held hs b h a
  source_lem env plenty mutex cond held (Body.write_multipart ps) hs h (type, found, fits, sends)
        a =
      must_malloc-bind (λ p. held p + headers_hold hs p) h env.grants plenty _ a
        λ arg h₁ b.
          Ends-bind (choose_boundary env hs) _ h₁
            (choose_boundary_lem env plenty (λ p. held p + at (block arg) p) hs type h₁ found
              (λ p. omega (arith, b p)))
            λ c h₂ chosen. rw chosen.success (
              Ends-bind (alloc_parts env.grants (num_parts ps)) _ h₂
                (alloc_parts_lem env plenty mutex cond (num_parts ps) _ h₂ chosen.accounts)
                λ array h₃ q.
                  subst
                    (λ x.
                      Ends
                        (IsReady held (prepared_headers env hs.headers (Body.write_multipart ps)))
                        ((prepare_parts env ps >>= λ r.
                            finish_multipart env.grants (block arg) ps c x r)
                          h₃))
                    (sym q.1)
                    (Ends-bind (prepare_parts env ps) _ h₃
                      (parts_lem env plenty mutex cond _ ps h₃ sends q.2)
                      λ r h₄ done_parts.
                        let fits' : FirstFits (typed_boundary env type) (first_headers r.ready) =
                          subst (FirstFits (typed_boundary env type)) (sym done_parts.headers)
                            fits in
                        subst
                          (λ names.
                            Ends (IsReady held names)
                              (finish_multipart env.grants (block arg) ps c (block q.0) r h₄))
                          (chosen.headers ∙ sym (rw (found, prepared_headers)))
                          (finish_lem env plenty mutex cond held arg q.0 ps c
                            (typed_boundary env type) r h₄ chosen.delimiter fits' done_parts.success
                            done_parts.whole (λ p. omega (arith, done_parts.accounts p)))))

  parts_lem :
      (env : Env) (plenty : Plenty env.grants) (mutex : env.mutex_rc ≡ 0) (cond : env.cond_rc ≡ 0)
      (held : ℕ → ℕ) (ps : Parts) (h : Heap)
      → PartsAreSendable env ps
      → Accounts held h
      → Ends (AreReady held (first_of env ps)) (prepare_parts env ps h)
  parts_lem env plenty mutex cond held no_part h s a =
      Ends-pure _ h
        (record { success = refl; whole = tt; headers = refl; accounts = λ p. omega (arith, a p) })
  parts_lem env plenty mutex cond held (part hs src ps) h s a =
      Ends-bind (with_headers env.grants hs src λ copied. prepare_source env copied src) _ h
        (with_headers_lem env plenty mutex cond held hs src (prepared_headers env hs src)
          (λ copied. prepare_source env copied src) h
          (λ q h' b. source_lem env plenty mutex cond held src (fresh hs q) h' s.0 b) a)
        λ r h₁ one. rw one.success (
          Ends-bind (prepare_parts env ps) _ h₁
            (parts_lem env plenty mutex cond (λ p. held p + part_holds r.ready p) ps h₁ s.1
              one.accounts)
            λ rest h₂ many. Ends-pure _ h₂ (record {
              success = many.success;
              whole = (one.whole, many.whole);
              headers = ap some one.headers;
              accounts = λ p. omega (arith, many.accounts p);
            }))

-- When allocations succeed, the mutex and the condition are initialised, and the part can be sent,
-- its preparation succeeds, its headers become those of `prepared_headers`, and every block that was
-- allocated is held by the part exactly once or has been freed.
pub prepare_write_callbacks-IsReady :
    (env : Env)
    → Plenty env.grants
    → env.mutex_rc ≡ 0
    → env.cond_rc ≡ 0
    → (held : ℕ → ℕ) (hs : KeyArray) (src : Body) (h : Heap) → IsSendable env hs src
    → Accounts held h
    → Ends (IsReady held (prepared_headers env hs src)) (prepare_write_callbacks env hs src h)
unfolding prepare_write_callbacks
prepare_write_callbacks-IsReady env plenty mutex cond held hs src h s a =
    with_headers_lem env plenty mutex cond held hs src (prepared_headers env hs src)
      (λ copied. prepare_source env copied src) h
      (λ q h' b. source_lem env plenty mutex cond held src (fresh hs q) h' s b) a

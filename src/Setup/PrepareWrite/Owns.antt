-- ===== src/Setup/PrepareWrite/Owns.antt =====
-- What the preparation of a part's text, blocks or GridFTP operation allocates is held by the part.
use globus_dsi_rest.Base.{
  ℕ, ◌+◌, ◌≡◌, refl, Bool, true, none, some, List, [], ◌∷◌, ◌++◌, Bytes, codes, ok, arith,
}
use globus_dsi_rest.KeyArray.{KeyArray, KeyValue, key_value}
use globus_dsi_rest.Uri.Form.{encode_form_data}
use globus_dsi_rest.Gridftp.Op.{new_op}
use globus_dsi_rest.Gridftp.Prepare.{
  Section, prepare_write_gridftp_op_callback, prepare_write_lem, end_of_write,
}
use globus_dsi_rest.Setup.Heap.{Pointer, null, block, Heap}
use globus_dsi_rest.Setup.Heap.Accounts.{
  at, Accounts, Ends, allocate, Ends-pure, Ends-bind, Plenty, malloc-bind, must_malloc-bind,
  realloc-bind, lift-bind,
}
use globus_dsi_rest.Setup.WritePart.{
  MallocedHeader, PartHeaders, WritePart, write_part, WriteArg, block_arg, blocks_arg, op_arg,
  PartReady,
}
use globus_dsi_rest.Setup.CleanUp.Frees.{strings_hold, part_holds, arg_holds}
use globus_dsi_rest.Setup.CleanUp.Leaves.{PartIsNew, ArgIsNew}
use globus_dsi_rest.Setup.PrepareWrite.{
  Env, new_block, copy_headers, HeaderAdded, add_part_header, add_content_type, prepare_block,
  prepare_blocks, prepare_text, prepare_write_json_callback, encode_form, prepare_form_text,
  init_of, prepare_write_form_callback, prepare_gridftp_op,
}

abbrev pub headers_hold : PartHeaders → ℕ → ℕ
headers_hold hs p = at hs.key_value p + (strings_hold hs.malloced p + at hs.malloced_key_value p)

abbrev pub headers_of : WritePart → KeyArray
headers_of (write_part hs arg) = hs.headers

abbrev pub content_type : Bytes → KeyValue
content_type value = key_value (codes "Content-Type") value

-- A part that is prepared, with its headers, beside what is held already.
pub record IsReady (held : ℕ → ℕ) (names : KeyArray) (r : PartReady) (h : Heap) : Type 0 where
  pub success : r.result ≡ none
  pub whole : PartIsNew r.ready
  pub headers : headers_of r.ready ≡ names
  pub accounts : Accounts (λ p. held p + part_holds r.ready p) h

pub ready :
    (held : ℕ → ℕ) (hs : PartHeaders) (arg : WriteArg) (h : Heap)
    → ArgIsNew arg
    → Accounts (λ p. held p + headers_hold hs p + arg_holds arg p) h
    → IsReady held hs.headers (record { result = none; ready = write_part hs arg }) h
unfolding PartIsNew part_holds
ready held hs arg h w a = record {
  success = refl;
  whole = w;
  headers = refl;
  accounts = λ p. omega (arith, a p);
}

-- The headers that a copy starts with.
abbrev pub fresh : KeyArray → Pointer → PartHeaders
fresh hs p = record { headers = hs; key_value = p; malloced = []; malloced_key_value = null }

pub record Added (held : ℕ → ℕ) (names : KeyArray) (r : HeaderAdded) (h : Heap) : Type 0 where
  pub success : r.result ≡ none
  pub headers : r.left.headers ≡ names
  pub accounts : Accounts (λ p. held p + headers_hold r.left p) h

strings_hold-append :
    (ss : List MallocedHeader) (s : MallocedHeader) (p : ℕ)
    → strings_hold (ss ++ (s ∷ [])) p ≡ strings_hold ss p + (at s.key p + at s.value p)
strings_hold-append [] s p = omega arith
strings_hold-append (t ∷ ss) s p = omega (arith, strings_hold-append ss s p)

module _ (grants : ℕ → Bool) (plenty : Plenty grants) (held : ℕ → ℕ) where
  pub copy_headers_lem :
      (hs : KeyArray) (h : Heap)
      → Accounts held h
      → Ends
          (λ o h'. (q : Pointer) × (o ≡ some (fresh hs q)) × Accounts (λ p. held p + at q p) h')
          (copy_headers grants hs h)
  unfolding copy_headers
  copy_headers_lem [] h a = Ends-pure _ h (null, refl, λ p. omega (arith, a p))
  copy_headers_lem (kv ∷ kvs) h a =
      malloc-bind held h grants plenty _ a λ n h' b. Ends-pure _ h' (block n, refl, b)

  add_part_header_lem :
      (hs : PartHeaders) (k v : ℕ) (kv : KeyValue) (h : Heap)
      → Accounts (λ p. held p + headers_hold hs p + (at (block k) p + at (block v) p)) h
      → Ends
          (Added held (hs.headers ++ (kv ∷ [])))
          (add_part_header grants hs (record { key = block k; value = block v }) kv h)
  unfolding add_part_header
  add_part_header_lem hs k v kv h a =
      let rest : ℕ → ℕ = λ p.
        held p
        + at hs.key_value p
        + strings_hold hs.malloced p
        + (at (block k) p + at (block v) p) in
      realloc-bind rest h grants plenty _ hs.malloced_key_value (λ p. omega (arith, a p))
        λ n h₁ b.
          realloc-bind
            (λ p.
              held p
              + strings_hold hs.malloced p
              + (at (block k) p + at (block v) p)
              + at (block n) p)
            h₁ grants plenty _ hs.key_value (λ p. omega (arith, b p))
            λ m h₂ c. Ends-pure _ h₂ (record {
              success = refl;
              headers = refl;
              accounts = λ p. omega (
                arith,
                c p,
                strings_hold-append hs.malloced (record { key = block k; value = block v }) p,
              );
            })

  pub add_content_type_lem :
      (hs : PartHeaders) (value : Bytes) (h : Heap)
      → Accounts (λ p. held p + headers_hold hs p) h
      → Ends
          (Added held (hs.headers ++ (content_type value ∷ [])))
          (add_content_type grants hs value h)
  unfolding add_content_type
  add_content_type_lem hs value h a =
      malloc-bind (λ p. held p + headers_hold hs p) h grants plenty _ a
        λ k h₁ b.
          malloc-bind (λ p. held p + headers_hold hs p + at (block k) p) h₁ grants plenty _ b
            λ v h₂ c. add_part_header_lem hs k v (content_type value) h₂ λ p. omega (arith, c p)

  pub prepare_block_lem :
      (hs : PartHeaders) (bytes : Bytes) (h : Heap)
      → Accounts (λ p. held p + headers_hold hs p) h
      → Ends (IsReady held hs.headers) (prepare_block grants hs bytes h)
  unfolding prepare_block ArgIsNew arg_holds
  prepare_block_lem hs bytes h a =
      must_malloc-bind (λ p. held p + headers_hold hs p) h grants plenty _ a
        λ n h₁ b. Ends-pure _ h₁ (ready held hs (block_arg (block n) (new_block bytes)) h₁ tt b)

  pub prepare_blocks_lem :
      (hs : PartHeaders) (blocks : List Bytes) (h : Heap)
      → Accounts (λ p. held p + headers_hold hs p) h
      → Ends (IsReady held hs.headers) (prepare_blocks grants hs blocks h)
  unfolding prepare_blocks ArgIsNew arg_holds
  prepare_blocks_lem hs blocks h a =
      malloc-bind (λ p. held p + headers_hold hs p) h grants plenty _ a
        λ n h₁ b.
          must_malloc-bind (λ p. held p + headers_hold hs p + at (block n) p) h₁ grants plenty _ b
            λ m h₂ c.
              Ends-pure _ h₂
                (ready held hs (blocks_arg (block m) (block n) _) h₂ tt λ p. omega (arith, c p))

module _ (grants : ℕ → Bool) (plenty : Plenty grants) (held : ℕ → ℕ) where
  prepare_text_lem :
      (hs : PartHeaders) (n : ℕ) (bytes type : Bytes) (h : Heap)
      → Accounts (λ p. held p + headers_hold hs p + at (block n) p) h
      → Ends
          (IsReady held (hs.headers ++ (content_type type ∷ [])))
          (prepare_text grants hs (block n) bytes type h)
  unfolding prepare_text ArgIsNew arg_holds PartIsNew part_holds
  prepare_text_lem hs n bytes type h a =
      must_malloc-bind (λ p. held p + headers_hold hs p + at (block n) p) h grants plenty _ a
        λ m h₁ b.
          Ends-bind (add_content_type grants hs type) _ h₁
            (add_content_type_lem grants plenty (λ p. held p + (at (block n) p + at (block m) p)) hs
              type h₁ (λ p. omega (arith, b p)))
            λ added h₂ c. Ends-pure _ h₂ (record {
              success = c.success;
              whole = tt;
              headers = c.headers;
              accounts = λ p. omega (arith, c.accounts p);
            })

  pub prepare_write_json_lem :
      (hs : PartHeaders) (json : Bytes) (h : Heap)
      → Accounts (λ p. held p + headers_hold hs p) h
      → Ends
          (IsReady held
            (hs.headers ++ (content_type (codes "application/json; charset=UTF-8") ∷ [])))
          (prepare_write_json_callback grants hs (some json) h)
  unfolding prepare_write_json_callback
  prepare_write_json_lem hs json h a =
      malloc-bind (λ p. held p + headers_hold hs p) h grants plenty _ a
        λ n h₁ b. prepare_text_lem hs n json (codes "application/json; charset=UTF-8") h₁ b

  encode_form_lem :
      (form : KeyArray) (text : Bytes) (h : Heap)
      → encode_form_data (λ _. true) form ≡ ok text
      → Accounts held h
      → Ends
          (λ r h'. (r ≡ ok text) × Accounts (λ p. held p + at (block h.next) p) h')
          (encode_form grants form h)
  unfolding encode_form
  encode_form_lem form text h e a =
      rw (plenty h.next, encode_form)
        (Ends-pure (encode_form_data (λ _. true) form) (record h { next = h.next + 1 })
          (e, allocate held h a))

module _ (grants : ℕ → Bool) (plenty : Plenty grants) (held : ℕ → ℕ) where
  pub prepare_write_form_lem :
      (hs : PartHeaders) (form : KeyArray) (text : Bytes) (h : Heap)
      → encode_form_data (λ _. true) form ≡ ok text
      → Accounts (λ p. held p + headers_hold hs p) h
      → Ends
          (IsReady held
            (hs.headers ++ (content_type (codes "application/x-www-form-urlencoded") ∷ [])))
          (prepare_write_form_callback grants hs form h)
  unfolding prepare_write_form_callback prepare_form_text
  prepare_write_form_lem hs form text h e a =
      Ends-bind (encode_form grants form) _ h
        (encode_form_lem grants plenty (λ p. held p + headers_hold hs p) form text h e a)
        λ r h₁ q.
          rw (q.0, prepare_form_text)
            (prepare_text_lem grants plenty held hs h.next text
              (codes "application/x-www-form-urlencoded") h₁ q.1)

module _ (env : Env) (plenty : Plenty env.grants) (mutex : env.mutex_rc ≡ 0)
    (cond : env.cond_rc ≡ 0) where
  pub prepare_gridftp_lem :
      (held : ℕ → ℕ) (hs : PartHeaders) (a : Section) (h : Heap)
      → Accounts (λ p. held p + headers_hold hs p) h
      → Ends (IsReady held hs.headers) (prepare_gridftp_op env hs a h)
  unfolding prepare_gridftp_op ArgIsNew arg_holds
  prepare_gridftp_lem held hs a h acc =
      must_malloc-bind (λ p. held p + headers_hold hs p) h env.grants plenty _ acc
        λ n h₁ b.
          lift-bind (prepare_write_gridftp_op_callback (init_of env) a)
            (record { result = none; op = some (new_op a.offset (end_of_write a)) }) _ h₁
            (prepare_write_lem (init_of env) a
              (record { allocated = refl; mutex = mutex; cond = cond }))
            (Ends-pure _ h₁ (
              ready held hs (op_arg (block n) (new_op a.offset (end_of_write a))) h₁
                (refl, refl, refl) (λ p. omega (arith, b p))))

-- ===== src/Transfer/Download/Laws.antt =====
-- What of a response reaches the data read callback through write_data.c.
use globus_dsi_rest.Base.{
  ℕ, ◌+◌, ◌%◌, ◌<◌, ◌≡◌, refl, sym, ◌∙◌, ap, Bool, true, false, ◌&&◌, [], ◌∷◌, List, Bytes, length,
  leb, ◌==◌, Option, none, some, Error, inl, inr, if◌then◌else◌, size_mod, add_size, arith,
  Bool-cases, eq→==, Option-cases,
}
use globus_dsi_rest.Base.Runs.{Run, done, ◌>>=◌}
use globus_dsi_rest.Transfer.Request.{Request, latch, first_error, first_error-none}
use globus_dsi_rest.Transfer.Download.{
  Taken, Received, not_size, answer, deliver, write_data, download, reader_of,
}

-- What reaches the callback: chunk after chunk up to the first error, with the number of the bytes
-- that arrived.
pub record Fed {ℓ} (S : Type ℓ) : Type ℓ where
  pub error : Option Error
  pub state : S
  pub bytes : ℕ

unfoldable pub feed {ℓ} : {S : Type ℓ} → (S → Bytes → Taken S) → S → List Bytes → Fed S
feed take s [] = record { error = none; state = s; bytes = 0 }
feed take s (b ∷ bs) =
    let rest = feed take (take s b).state bs in
    elim (take s b).result [
      | none ↦ record { error = rest.error; state = rest.state; bytes = length b + rest.bytes }
      | some e ↦ record { error = some e; state = (take s b).state; bytes = length b }
    ]

-- A download that went as the chunks are fed.
pub record Downloads {ℓ} {S : Type ℓ} (request : Request) (fed : Fed S) (r : Run (Received S))
    : Type ℓ where
  pub received : Received S
  pub returned : r ≡ done received
  pub state : received.state ≡ fed.state
  pub result : received.request.result ≡ first_error request.result fed.error
  pub counted :
      received.request.response_bytes_downloaded
      ≡ (request.response_bytes_downloaded + fed.bytes) % size_mod

module _ {ℓ} {S : Type ℓ} (take : S → Bytes → Taken S) (s : S) (b : Bytes) (bs : List Bytes) where
  feed-none :
      (take s b).result ≡ none
      → feed take s (b ∷ bs) ≡ record {
        error = (feed take (take s b).state bs).error;
        state = (feed take (take s b).state bs).state;
        bytes = length b + (feed take (take s b).state bs).bytes;
      }
  unfolding feed
  feed-none e = rw (e, feed) refl

  feed-some :
      {x : Error}
      → (take s b).result ≡ some x
      → feed take s (b ∷ bs) ≡ record { error = some x; state = (take s b).state; bytes = length b }
  unfolding feed
  feed-some e = rw (e, feed) refl

not_size_lem : (n : ℕ) → (not_size n == n) ≡ false
not_size_lem n = ground arith

module _ {ℓ} {S : Type ℓ} (gridftp : Bool) (take : S → Bytes → Taken S) where
  -- The callback behind the guard on error responses.
  abbrev pub guarded : ℕ → S → Bytes → Taken S
  guarded code s b =
      if leb 300 code && gridftp
      then record { result = some Error.unexpected_data; state = s }
      else take s b

  deliver_lem :
      (code : ℕ) (s : S) (b : Bytes)
      → deliver (some (reader_of gridftp take)) code s b ≡ done (guarded code s b)
  unfolding deliver
  deliver_lem code s b = elim (Bool-cases (leb 300 code && gridftp)) [
    | inl e ↦ rw (e, deliver) refl
    | inr e ↦ rw (e, deliver) refl
  ]

  -- The request after a chunk.
  abbrev after : Request → S → Bytes → Request
  after request s b = record request {
    result = first_error request.result (guarded request.response_code s b).result;
    response_bytes_downloaded = add_size request.response_bytes_downloaded (length b);
  }

  write_data_lem :
      (request : Request) (s : S) (b : Bytes)
      → write_data (some (reader_of gridftp take)) request s b
        ≡ done (record {
          data_processed = answer (guarded request.response_code s b).result (length b);
          request = after request s b;
          state = (guarded request.response_code s b).state;
        })
  unfolding write_data latch
  write_data_lem request s b =
      ap
        (λ r. r >>= λ taken. done (record {
          data_processed = answer taken.result (length b);
          request = record request {
            result = first_error request.result taken.result;
            response_bytes_downloaded = add_size request.response_bytes_downloaded (length b);
          };
          state = taken.state;
        }))
        (deliver_lem request.response_code s b)

  download_next :
      (request : Request) (s : S) (b : Bytes) (bs : List Bytes)
      → (guarded request.response_code s b).result ≡ none
      → download (some (reader_of gridftp take)) request s (b ∷ bs)
        ≡ download
            (some (reader_of gridftp take))
            (after request s b)
            (guarded request.response_code s b).state
            bs
  unfolding download
  download_next request s b bs e =
      rw (write_data_lem request s b, download)
        (let t : (answer (guarded request.response_code s b).result (length b) == length b) ≡ true =
            ap (λ o. answer o (length b) == length b) e ∙ eq→== (length b) (length b) refl in
          rw (t, ◌>>=◌) refl)

  download_stop :
      (request : Request) (s : S) (b : Bytes) (bs : List Bytes) {x : Error}
      → (guarded request.response_code s b).result ≡ some x
      → download (some (reader_of gridftp take)) request s (b ∷ bs)
        ≡ write_data (some (reader_of gridftp take)) request s b
  unfolding download
  download_stop request s b bs e =
      rw (write_data_lem request s b, download)
        (let t : (answer (guarded request.response_code s b).result (length b) == length b)
              ≡ false =
            ap (λ o. answer o (length b) == length b) e ∙ not_size_lem (length b) in
          rw (t, ◌>>=◌) refl)

  -- With a data read callback that ends, the chunks of a response reach it in order up to the first
  -- error, which stops libcurl and is the request's result unless that held an error before; no
  -- byte that arrived is left out of the count. A GridFTP callback gets nothing of an error response.
  pub download-Downloads :
      (request : Request) (s : S) (bs : List Bytes)
      → request.response_bytes_downloaded < size_mod
      → Downloads request
          (feed (guarded request.response_code) s bs)
          (download (some (reader_of gridftp take)) request s bs)
  unfolding download feed
  download-Downloads request s [] small = record {
    received = record { data_processed = 0; request = request; state = s };
    returned = refl;
    state = refl;
    result = sym (first_error-none request.result);
    counted = omega arith;
  }
  download-Downloads request s (b ∷ bs) small =
      let g = guarded request.response_code in
      elim (Option-cases (g s b).result) [
        | inl e ↦
            let r = download-Downloads (after request s b) (g s b).state bs (omega arith) in
            let f = feed-none g s b bs e in
            record {
              received = r.received;
              returned = download_next request s b bs e ∙ r.returned;
              state = r.state ∙ sym (ap (λ t. t.state) f);
              result =
                  r.result
                  ∙ ap (λ o. first_error o (feed g (g s b).state bs).error)
                      (ap (first_error request.result) e ∙ first_error-none request.result)
                  ∙ sym (ap (λ t. first_error request.result t.error) f);
              counted = omega (arith, r.counted, ap (λ t. t.bytes) f);
            }
        | inr (x, e) ↦
            let f = feed-some g s b bs e in
            record {
              received = record {
                data_processed = answer (g s b).result (length b);
                request = after request s b;
                state = (g s b).state;
              };
              returned = download_stop request s b bs e ∙ write_data_lem request s b;
              state = sym (ap (λ t. t.state) f);
              result =
                  ap (first_error request.result) e
                  ∙ sym (ap (λ t. first_error request.result t.error) f);
              counted = omega (arith, ap (λ t. t.bytes) f);
            }
      ]

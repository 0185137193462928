-- ===== src/Transfer/Upload.antt =====
-- `globus_i_dsi_rest_read_data` of read_data.c, which libcurl calls for the bytes of a request's body.
use globus_dsi_rest.Base.{
  ℕ, zero, suc, ◌+◌, ◌*◌, ◌%◌, ◌<◌, ◌≡◌, refl, sym, ◌∙◌, ap, true, false, [], ◌∷◌, ◌++◌, Bytes,
  length, length-append, append_assoc, append-nil, Option, none, some, Error, inl, inr, ◌==◌,
  size_mod, add_size, arith, ==→eq, ==→ne, Bool-cases,
}
use globus_dsi_rest.Base.Runs.{Run, done, out_of_fuel, ◌>>=◌}
use globus_dsi_rest.Write.Source.{Pull, Delivers, Source}
use globus_dsi_rest.Transfer.Request.{Request, latch}

-- The bytes in libcurl's buffer, whose number is returned, the request, and the state of the data
-- write callback.
pub record Sent {ℓ} (S : Type ℓ) : Type ℓ where
  pub processed : Bytes
  pub request : Request
  pub state : S

-- A null pointer for the callback is `none`. The error's object is made outside the library.
unfoldable pub read_data {ℓ} : {S : Type ℓ} → Option (Pull S) → Request → S → ℕ → ℕ → Run (Sent S)
unfolding latch
read_data none request s size nitems =
    done
      (record { processed = []; request = latch (some Error.unexpected_data) request; state = s })
read_data (some pull) request s size nitems = do
  reply ← pull s (size * nitems % size_mod)
  done (record {
    processed = reply.copied;
    request = latch reply.result (record request {
      request_bytes_uploaded = add_size request.request_bytes_uploaded (length reply.copied);
    });
    state = reply.state;
  })

-- libcurl calls for bytes until it gets none.
unfoldable pub upload {ℓ} : {S : Type ℓ} → Pull S → ℕ → Request → S → ℕ → Bytes → Run (Sent S)
unfolding read_data
upload pull zero request s n out = out_of_fuel
upload pull (suc fuel) request s n out = do
  sent ← read_data (some pull) request s 1 n
  elim (length sent.processed == 0) [
    | true ↦ done (record { processed = out; request = sent.request; state = sent.state })
    | false ↦ upload pull fuel sent.request sent.state n (out ++ sent.processed)
  ]

-- A complete upload of a content.
pub record Uploads {S : Type 0} (content : Bytes) (request : Request) (out : Bytes)
    (r : Run (Sent S)) : Type 0 where
  pub sent : Sent S
  pub returned : r ≡ done sent
  pub complete : sent.processed ≡ out ++ content
  pub success : sent.request.result ≡ none
  pub counted :
      sent.request.request_bytes_uploaded
      ≡ (request.request_bytes_uploaded + length content) % size_mod

length-nil : (xs : Bytes) → length xs ≡ 0 → xs ≡ []
length-nil [] e = refl
length-nil (x ∷ xs) e = absurd (omega arith)

module _ {S : Type 0} (pull : Pull S) (src : Source pull) (n : ℕ) (pos : 0 < n)
    (small : n < size_mod) where
  -- One call of a callback that meets its contract.
  read_data_lem :
      (request : Request) (s : S) (d : Delivers src.content src.Good s n (pull s n))
      → request.result ≡ none
      → read_data (some pull) request s 1 n
        ≡ done (record {
          processed = d.reply.copied;
          request = record request {
            result = none;
            request_bytes_uploaded =
                add_size request.request_bytes_uploaded (length d.reply.copied);
          };
          state = d.reply.state;
        })
  unfolding read_data latch
  read_data_lem request s d fine =
      let all : 1 * n % size_mod ≡ n = omega arith in
      rw (all, read_data) (rw (d.returned, ◌>>=◌) (rw (d.success, fine) refl))

  -- Where a source meets the contract of a write callback, libcurl's calls of read_data with a
  -- buffer that is not empty come to an end within as many calls as there are bytes, and one more;
  -- they hand out exactly the source's content, in order, with no error, and count its bytes.
  pub upload-Uploads :
      (fuel : ℕ) (request : Request) (s : S) (out : Bytes)
      → src.Good s
      → request.result ≡ none
      → length (src.content s) < fuel
      → Uploads (src.content s) request out (upload pull fuel request s n out)
  unfolding upload
  upload-Uploads zero request s out good fine enough = absurd (omega arith)
  upload-Uploads (suc fuel) request s out good fine enough =
      let d = src.delivers s n good pos in
      let sum : length (src.content s)
          ≡ length d.reply.copied + length (src.content d.reply.state) =
        ap length d.prefix ∙ length-append d.reply.copied (src.content d.reply.state) in
      elim (Bool-cases (length d.reply.copied == 0)) [
        | inl e ↦
            let nothing : src.content s ≡ [] =
              d.progress (length-nil d.reply.copied (==→eq (length d.reply.copied) 0 e)) in
            rw (read_data_lem request s d fine, upload)
              (rw (e, ◌>>=◌)
                (record {
                  sent = record {
                    processed = out;
                    request = record request {
                      result = none;
                      request_bytes_uploaded =
                          add_size request.request_bytes_uploaded (length d.reply.copied);
                    };
                    state = d.reply.state;
                  };
                  returned = refl;
                  complete = sym (append-nil out) ∙ ap (λ t. out ++ t) (sym nothing);
                  success = refl;
                  counted = omega (arith, sum, ap length nothing);
                }))
        | inr e ↦
            let ne = ==→ne (length d.reply.copied) 0 e in
            let next = record request {
              result = none;
              request_bytes_uploaded =
                  add_size request.request_bytes_uploaded (length d.reply.copied);
            } in
            let r =
              upload-Uploads fuel next d.reply.state (out ++ d.reply.copied) d.good refl
                (omega (arith, sum, ne, enough)) in
            rw (read_data_lem request s d fine, upload)
              (rw (e, ◌>>=◌)
                (record {
                  sent = r.sent;
                  returned = r.returned;
                  complete =
                      r.complete
                      ∙ append_assoc out d.reply.copied (src.content d.reply.state)
                      ∙ ap (λ t. out ++ t) (sym d.prefix);
                  success = r.success;
                  counted = omega (arith, r.counted, sum);
                }))
      ]

-- ===== src/Transfer/Perform.antt =====
-- `globus_l_dsi_rest_perform` and the thread of perform.c. `curl_easy_perform` is a parameter: it runs
-- the request's callbacks and returns a `CURLcode`, with 0 for CURLE_OK.
use globus_dsi_rest.Base.{
  ℕ, ◌≡◌, refl, Bool, [], ◌==◌, Option, none, some, Error, inl, inr, if◌then◌else◌, Bytes,
  Bool-cases, ==→eq, ==→ne, ◌↔◌,
}
use globus_dsi_rest.Base.Runs.{Run, done, ◌>>=◌}
use globus_dsi_rest.Transfer.Request.{Request, latch, first_error}
use globus_dsi_rest.Transfer.Download.{Reader, Taken, reader_of}

-- What `curl_easy_perform` leaves behind.
pub record Performed {ℓ} (S : Type ℓ) : Type ℓ where
  pub rc : ℕ
  pub request : Request
  pub state : S

abbrev pub Curl {ℓ} : Type ℓ → Type ℓ
Curl S = Request → S → Run (Performed S)

-- After a transfer, the data read callback gets no bytes, which is the end of the data.
unfoldable pub end_data {ℓ} : {S : Type ℓ} → Option (Reader S) → Performed S → Run (Taken S)
end_data reader p =
    if p.rc == 0
    then elim reader [
      | none ↦ done (record { result = none; state = p.state })
      | some r ↦ r.push p.state []
    ]
    else done (record { result = some (Error.curl p.rc); state = p.state })

-- The result and the request.
pub record Outcome {ℓ} (S : Type ℓ) : Type ℓ where
  pub result : Option Error
  pub request : Request
  pub state : S

unfoldable pub perform {ℓ} :
    {S : Type ℓ} → Curl S → Option (Reader S) → Request → S → Run (Outcome S)
unfolding end_data latch
perform curl reader request s = do
  p ← curl request s
  t ← end_data reader p
  done (record {
    result = (latch t.result p.request).result;
    request = latch t.result p.request;
    state = t.state;
  })

module _ {ℓ} {S : Type ℓ} (gridftp : Bool) (take : S → Bytes → Taken S) where
  -- The result of the last call of the data read callback, when the transfer went well.
  abbrev pub last : Performed S → Option Error
  last p = if p.rc == 0 then (take p.state []).result else some (Error.curl p.rc)

  end_data_lem :
      (p : Performed S)
      → (s : S) × (end_data (some (reader_of gridftp take)) p
          ≡ done (record { result = last p; state = s }))
  unfolding end_data
  end_data_lem p = elim (Bool-cases (p.rc == 0)) [
    | inl e ↦ ((take p.state []).state, rw (e, end_data) refl)
    | inr e ↦ (p.state, rw (e, end_data) refl)
  ]

  -- With a transfer and a data read callback that end, perform ends; its result is the request's, and
  -- it succeeds exactly when libcurl's callbacks left no error, libcurl returned CURLE_OK, and the
  -- data read callback accepts the end of the data.
  pub perform-Performs :
      (curl : Request → S → Performed S) (request : Request) (s : S)
      → (o : Outcome S) × (perform
            (λ r t. done (curl r t))
            (some (reader_of gridftp take))
            request
            s
          ≡ done o)
        × (o.request.result ≡ o.result)
        × ((o.result ≡ none) ↔ (
            ((curl request s).request.result ≡ none)
            × ((curl request s).rc ≡ 0)
            × ((take (curl request s).state []).result ≡ none)))
  unfolding perform latch
  perform-Performs curl request s =
      let p = curl request s in
      let (t, e) = end_data_lem p in
      let r : Option Error = first_error p.request.result (last p) in
      (
        record { result = r; request = record p.request { result = r }; state = t },
        rw (e, perform) refl,
        refl,
        first_error_cases p.request.result p,
      )
    where
      first_error_cases :
          (old : Option Error) (p : Performed S)
          → (first_error old (last p) ≡ none)
            ↔ ((old ≡ none) × (p.rc ≡ 0) × ((take p.state []).result ≡ none))
      first_error_cases (some x) p = ((λ q. absurd cc), (λ q. q.0))
      first_error_cases none p = elim (Bool-cases (p.rc == 0)) [
        | inl e ↦ rw e ((λ q. (refl, ==→eq p.rc 0 e, q)), (λ q. q.2))
        | inr e ↦ rw e ((λ q. absurd cc), (λ q. absurd (==→ne p.rc 0 e q.1)))
      ]

-- ===== src/Transfer/Download.antt =====
-- `globus_i_dsi_rest_write_data` of write_data.c, to which libcurl hands the bytes of a response.
pub mod Laws
use globus_dsi_rest.Base.{
  ℕ, ◌+◌, ◌%◌, ◌<◌, ◌≡◌, refl, sym, ◌∙◌, ap, Bool, true, false, ◌&&◌, [], ◌∷◌, List, Bytes, length,
  leb, ◌==◌, Option, none, some, Error, inl, inr, if◌then◌else◌, size_mod, add_size, arith,
  Bool-cases, eq→==, Option-cases,
}
use globus_dsi_rest.Base.Runs.{Run, done, ◌>>=◌}
use globus_dsi_rest.Transfer.Request.{Request, latch, first_error, first_error-none}

-- What a `globus_dsi_rest_read_t` leaves behind.
pub record Taken {ℓ} (S : Type ℓ) : Type ℓ where
  pub result : Option Error
  pub state : S

abbrev pub Push {ℓ} : Type ℓ → Type ℓ
Push S = S → Bytes → Run (Taken S)

-- `is_gridftp` says whether the callback is globus_dsi_rest_read_gridftp_op.
pub record Reader {ℓ} (S : Type ℓ) : Type ℓ where
  pub is_gridftp : Bool
  pub push : Push S

-- The number that is returned, the request, and the state of the data read callback.
pub record Received {ℓ} (S : Type ℓ) : Type ℓ where
  pub data_processed : ℕ
  pub request : Request
  pub state : S

-- `!n`
abbrev pub not_size : ℕ → ℕ
not_size n = if n == 0 then 1 else 0

abbrev pub answer : Option Error → ℕ → ℕ
answer none n = n
answer (some e) n = not_size n

-- The callback's part: the body of an error response does not go to a GridFTP data channel.
unfoldable pub deliver {ℓ} : {S : Type ℓ} → Option (Reader S) → ℕ → S → Bytes → Run (Taken S)
deliver none code s bytes = done (record { result = some Error.unexpected_data; state = s })
deliver (some r) code s bytes =
    if leb 300 code && r.is_gridftp
    then done (record { result = some Error.unexpected_data; state = s })
    else r.push s bytes

unfoldable pub write_data {ℓ} :
    {S : Type ℓ} → Option (Reader S) → Request → S → Bytes → Run (Received S)
unfolding deliver latch
write_data reader request s bytes = do
  taken ← deliver reader request.response_code s bytes
  done (record {
    data_processed = answer taken.result (length bytes);
    request = latch taken.result (record request {
      response_bytes_downloaded = add_size request.response_bytes_downloaded (length bytes);
    });
    state = taken.state;
  })

-- libcurl hands over chunk after chunk, and stops when another number is returned.
unfoldable pub download {ℓ} :
    {S : Type ℓ} → Option (Reader S) → Request → S → List Bytes → Run (Received S)
unfolding write_data
download reader request s [] = done (record { data_processed = 0; request = request; state = s })
download reader request s (b ∷ bs) = do
  got ← write_data reader request s b
  if got.data_processed == length b then download reader got.request got.state bs else done got

-- A data read callback that ends, as a function.
abbrev pub reader_of {ℓ} : {S : Type ℓ} → Bool → (S → Bytes → Taken S) → Reader S
reader_of gridftp take = record { is_gridftp = gridftp; push = λ s b. done (take s b) }

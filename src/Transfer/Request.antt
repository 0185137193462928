-- ===== src/Transfer/Request.antt =====
-- The part of `globus_i_dsi_rest_request_t` that libcurl's callbacks change.
use globus_dsi_rest.Base.{ℕ, ◌≡◌, refl, Option, none, some, Error}

-- The result's `none` is GLOBUS_SUCCESS; the counts have the 64 bits of `off_t`.
pub record Request : Type 0 where
  pub result : Option Error
  pub response_code : ℕ
  pub request_bytes_uploaded : ℕ
  pub response_bytes_downloaded : ℕ

-- `if (request->result == GLOBUS_SUCCESS) request->result = result;`
abbrev pub first_error : Option Error → Option Error → Option Error
first_error none new = new
first_error (some old) new = some old

unfoldable pub latch : Option Error → Request → Request
latch e r = record r { result = first_error r.result e }

pub first_error-none : (e : Option Error) → first_error e none ≡ e
first_error-none none = refl
first_error-none (some x) = refl

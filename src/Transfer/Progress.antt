-- ===== src/Transfer/Progress.antt =====
-- The progress callback of libcurl, xferinfo.c.
use globus_dsi_rest.Base.{
  ℕ, ◌%◌, ◌≡◌, refl, sym, Option, none, some, Error, inl, inr, ◌↔◌, size_mod, arith, Option-cases,
}
use globus_dsi_rest.Transfer.Request.{Request, latch, first_error, first_error-none}

-- The four numbers that libcurl reports.
pub record Amounts : Type 0 where
  pub dltotal : ℕ
  pub dlnow : ℕ
  pub ultotal : ℕ
  pub ulnow : ℕ

-- A `globus_dsi_rest_progress_t`: the result and the callback's argument.
pub record Noted {ℓ} (S : Type ℓ) : Type ℓ where
  pub result : Option Error
  pub state : S

abbrev pub Watch {ℓ} : Type ℓ → Type ℓ
Watch S = S → Amounts → Noted S

-- What is returned to libcurl, the request and the callback's argument.
pub record Reported {ℓ} (S : Type ℓ) : Type ℓ where
  pub rc : ℕ
  pub request : Request
  pub state : S

-- CURLE_ABORTED_BY_CALLBACK
abbrev pub aborted_by_callback : ℕ
aborted_by_callback = 42

unfoldable pub report {ℓ} : {S : Type ℓ} → Request → Noted S → Reported S
unfolding latch
report request n = elim n.result [
  | none ↦ record { rc = 0; request = request; state = n.state }
  | some e ↦ record { rc = aborted_by_callback; request = latch (some e) request; state = n.state }
]

-- The amounts are cast to `uint64_t`.
abbrev pub cast_amounts : Amounts → Amounts
cast_amounts a = record {
  dltotal = a.dltotal % size_mod;
  dlnow = a.dlnow % size_mod;
  ultotal = a.ultotal % size_mod;
  ulnow = a.ulnow % size_mod;
}

unfoldable pub xferinfo {ℓ} : {S : Type ℓ} → Option (Watch S) → Request → S → Amounts → Reported S
unfolding report
xferinfo none request s a = record { rc = 0; request = request; state = s }
xferinfo (some watch) request s a = report request (watch s (cast_amounts a))

-- A progress report: libcurl goes on exactly when the callback succeeds, and the callback's error is
-- the request's result unless that held an error before.
pub record Reports {ℓ} {S : Type ℓ} (request : Request) (n : Noted S) (r : Reported S)
    : Type ℓ where
  pub continues : (r.rc ≡ 0) ↔ (n.result ≡ none)
  pub result : r.request.result ≡ first_error request.result n.result
  pub state : r.state ≡ n.state

report-Reports {ℓ} :
    {S : Type ℓ} (request : Request) (n : Noted S) → Reports request n (report request n)
unfolding report latch
report-Reports request n = elim (Option-cases n.result) [
  | inl e ↦
      rw (e, report)
        (record {
          continues = ((λ q. refl), (λ q. refl));
          result = sym (first_error-none request.result);
          state = refl;
        })
  | inr (x, e) ↦
      rw (e, report)
        (record {
          continues = ((λ q. absurd (omega (arith, q))), (λ q. absurd cc));
          result = refl;
          state = refl;
        })
]

-- xferinfo hands the callback the amounts in 64 bits. libcurl goes on exactly when the callback
-- succeeds, and its error is the request's result unless that held an error before.
pub xferinfo-Reports {ℓ} :
    {S : Type ℓ} (watch : Watch S) (request : Request) (s : S) (a : Amounts)
    → Reports request (watch s (cast_amounts a)) (xferinfo (some watch) request s a)
unfolding xferinfo
xferinfo-Reports watch request s a = report-Reports request (watch s (cast_amounts a))

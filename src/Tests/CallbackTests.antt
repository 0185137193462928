-- ===== src/Tests/CallbackTests.antt =====
-- The theorems on the callbacks for headers, JSON and old progress reports at concrete inputs.
use globus_dsi_rest.Base.{
  ℕ, Error, ◌≡◌, ◌↔◌, ◌⊎◌, ◌≢◌, refl, Bool, true, false, [], ◌∷◌, ◌++◌, List, Bytes, codes, none,
  some, Option, arith, ap, sym, ◌∙◌, not, ◌&&◌, ◌==◌, ==→ne, inl, inr, Bool-cases, All,
}
use globus_dsi_rest.Base.Runs.{done, ◌>>=◌}
use globus_dsi_rest.KeyArray.{KeyArray, Pair, key_value}
use globus_dsi_rest.Headers.Status.{is_blank}
use globus_dsi_rest.Headers.Boundary.{boundary_in, copy_boundary}
use globus_dsi_rest.Headers.Boundary.Quoted.{boundary_in_quoted}
use globus_dsi_rest.Headers.Callback.{HeaderState, Responder, header}
use globus_dsi_rest.Headers.Callback.Reason.{status_line, header_no_reason}
use globus_dsi_rest.Headers.Callback.Block.{headers_in}
use globus_dsi_rest.Headers.Callback.Answers.{Message, Answers, interims, lines_of}
use globus_dsi_rest.Transfer.Retry.{
  print_digits, decimal, curl_text, strstr, error_is_retryable, error_is_retryable-curl,
}
use globus_dsi_rest.Transfer.Request.{Request}
use globus_dsi_rest.Transfer.Progress.{Amounts, Noted, xferinfo}
use globus_dsi_rest.Transfer.OldProgress.{DoubleAmounts, progress, wholes, progress-xferinfo}
use globus_dsi_rest.Transfer.Json.{new_json, read_all, Parses, read_json-Parses}

abbrev always : ℕ → Bool
always n = true

-- Whether a text lacks a character.
abbrev lacks : ℕ → Bytes → Bool
lacks c [] = true
lacks c (x ∷ s) = not (x == c) && lacks c s

lacks_lem : (c : ℕ) (s : Bytes) → lacks c s ≡ true → All (λ x. x ≢ c) s
lacks_lem c [] h = tt
lacks_lem c (x ∷ s) h = elim (Bool-cases (x == c)) [
  | inl e ↦ let q : false ≡ true = sym (ap (λ b. not b && lacks c s) e) ∙ h in absurd cc
  | inr e ↦ (==→ne x c e, lacks_lem c s (sym (ap (λ b. not b && lacks c s) e) ∙ h))
]

-- A client that keeps the codes and the headers of all its calls.
abbrev Calls : Type 0
Calls = List (ℕ × KeyArray)

abbrev logger : Responder Calls
logger = record {
  note_counts = none;
  call = λ s code reason headers. record { result = none; state = (code, headers) ∷ s };
}

abbrev start : HeaderState Calls
start = record {
  result = none;
  response_code = 0;
  response_reason = [];
  uploaded = 0;
  downloaded = 0;
  headers = record { entries = []; capacity = none };
  client = [];
  multipart = false;
  boundary = none;
}

abbrev host : Pair
host = (codes "Host", codes "a")

abbrev continue_on : Message
continue_on = record {
  version = codes "1.1";
  code = codes "100";
  reason = codes "Continue";
  fields = [];
}

abbrev found : Message
found = record {
  version = codes "1.1";
  code = codes "200";
  reason = codes "OK";
  fields = host ∷ [];
}

headers_in_test :
    (headers_in always logger [] start (interims (continue_on ∷ []) (lines_of found [])) >>= λ f.
    done f.state.client)
    ≡ done ((200, key_value (codes "Host") (codes "a") ∷ []) ∷ [])
unfolding headers_in header
headers_in_test = refl

header_no_reason_example :
    header always (some logger) start (status_line (codes "2") (codes "200") []) []
    ≡ done (record { total = 0; state = record start { response_code = 200 } })
unfolding is_blank
header_no_reason_example =
    header_no_reason always (some logger) start refl refl (codes "2") (codes "200") []
      (record {
        word = (refl, tt);
        some_word = omega arith;
        digit = (refl, (refl, (refl, tt)));
        some_digit = omega arith;
        small = omega arith;
      })
      (lacks_lem 0 (status_line (codes "2") (codes "200") []) refl)

boundary_in_quoted_test :
    (boundary_in (b'"' ∷ (codes "xyz" ++ (b'"' ∷ []))) >>= λ f. done (copy_boundary f))
    ≡ done (codes "xy")
boundary_in_quoted_test =
    boundary_in_quoted (codes "xyz")
      (
        ((λ e. omega arith), (λ e. omega arith)),
        (((λ e. omega arith), (λ e. omega arith)), (((λ e. omega arith), (λ e. omega arith)), tt)),
      )
      (omega arith)

abbrev asked : Request
asked = record {
  result = none;
  response_code = 200;
  request_bytes_uploaded = 0;
  response_bytes_downloaded = 0;
}

-- 3.5, 3, 0.25 and 0.
abbrev halves : DoubleAmounts
halves = record {
  dltotal = record { significand = 7; up = 0; down = 1 };
  dlnow = record { significand = 3; up = 0; down = 0 };
  ultotal = record { significand = 1; up = 0; down = 2 };
  ulnow = record { significand = 0; up = 0; down = 0 };
}

abbrev keep_amounts : List Amounts → Amounts → Noted (List Amounts)
keep_amounts s a = record { result = none; state = a ∷ s }

progress-xferinfo_example :
    progress (some keep_amounts) asked [] halves
    ≡ done (xferinfo (some keep_amounts) asked [] (wholes halves))
progress-xferinfo_example = progress-xferinfo (some keep_amounts) asked [] halves (record {
  dltotal = omega arith;
  dlnow = omega arith;
  ultotal = omega arith;
  ulnow = omega arith;
})

-- A parser of one letter.
abbrev letter : Bytes → Option ℕ
letter [] = none
letter (c ∷ []) = some c
letter (c ∷ d ∷ s) = none

read_json-Parses_example :
    Parses letter (codes "abc") (read_all always letter new_json (codes "a" ∷ codes "bc" ∷ []))
read_json-Parses_example =
    read_json-Parses always (λ n. refl) letter (codes "a" ∷ codes "bc" ∷ [])
      (omega arith, (omega arith, tt)) (omega arith)

abbrev friendly : Error → Bytes
friendly e = codes "globus_dsi_rest: " ++ (curl_text ++ (decimal 6 ++ (codes ": no host")))

error_is_retryable-curl_example :
    (retry : Bool) × ((error_is_retryable friendly (some (Error.curl 6)) ≡ done retry)
      × ((retry ≡ true) ↔ ((◌≡◌ {A = ℕ} 6 5) ⊎ (◌≡◌ {A = ℕ} 6 6) ⊎ (◌≡◌ {A = ℕ} 6 7))))
unfolding strstr
error_is_retryable-curl_example =
    error_is_retryable-curl friendly 6 (codes " no host") (omega arith) refl

error_is_retryable_test : error_is_retryable friendly (some (Error.curl 6)) ≡ done true
unfolding error_is_retryable print_digits
error_is_retryable_test = refl

-- ===== src/Tests/HeaderTests.antt =====
-- The theorems on headers at concrete inputs.
use globus_dsi_rest.Base.{
  ℕ, ◌+◌, ◌-◌, ◌≡◌, refl, Bool, true, ltb, [], ◌∷◌, ◌++◌, List, Bytes, codes, none, some, ok,
  length, arith, size_mod, false, ap,
}
use globus_dsi_rest.Base.Runs.{stuck}
use globus_dsi_rest.KeyArray.{KeyArray, Pair, key_value, pairs, present}
use globus_dsi_rest.Headers.Parse.{HeaderArray, header_parse, skip_space, must_grow}
use globus_dsi_rest.Headers.Parse.Line.{IsHeader, line, Appends, header_parse-Appends, crlf}
use globus_dsi_rest.Headers.Parse.Empty.{header_parse_wraps}
use globus_dsi_rest.Headers.Print.{Append, compute_headers}
use globus_dsi_rest.Headers.Print.RoundTrip.{Reads, parse_all, compute_headers-parse}
use globus_dsi_rest.Headers.Response.{response}
use globus_dsi_rest.Headers.Response.Laws.{
  Named, Answered, desired_headers, response_headers, response-Answered,
}

abbrev always : ℕ → Bool
always n = true

abbrev eight : HeaderArray
eight = record { entries = key_value (codes "A") (codes "b") ∷ []; capacity = some 8 }

abbrev host : Pair
host = (codes "Host", codes "a b")

host-IsHeader : IsHeader host
unfolding skip_space
host-IsHeader = record {
  named = λ e. omega (arith, ap length e);
  plain = (omega arith, (omega arith, (omega arith, (omega arith, tt))));
  value = (omega arith, (omega arith, (omega arith, tt)));
  trimmed = refl;
}

abbrev behind : Bytes
behind = codes "junk"

behind_trimmed : skip_space behind ≡ behind
unfolding skip_space
behind_trimmed = refl

header_parse-Appends_example :
    Appends eight host (header_parse always eight (line host ++ behind) (length (line host)))
header_parse-Appends_example =
    header_parse-Appends always eight host behind (omega arith, omega arith) host-IsHeader
      behind_trimmed (λ n. refl) (omega arith) (omega arith)

-- An allocator that refuses the whole address space.
abbrev below_max : ℕ → Bool
below_max n = ltb n (size_mod - 1)

eight_room : must_grow eight ≡ false
unfolding must_grow
eight_room = refl

header_parse_wraps_test :
    header_parse below_max eight (codes "X" ++ (b':' ∷ crlf behind)) (length (codes "X") + 1)
    ≡ stuck
header_parse_wraps_test =
    header_parse_wraps below_max eight (codes "X") behind eight_room
      (λ e. omega (arith, ap length e)) (omega arith, tt) behind_trimmed (omega arith) refl

abbrev append : Append
append l s = some (l ++ (s ∷ []))

abbrev request : KeyArray
request = key_value (codes "Host") (codes "a b") ∷ record { key = none; value = none } ∷ []

abbrev nothing_read : HeaderArray
nothing_read = record { entries = []; capacity = none }

compute_headers-parse_example :
    Reads nothing_read
      (pairs request)
      (parse_all always nothing_read (compute_headers append [] (some request)).request_headers)
unfolding pairs present
compute_headers-parse_example =
    compute_headers-parse append always request (λ l s. refl) (λ n. refl)
      ((host-IsHeader, omega arith), tt) (omega arith)

abbrev answers : List Pair
answers = (codes "ETag", codes "x") ∷ (codes "etag", codes "y") ∷ []

abbrev wanted : List Named
wanted = (codes "Etag", some (codes "old")) ∷ (codes "Date", none) ∷ []

response-Answered_example :
    (kvs : KeyArray) × (response
        (λ s. true)
        (record { response_code = 0; desired_headers = desired_headers wanted })
        200
        (response_headers answers)
      ≡ ok (record { result = none; arg = record { response_code = 200; desired_headers = kvs } }))
    × Answered answers wanted kvs
response-Answered_example = response-Answered (λ s. true) answers wanted 0 200 (λ s. refl)

-- ===== src/Tests/UriTests.antt =====
-- uri_escape.c, uri_add_query.c and encode_form_data.c at concrete inputs.
use globus_dsi_rest.Base.{
  ℕ, ◌≡◌, refl, Bool, true, none, some, List, [], ◌∷◌, ◌++◌, Bytes, codes, ok, fault, All, arith,
}
use globus_dsi_rest.KeyArray.{KeyValue, KeyArray, Pair, key_value, pairs, present}
use globus_dsi_rest.Uri.Escape.{put, escape, uri_escape}
use globus_dsi_rest.Uri.Escape.Encode.{IsEncoded}
use globus_dsi_rest.Uri.Escape.Decode.{uri_decode, uri_escape-decode}
use globus_dsi_rest.Uri.Query.{uri_add_query}
use globus_dsi_rest.Uri.Query.Build.{total_len}
use globus_dsi_rest.Uri.Query.Parse.{parse_query, parse_form, uri_add_query-parse, IsBytePair}
use globus_dsi_rest.Uri.Form.{encode_form_data}
use globus_dsi_rest.Uri.Form.Laws.{fields, encode_form_data-parse, encode_form_data-null}

-- `malloc` that always succeeds.
abbrev alloc : ℕ → Bool
alloc n = true

abbrev uri : Bytes
uri = codes "https://h/p"

abbrev placeholder : KeyValue
placeholder = record { key = some (codes "k"); value = none }

abbrev params : KeyArray
params = key_value (codes "a b") (codes "1&2") ∷ placeholder ∷ key_value (codes "c") [] ∷ []

query_test : uri_add_query alloc uri (some params) ≡ ok (codes "https://h/p?a+b=1%262&c=")
unfolding uri_add_query present put escape
query_test = refl

params_bytes : All IsBytePair (pairs params)
unfolding pairs present
params_bytes = omega arith

uri_add_query-parse_example :
    (q : Bytes) × (uri_add_query alloc uri (some params) ≡ ok (uri ++ q))
    × (parse_query q ≡ some (pairs params))
unfolding total_len pairs present
uri_add_query-parse_example =
    uri_add_query-parse alloc uri params (omega arith) (λ n. refl) params_bytes

uri_escape-decode_example :
    (e : Bytes) × (uri_escape alloc (codes "a/b") ≡ ok e)
    × IsEncoded e
    × (uri_decode e ≡ some (codes "a/b"))
uri_escape-decode_example = uri_escape-decode alloc (codes "a/b") (omega arith) refl (omega arith)

abbrev form : List Pair
form = (codes "n", codes "x=y") ∷ (codes "m", codes "%") ∷ []

form_test : encode_form_data alloc (fields form) ≡ ok (codes "n=x%3Dy&m=%25")
unfolding encode_form_data escape
form_test = refl

encode_form_data-parse_example :
    (d : Bytes) × (encode_form_data alloc (fields form) ≡ ok d) × (parse_form d ≡ some form)
unfolding total_len
encode_form_data-parse_example = encode_form_data-parse alloc form (omega arith) refl (omega arith)

encode_form_data-null_test : encode_form_data alloc (fields form ++ (placeholder ∷ [])) ≡ fault
unfolding present
encode_form_data-null_test = encode_form_data-null alloc form placeholder [] refl

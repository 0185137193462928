-- ===== src/Headers/Print.antt =====
-- `globus_i_dsi_rest_add_header` of add_header.c and `globus_i_dsi_rest_compute_headers` of
-- compute_headers.c. A `curl_slist` is the list of its strings, a null pointer is the empty one;
-- `curl_slist_append`, which libcurl provides, is a parameter: `none` is a null pointer.
pub mod RoundTrip
use globus_dsi_rest.Base.{ℕ, ◌≡◌, [], ◌∷◌, ◌++◌, List, Bytes, codes, Error, Option, none, some}
use globus_dsi_rest.KeyArray.{KeyArray, KeyValue, present}

abbrev pub Append : Type 0
Append = List Bytes → Bytes → Option (List Bytes)

-- The result (`none` is GLOBUS_SUCCESS) and `*request_headers`.
pub record Headers : Type 0 where
  pub result : Option Error
  pub request_headers : List Bytes

unfoldable pub header_text : Bytes → Bytes → Bytes
header_text name value = name ++ (codes ": " ++ value)

unfoldable pub add_header : Append → List Bytes → Bytes → Bytes → Headers
unfolding header_text
add_header append slist name value = elim (append slist (header_text name value)) [
  | none ↦ record { result = some Error.memory; request_headers = slist }
  | some slist' ↦ record { result = none; request_headers = slist' }
]

-- The loop over the headers, which stops at an error.
unfoldable pub add_all : Append → KeyArray → List Bytes → Headers
unfolding add_header
add_all append [] slist = record { result = none; request_headers = slist }
add_all append (kv ∷ kvs) slist = elim (present kv) [
  | none ↦ add_all append kvs slist
  | some p ↦
      let added = add_header append slist p.0 p.1 in
      let rest = add_all append kvs added.request_headers in
      elim added.result [ none ↦ rest | some e ↦ added ]
]

-- An error frees the list. A null pointer for `headers` is `none`.
unfoldable pub compute_headers : Append → List Bytes → Option KeyArray → Headers
unfolding add_all
compute_headers append slist none = record { result = none; request_headers = slist }
compute_headers append slist (some kvs) =
    let h = add_all append kvs slist in
    elim h.result [ none ↦ h | some e ↦ record { result = some e; request_headers = [] } ]

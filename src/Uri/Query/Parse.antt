-- ===== src/Uri/Query/Parse.antt =====
-- How a server reads a query (application/x-www-form-urlencoded), and that it reads back the
-- parameters that uri_add_query.c was given.
use globus_dsi_rest.Base.{
  ℕ, ◌+◌, ◌<◌, ◌≡◌, ◌≢◌, refl, sym, ◌∙◌, ap, Bool, true, Option, none, some, [], ◌∷◌, ◌++◌,
  append-nil, List, if◌then◌else◌, Bytes, length, ok, arith, ◌==◌, All, All-append, All-mono,
  size_mod, ne→==, lt→ltb, add_size,
}
use globus_dsi_rest.KeyArray.{KeyArray, Pair, pairs, pairs_nil}
use globus_dsi_rest.Uri.Escape.Encode.{encode, encode-IsEncoded, is_query_char}
use globus_dsi_rest.Uri.Escape.Decode.{uri_decode, decode-encode}
use globus_dsi_rest.Uri.Query.{uri_add_query, strdup}
use globus_dsi_rest.Uri.Query.Build.{joined, encode_pair, total_len, build_query_lem}

-- A byte in front of the first of some fields.
abbrev cons_head : ℕ → List Bytes → List Bytes
cons_head c [] = (c ∷ []) ∷ []
cons_head c (w ∷ ws) = (c ∷ w) ∷ ws

-- The fields between separators.
pub split : ℕ → Bytes → List Bytes
split sep [] = [] ∷ []
split sep (c ∷ s) = let rest = split sep s in if c == sep then [] ∷ rest else cons_head c rest

-- What stands before and behind the first separator.
pub cut : ℕ → Bytes → Bytes × Bytes
cut sep [] = ([], [])
cut sep (c ∷ s) = let rest = cut sep s in if c == sep then ([], s) else (c ∷ rest.0, rest.1)

both : Option Bytes → Option Bytes → Option Pair
both (some k) (some v) = some (k, v)
both (some k) none = none
both none v = none

pub parse_pair : Bytes → Option Pair
unfolding both
parse_pair f = let kv = cut b'=' f in both (uri_decode kv.0) (uri_decode kv.1)

push : Option Pair → Option (List Pair) → Option (List Pair)
push (some p) (some ps) = some (p ∷ ps)
push (some p) none = none
push none ps = none

parse_fields : List Bytes → Option (List Pair)
unfolding push
parse_fields [] = some []
parse_fields (f ∷ fs) = push (parse_pair f) (parse_fields fs)

-- A form: its fields stand between ampersands, and an empty form has none.
unfoldable pub parse_form : Bytes → Option (List Pair)
unfolding parse_fields
parse_form [] = some []
parse_form (c ∷ s) = parse_fields (split b'&' (c ∷ s))

-- A query: a form behind a question mark, or nothing.
unfoldable pub parse_query : Bytes → Option (List Pair)
unfolding parse_form
parse_query [] = some []
parse_query (c ∷ s) = if c == b'?' then parse_form s else none

abbrev Lacks : ℕ → Bytes → Type 0
Lacks b = All (λ c. c ≢ b)

module _ (sep : ℕ) where
  split-Lacks : (xs : Bytes) → Lacks sep xs → split sep xs ≡ xs ∷ []
  unfolding split
  split-Lacks [] h = refl
  split-Lacks (c ∷ xs) h = rw (ne→== c sep h.0, split-Lacks xs h.1)

  split_append : (xs ys : Bytes) → Lacks sep xs → split sep (xs ++ (sep ∷ ys)) ≡ xs ∷ split sep ys
  unfolding split
  split_append [] ys h = ground arith
  split_append (c ∷ xs) ys h = rw (ne→== c sep h.0, split_append xs ys h.1)

  cut_append : (xs ys : Bytes) → Lacks sep xs → cut sep (xs ++ (sep ∷ ys)) ≡ (xs, ys)
  unfolding cut
  cut_append [] ys h = ground arith
  cut_append (c ∷ xs) ys h = rw (ne→== c sep h.0, cut_append xs ys h.1)

not_equals : (c : ℕ) → is_query_char c ≡ true → c ≢ b'='
not_equals c h = ground arith

not_ampersand : (c : ℕ) → is_query_char c ≡ true → c ≢ b'&'
not_ampersand c h = ground arith

abbrev IsByteString : Bytes → Type 0
IsByteString = All (λ c. c < 256)

abbrev pub IsBytePair : Pair → Type 0
IsBytePair p = IsByteString p.0 × IsByteString p.1

parse_pair_lem : (p : Pair) → IsBytePair p → parse_pair (encode_pair p) ≡ some p
unfolding parse_pair encode_pair
parse_pair_lem p h = rw (
  cut_append b'=' (encode p.0) (encode p.1) (All-mono _ _ not_equals _ (encode-IsEncoded p.0)),
  decode-encode p.0 h.0,
  decode-encode p.1 h.1,
)

encode_pair-Lacks : (p : Pair) → Lacks b'&' (encode_pair p)
unfolding encode_pair
encode_pair-Lacks p =
    All-append (λ c. c ≢ b'&') (encode p.0) (b'=' ∷ encode p.1)
      (All-mono _ _ not_ampersand _ (encode-IsEncoded p.0))
      (ground arith, All-mono _ _ not_ampersand _ (encode-IsEncoded p.1))

-- The fields of a joined list, behind its first delimiter.
abbrev pub form : List Pair → Bytes
form [] = []
form (p ∷ ps) = encode_pair p ++ joined b'&' ps

parse_fields_lem :
    (p : Pair) (ps : List Pair)
    → All IsBytePair (p ∷ ps)
    → parse_fields (split b'&' (form (p ∷ ps))) ≡ some (p ∷ ps)
unfolding parse_fields joined
parse_fields_lem p [] h = rw (
  append-nil (encode_pair p),
  split-Lacks b'&' (encode_pair p) (encode_pair-Lacks p),
  parse_pair_lem p h.0,
)
parse_fields_lem p (q ∷ ps) h = rw (
  split_append b'&' (encode_pair p) (form (q ∷ ps)) (encode_pair-Lacks p),
  parse_pair_lem p h.0,
  parse_fields_lem q ps h.1,
)

parse_form_filled :
    (xs ys zs : Bytes) (y : ℕ)
    → parse_form ((xs ++ (y ∷ ys)) ++ zs) ≡ parse_fields (split b'&' ((xs ++ (y ∷ ys)) ++ zs))
unfolding parse_form
parse_form_filled [] ys zs y = refl
parse_form_filled (x ∷ xs) ys zs y = refl

parse_form_lem :
    (p : Pair) (ps : List Pair)
    → All IsBytePair (p ∷ ps)
    → parse_form (form (p ∷ ps)) ≡ some (p ∷ ps)
unfolding encode_pair
parse_form_lem p ps h =
    parse_form_filled (encode p.0) (encode p.1) (joined b'&' ps) b'=' ∙ parse_fields_lem p ps h

pub parse_form-form : (ps : List Pair) → All IsBytePair ps → parse_form (form ps) ≡ some ps
unfolding parse_form
parse_form-form [] h = refl
parse_form-form (p ∷ ps) h = parse_form_lem p ps h

parse_query-joined : (ps : List Pair) → All IsBytePair ps → parse_query (joined b'?' ps) ≡ some ps
unfolding parse_query joined
parse_query-joined [] h = refl
parse_query-joined (p ∷ ps) h = parse_form_lem p ps h

-- For byte strings whose total room is in the range of `size_t`, when the allocations succeed,
-- the call succeeds: the result is the given URI with a query behind it, and a server that parses
-- that query reads exactly the parameters whose key and value are both set, in their order.
pub uri_add_query-parse :
    (alloc : ℕ → Bool) (uri : Bytes) (kvs : KeyArray)
    → length uri + total_len (pairs kvs) + 1 < size_mod
    → ((n : ℕ) → alloc n ≡ true)
    → All IsBytePair (pairs kvs)
    → (q : Bytes) × (uri_add_query alloc uri (some kvs) ≡ ok (uri ++ q))
      × (parse_query q ≡ some (pairs kvs))
unfolding uri_add_query strdup parse_query
uri_add_query-parse alloc uri [] small got h =
    ([], rw (got (add_size (length uri) 1)) (ap ok (sym (append-nil uri))), rw pairs_nil refl)
uri_add_query-parse alloc uri (kv ∷ kvs) small got h = (
  joined b'?' (pairs (kv ∷ kvs)),
  rw (lt→ltb 0 (length (kv ∷ kvs)) (omega arith))
      (build_query_lem alloc uri (kv ∷ kvs) small (got _)),
  parse_query-joined (pairs (kv ∷ kvs)) h,
)

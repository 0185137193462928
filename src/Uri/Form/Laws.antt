-- ===== src/Uri/Form/Laws.antt =====
-- encode_form_data.c stays inside its allocation, and a server reads the fields back.
use globus_dsi_rest.Base.{
  ℕ, suc, ◌+◌, ◌-◌, ◌*◌, ◌≤◌, ◌<◌, ◌≡◌, sym, ◌∙◌, ap, ap₂, Bool, true, none, some, [], ◌∷◌, ◌++◌,
  append_assoc, append-nil, List, Bytes, length, length-append, ok, fault, arith, size_mod,
  add_size, lt→ltb, All,
}
use globus_dsi_rest.KeyArray.{KeyValue, KeyArray, Pair, present, key_value}
use globus_dsi_rest.Uri.Escape.Encode.{cursor, encode, length-encode, escape_lem, put_lem}
use globus_dsi_rest.Uri.Query.{pair_len}
use globus_dsi_rest.Uri.Query.Build.{
  joined, encode_pair, total_len, length-joined, length-encode_pair,
}
use globus_dsi_rest.Uri.Query.Parse.{IsBytePair, form, parse_form, parse_form-form}
use globus_dsi_rest.Uri.Form.{form_len, add_field, add_fields, encode_form_data}

-- An array without placeholders.
abbrev pub fields : List Pair → KeyArray
fields [] = []
fields (p ∷ ps) = key_value p.0 p.1 ∷ fields ps

form_len_lem :
    (ps : List Pair) (n : ℕ)
    → n + total_len ps < size_mod
    → form_len (fields ps) n ≡ ok (n + total_len ps)
unfolding form_len total_len
form_len_lem [] n h = ap ok (omega arith)
form_len_lem (p ∷ ps) n h =
    let s : add_size n (3 * length p.0 + 3 * length p.1 + 2) ≡ n + pair_len p = omega arith in
    rw s (form_len_lem ps (n + pair_len p) (omega arith) ∙ ap ok (omega arith))

form_len_null :
    (ps : List Pair) (kv : KeyValue) (kvs : KeyArray) (n : ℕ)
    → present kv ≡ none
    → form_len (fields ps ++ (kv ∷ kvs)) n ≡ fault
unfolding form_len present
form_len_null [] kv kvs n h = ground arith
form_len_null (p ∷ ps) kv kvs n h = form_len_null ps kv kvs _ h

-- One field, behind what is already written.
add_field_lem :
    (p : Pair) (w : Bytes) (a : ℕ)
    → suc (3 * length p.0 + 3 * length p.1) ≤ a
    → add_field (key_value p.0 p.1) (cursor w a)
      ≡ ok (cursor (w ++ encode_pair p) (a - length (encode_pair p)))
unfolding add_field encode_pair
add_field_lem p w a h =
    let k = encode p.0 in
    let v = encode p.1 in
    let hk = length-encode p.0 in
    rw
      (
        escape_lem p.0 w a (omega arith),
        put_lem b'=' (w ++ k) (a - length k) (omega arith),
        escape_lem p.1 ((w ++ k) ++ (b'=' ∷ [])) (a - length k - 1) (omega arith),
      )
      (ap₂ (λ u b. ok (cursor u b)) (simp append_assoc) (omega (arith, length-append k (b'=' ∷ v))))

add_fields_lem :
    (ps : List Pair) (i : ℕ) (w : Bytes) (a : ℕ)
    → 0 < i
    → total_len ps ≤ a
    → add_fields (fields ps) i (cursor w a)
      ≡ ok (cursor (w ++ joined b'&' ps) (a - length (joined b'&' ps)))
unfolding add_fields joined total_len
add_fields_lem [] i w a pos h = ap₂ (λ u b. ok (cursor u b)) (sym (append-nil w)) (omega arith)
add_fields_lem (p ∷ ps) i w a pos h =
    let e = encode_pair p in
    let rest = joined b'&' ps in
    rw
      (
        lt→ltb 0 i pos,
        put_lem b'&' w a (omega arith),
        add_field_lem p (w ++ (b'&' ∷ [])) (a - 1) (omega arith),
      )
      (add_fields_lem ps (i + 1) ((w ++ (b'&' ∷ [])) ++ e) (a - 1 - length e) (omega arith)
          (omega (arith, length-encode_pair p))
        ∙ ap₂ (λ u b. ok (cursor u b)) (simp append_assoc) (omega (arith, length-append e rest)))

length-form : (ps : List Pair) → length (form ps) ≤ total_len ps
unfolding total_len
length-form [] = omega arith
length-form (p ∷ ps) = omega (
  arith,
  length-append (encode_pair p) (joined b'&' ps),
  length-encode_pair p,
  length-joined b'&' ps,
)

add_form_lem :
    (ps : List Pair) (a : ℕ)
    → total_len ps ≤ a
    → add_fields (fields ps) 0 (cursor [] a) ≡ ok (cursor (form ps) (a - length (form ps)))
unfolding add_fields total_len
add_form_lem [] a h = ap (λ b. ok (cursor [] b)) (omega arith)
add_form_lem (p ∷ ps) a h =
    let e = encode_pair p in
    let rest = joined b'&' ps in
    rw (add_field_lem p [] a (omega arith)) (
      add_fields_lem ps 1 e (a - length e) (omega arith) (omega (arith, length-encode_pair p))
      ∙ ap (λ b. ok (cursor (e ++ rest) b)) (omega (arith, length-append e rest)))

-- For byte strings whose total room is in the range of `size_t`, when the allocation succeeds and
-- no key or value is null, the call succeeds without an access out of bounds, and a server that
-- parses the form data reads exactly the given fields in their order.
pub encode_form_data-parse :
    (alloc : ℕ → Bool) (ps : List Pair)
    → 1 + total_len ps < size_mod
    → alloc (1 + total_len ps) ≡ true
    → All IsBytePair ps
    → (d : Bytes) × (encode_form_data alloc (fields ps) ≡ ok d) × (parse_form d ≡ some ps)
unfolding encode_form_data
encode_form_data-parse alloc ps small got h = (
  form ps,
  rw (form_len_lem ps 1 small, got, add_form_lem ps (1 + total_len ps) (omega arith))
      (rw (lt→ltb 0 (1 + total_len ps - length (form ps)) (omega (arith, length-form ps)))),
  parse_form-form ps h,
)

-- A field whose key or value is null is read through the null pointer, wherever it stands.
pub encode_form_data-null :
    (alloc : ℕ → Bool) (ps : List Pair) (kv : KeyValue) (kvs : KeyArray)
    → present kv ≡ none
    → encode_form_data alloc (fields ps ++ (kv ∷ kvs)) ≡ fault
unfolding encode_form_data
encode_form_data-null alloc ps kv kvs h = rw (form_len_null ps kv kvs 1 h)

-- ===== src/Transfer/Json.antt =====
-- `globus_l_dsi_rest_read_json` of read_json.c, which collects a response and parses it at its end.
use mathlib.Core.Path.{subst}
use globus_dsi_rest.Base.{
  ℕ, ◌+◌, ◌<◌, ◌≡◌, refl, sym, ◌∙◌, ap, Bool, true, false, Option, none, some, List, [], ◌∷◌, ◌++◌,
  ltb, if◌then◌else◌, Bytes, length, length-append, append_assoc, append-nil, lt→ltb, inl, inr,
  take, take_all, All, Error, add_size, size_mod, arith, Bool-cases,
}
use globus_dsi_rest.Base.Runs.{Run, done, ◌>>=◌, ◌>>◌, assert}
use globus_dsi_rest.Transfer.Download.{Taken}

-- `globus_i_dsi_rest_read_json_arg_t`. The memory of the buffer is what was put there, without the
-- NUL behind it; its room is the size of the last `realloc`. `*json_out` is a null pointer where it
-- is `none`.
pub record JsonArg {ℓ} (J : Type ℓ) : Type ℓ where
  pub buffer_used : ℕ
  pub buffer_len : ℕ
  pub memory : Bytes
  pub room : ℕ
  pub json_out : Option J

-- A new argument, as the preparation of a request sets it up.
abbrev pub new_json {ℓ} : {J : Type ℓ} → JsonArg J
new_json = record { buffer_used = 0; buffer_len = 0; memory = []; room = 0; json_out = none }

-- The bytes of a chunk are appended, with a NUL.
unfoldable pub collect {ℓ} : {J : Type ℓ} → (ℕ → Bool) → JsonArg J → Bytes → Run (Taken (JsonArg J))
collect alloc s bytes =
    let room = add_size (add_size s.buffer_len (length bytes)) 1 in
    elim (alloc room) [
      | false ↦ done (record { result = some Error.memory; state = s })
      | true ↦
          assert (ltb (s.buffer_used + length bytes) room)
          >> done (record {
            result = none;
            state = record s {
              buffer_used = add_size s.buffer_used (length bytes);
              buffer_len = add_size s.buffer_len (length bytes);
              memory = take s.buffer_used s.memory ++ bytes;
              room = room;
            };
          })
    ]

-- The end of the data. `parse` is `json_loadb`.
unfoldable pub parse_all {ℓ} : {J : Type ℓ} → (Bytes → Option J) → JsonArg J → Taken (JsonArg J)
parse_all parse s = elim (ltb 0 s.buffer_used) [
  | false ↦ record { result = none; state = record s { json_out = none } }
  | true ↦
      let json = parse (take s.buffer_used s.memory) in
      record {
        result = elim json [ none ↦ some Error.json | some j ↦ none ];
        state = record s { json_out = json };
      }
]

unfoldable pub read_json {ℓ} :
    {J : Type ℓ} → (ℕ → Bool) → (Bytes → Option J) → JsonArg J → Bytes → Run (Taken (JsonArg J))
unfolding collect parse_all
read_json alloc parse s bytes = elim (ltb 0 (length bytes)) [
  | true ↦ collect alloc s bytes
  | false ↦ done (parse_all parse s)
]

-- What has been collected.
pub record Holds {ℓ} {J : Type ℓ} (text : Bytes) (s : JsonArg J) : Type ℓ where
  pub memory : s.memory ≡ text
  pub used : s.buffer_used ≡ length text
  pub len : s.buffer_len ≡ length text

-- libcurl hands over chunk after chunk and then the end of the data, and stops at an error.
unfoldable pub read_all {ℓ} :
    {J : Type ℓ}
    → (ℕ → Bool)
    → (Bytes → Option J)
    → JsonArg J
    → List Bytes
    → Run (Taken (JsonArg J))
unfolding read_json
read_all alloc parse s [] = read_json alloc parse s []
read_all alloc parse s (c ∷ cs) = do
  t ← read_json alloc parse s c
  elim t.result [ none ↦ read_all alloc parse t.state cs | some e ↦ done t ]

abbrev pub text_of : List Bytes → Bytes
text_of [] = []
text_of (c ∷ cs) = c ++ text_of cs

-- The outcome for a text: nothing for an empty one, and else what the parser says of it.
abbrev pub outcome {ℓ} : {J : Type ℓ} → (Bytes → Option J) → Bytes → Option Error
outcome parse text =
    if ltb 0 (length text)
    then (elim (parse text) [ none ↦ some Error.json | some j ↦ none ])
    else none

pub record Parses {ℓ} {J : Type ℓ} (parse : Bytes → Option J) (text : Bytes)
    (r : Run (Taken (JsonArg J))) : Type ℓ where
  pub taken : Taken (JsonArg J)
  pub returned : r ≡ done taken
  pub result : taken.result ≡ outcome parse text
  pub json_out : taken.state.json_out ≡ (if ltb 0 (length text) then parse text else none)

module _ {ℓ} {J : Type ℓ} (alloc : ℕ → Bool) (grants : (n : ℕ) → alloc n ≡ true)
    (parse : Bytes → Option J) where
  abbrev collected : Bytes → JsonArg J → JsonArg J
  collected c s = record s {
    buffer_used = add_size s.buffer_used (length c);
    buffer_len = add_size s.buffer_len (length c);
    memory = take s.buffer_used s.memory ++ c;
    room = add_size (add_size s.buffer_len (length c)) 1;
  }

  collected-Holds :
      (text c : Bytes) (s : JsonArg J)
      → Holds text s
      → length text + length c + 1 < size_mod
      → Holds (text ++ c) (collected c s)
  collected-Holds text c s h range = record {
    memory =
        ap (λ t. t ++ c)
          (take_all s.buffer_used s.memory (omega (arith, h.used, ap length h.memory)) ∙ h.memory);
    used = omega (arith, h.used, length-append text c);
    len = omega (arith, h.len, length-append text c);
  }

  read_json-collects :
      (text c : Bytes) (s : JsonArg J)
      → Holds text s
      → 0 < length c
      → length text + length c + 1 < size_mod
      → read_json alloc parse s c ≡ done (record { result = none; state = collected c s })
  unfolding read_json collect
  read_json-collects text c s h pos range =
      let t : ltb 0 (length c) ≡ true = ground arith in
      let room = add_size (add_size s.buffer_len (length c)) 1 in
      let u : ltb (s.buffer_used + length c) room ≡ true =
        lt→ltb (s.buffer_used + length c) room (omega (arith, h.used, h.len)) in
      rw (t, read_json) (rw (grants room, collect) (rw (u, assert, ◌>>=◌, ◌>>◌) refl))

  parse_all-Parses :
      (text : Bytes) (s : JsonArg J) → Holds text s → Parses parse text (done (parse_all parse s))
  unfolding parse_all
  parse_all-Parses text s h =
      let same : take s.buffer_used s.memory ≡ text =
        take_all s.buffer_used s.memory (omega (arith, h.used, ap (length {A = ℕ}) h.memory))
        ∙ h.memory in
      let len : ltb 0 s.buffer_used ≡ ltb 0 (length text) = ap (ltb 0) h.used in
      elim (Bool-cases (ltb 0 s.buffer_used)) [
        | inl e ↦ record {
          taken = record {
            result = elim (parse (take s.buffer_used s.memory)) [
              | none ↦ some Error.json
              | some j ↦ none
            ];
            state = record s { json_out = parse (take s.buffer_used s.memory) };
          };
          returned = rw (e, parse_all) refl;
          result = rw (sym len ∙ e) (
              ap
                (λ t. elim (parse t) as (λ x. Option Error) [
                  | none ↦ some Error.json
                  | some j ↦ none
                ])
                same);
          json_out = rw (sym len ∙ e) (ap parse same);
        }
        | inr e ↦ record {
          taken = record { result = none; state = record s { json_out = none } };
          returned = rw (e, parse_all) refl;
          result = rw (sym len ∙ e) refl;
          json_out = rw (sym len ∙ e) refl;
        }
      ]

  read_all_from :
      (cs : List Bytes) (text : Bytes) (s : JsonArg J)
      → Holds text s
      → All (λ c. 0 < length c) cs
      → length (text ++ text_of cs) + 1 < size_mod
      → Parses parse (text ++ text_of cs) (read_all alloc parse s cs)
  unfolding read_all read_json parse_all
  read_all_from [] text s h pos range =
      subst (λ t. Parses parse t (read_all alloc parse s [])) (sym (append-nil text))
        (parse_all-Parses text s h)
  read_all_from (c ∷ cs) text s h pos range =
      let len = length-append text (c ++ text_of cs) in
      let small : length text + length c + 1 < size_mod =
        omega (arith, range, len, length-append c (text_of cs)) in
      let same = append_assoc text c (text_of cs) in
      let p =
        read_all_from cs (text ++ c) (collected c s) (collected-Holds text c s h small) pos.1
          (omega (arith, range, ap (length {A = ℕ}) same)) in
      subst (λ t. Parses parse t (read_all alloc parse s (c ∷ cs))) same
        (record {
          taken = p.taken;
          returned =
              rw (read_json-collects text c s h pos.0 small, read_all)
                (rw (p.returned, ◌>>=◌) refl);
          result = p.result;
          json_out = p.json_out;
        })

  -- A response in chunks that are not empty, and its end: when memory does not run out and the text
  -- and a NUL are in the range of size_t, read_json returns for each of them, and the parser gets
  -- exactly the response, however it was cut. Its value is stored, or an error is reported when it
  -- has none; an empty response has no value and no error.
  pub read_json-Parses :
      (cs : List Bytes)
      → All (λ c. 0 < length c) cs
      → length (text_of cs) + 1 < size_mod
      → Parses parse (text_of cs) (read_all alloc parse new_json cs)
  read_json-Parses cs pos range =
      read_all_from cs [] new_json (record { memory = refl; used = refl; len = refl }) pos range

-- ===== src/Headers/Response/Laws.antt =====
-- Which response headers the response callback of response.c hands to the client.
use globus_dsi_rest.Base.{
  ℕ, ◌≡◌, refl, Bool, true, false, [], ◌∷◌, List, map, Bytes, Option, none, some, ok, ◌>>=◌, inl,
  inr, Bool-cases,
}
use globus_dsi_rest.KeyArray.{KeyValue, KeyArray, Pair, key_value}
use globus_dsi_rest.Headers.Response.{same_name, find_header, with_value, fill, response}

-- Headers whose key and value are set.
abbrev pub response_headers : List Pair → KeyArray
response_headers = map (λ p. key_value p.0 p.1)

-- Desired headers as their names and what their values are.
abbrev pub Named : Type 0
Named = Bytes × Option Bytes

abbrev pub desired_headers : List Named → KeyArray
desired_headers = map (λ d. record { key = some d.0; value = d.1 })

-- The value of the first of some headers with a name, whatever the case of its letters, or that no
-- header has the name.
pub data Answers (name : Bytes) : List Pair → Option Bytes → Type 0 where
  absent : Answers name [] none
  here : {p : Pair} {ps : List Pair} → same_name name p.0 ≡ true → Answers name (p ∷ ps) (some p.1)
  later :
      {p : Pair} {ps : List Pair} {v : Option Bytes}
      → same_name name p.0 ≡ false
      → Answers name ps v
      → Answers name (p ∷ ps) v

find_header_lem :
    (name : Bytes) (ps : List Pair)
    → (v : Option Bytes) × (find_header (some name) (response_headers ps) ≡ ok v)
      × Answers name ps v
unfolding find_header
find_header_lem name [] = (none, refl, absent)
find_header_lem name (p ∷ ps) = elim (Bool-cases (same_name name p.0)) [
  | inl e ↦ (some p.1, rw e refl, here e)
  | inr e ↦ let (v, eq, a) = find_header_lem name ps in (v, rw e eq, later e a)
]

-- Each desired header keeps its name and has the answer for its value.
pub data Answered (ps : List Pair) : List Named → KeyArray → Type 0 where
  done : Answered ps [] []
  next :
      {d : Named} {ds : List Named} {v : Option Bytes} {kvs : KeyArray}
      → Answers d.0 ps v
      → Answered ps ds kvs
      → Answered ps (d ∷ ds) (record { key = some d.0; value = v } ∷ kvs)

fill_next :
    (alloc : Bytes → Bool)
    → ((s : Bytes) → alloc s ≡ true)
    → (hs ds kvs : KeyArray) (d : KeyValue) (v : Option Bytes) → find_header d.key hs ≡ ok v
    → fill alloc hs ds ≡ ok (record { result = none; desired = kvs })
    → fill alloc hs (d ∷ ds) ≡ ok (record { result = none; desired = with_value d v ∷ kvs })
unfolding fill
fill_next alloc good hs ds kvs d none eq rest = rw (eq, fill) (rw (rest, ◌>>=◌) refl)
fill_next alloc good hs ds kvs d (some v) eq rest =
    rw (eq, fill) (rw (good v) (rw (rest, ◌>>=◌) refl))

fill_lem :
    (alloc : Bytes → Bool)
    → ((s : Bytes) → alloc s ≡ true)
    → (ps : List Pair) (ds : List Named)
    → (kvs : KeyArray) × (fill alloc (response_headers ps) (desired_headers ds)
        ≡ ok (record { result = none; desired = kvs }))
      × Answered ps ds kvs
unfolding fill
fill_lem alloc good ps [] = ([], refl, done)
fill_lem alloc good ps (d ∷ ds) =
    let (v, eq, a) = find_header_lem d.0 ps in
    let (kvs, rest, answers) = fill_lem alloc good ps ds in
    (
      record { key = some d.0; value = v } ∷ kvs,
      fill_next alloc good (response_headers ps) (desired_headers ds) kvs
          (record { key = some d.0; value = d.1 }) v eq rest,
      next a answers,
    )

-- When the allocations succeed, the response callback stores the response code and gives every
-- desired header, whatever its value was, the value of the first response header with its name in
-- any case of the letters, or no value when no header has the name.
pub response-Answered :
    (alloc : Bytes → Bool) (ps : List Pair) (ds : List Named) (old code : ℕ)
    → ((s : Bytes) → alloc s ≡ true)
    → (kvs : KeyArray) × (response alloc
          (record { response_code = old; desired_headers = desired_headers ds })
          code
          (response_headers ps)
        ≡ ok (record {
          result = none;
          arg = record { response_code = code; desired_headers = kvs };
        }))
      × Answered ps ds kvs
unfolding response
response-Answered alloc ps ds old code good =
    let (kvs, filled, answers) = fill_lem alloc good ps ds in
    (kvs, rw (filled, response) refl, answers)

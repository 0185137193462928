-- ===== src/Headers/Response.antt =====
-- `globus_l_dsi_rest_response` of response.c: the response headers that a client asks for.
pub mod Laws
use globus_dsi_rest.Base.{
  ℕ, ◌+◌, ◌≡◌, Bool, true, false, ◌&&◌, [], ◌∷◌, ◌++◌, List, leb, ◌==◌, refl, if◌then◌else◌, Bytes,
  Error, Option, none, some, Result, ok, fault, ◌>>=◌, deref, All,
}
use globus_dsi_rest.KeyArray.{KeyValue, KeyArray}

-- `globus_dsi_rest_response_arg_t`
pub record ResponseArg : Type 0 where
  pub response_code : ℕ
  pub desired_headers : KeyArray

-- The upper case letters of ASCII.
abbrev pub lower : ℕ → ℕ
lower c = if leb b'A' c && leb c b'Z' then c + 32 else c

-- `strcasecmp(…) == 0`
unfoldable pub same_name : Bytes → Bytes → Bool
same_name [] [] = true
same_name [] (d ∷ t) = false
same_name (c ∷ s) [] = false
same_name (c ∷ s) (d ∷ t) = let rest = same_name s t in if lower c == lower d then rest else false

-- The inner loop: the value of the first response header with the name.
unfoldable pub find_header : Option Bytes → KeyArray → Result (Option Bytes)
unfolding same_name
find_header name [] = ok none
find_header name (h ∷ hs) =
    let rest = find_header name hs in
    do
      name' ← deref name
      key ← deref h.key
      if same_name name' key then (do value ← deref h.value; ok (some value)) else rest

-- What the outer loop leaves in the desired headers, and its result (`none` is GLOBUS_SUCCESS).
pub record Filled : Type 0 where
  pub result : Option Error
  pub desired : KeyArray

abbrev pub with_value : KeyValue → Option Bytes → KeyValue
with_value d v = record { key = d.key; value = v }

abbrev pub keep : KeyValue → Filled → Result Filled
keep kv f = ok (record { result = f.result; desired = kv ∷ f.desired })

-- The outer loop. `alloc v` says whether `strdup(v)` succeeds; a failure leaves the loop.
unfoldable pub fill : (Bytes → Bool) → KeyArray → KeyArray → Result Filled
unfolding find_header
fill alloc hs [] = ok (record { result = none; desired = [] })
fill alloc hs (d ∷ ds) =
    let rest = fill alloc hs ds in
    find_header d.key hs >>= λ found. elim found [
      | none ↦ rest >>= keep (with_value d none)
      | some v ↦
          if alloc v
          then rest >>= keep (with_value d (some v))
          else ok (record { result = some Error.memory; desired = with_value d none ∷ ds })
    ]

-- What the callback leaves behind: its result and its argument.
pub record Responded : Type 0 where
  pub result : Option Error
  pub arg : ResponseArg

unfoldable pub response : (Bytes → Bool) → ResponseArg → ℕ → KeyArray → Result Responded
unfolding fill
response alloc arg code hs = do
  f ← fill alloc hs arg.desired_headers
  ok (record {
    result = f.result;
    arg = record { response_code = code; desired_headers = f.desired };
  })

-- ===== src/Setup/Delimiter.antt =====
-- The boundary that `globus_l_dsi_rest_prepare_write_multipart_callback` of request.c takes from a
-- Content-Type, and `globus_l_dsi_rest_headers_search`.
use mathlib.Core.Option
use globus_dsi_rest.Base.{
  Bool, true, false, Option, none, some, [], ◌∷◌, ◌==◌, if◌then◌else◌, Bytes, codes, drop,
}
use globus_dsi_rest.Base.Runs.{Run, done, ◌>>=◌, some_of}
use globus_dsi_rest.KeyArray.{KeyArray}
use globus_dsi_rest.Headers.Response.{same_name}
use globus_dsi_rest.Headers.Status.{is_blank}

-- The value of the first Content-Type. The name that the caller gives is not looked at.
unfoldable pub headers_search : KeyArray → Run (Option Bytes)
unfolding same_name
headers_search [] = done none
headers_search (kv ∷ kvs) = do
  key ← some_of kv.key
  elim (same_name key (codes "Content-Type")) [ true ↦ done kv.value | false ↦ headers_search kvs ]

-- `strncmp(s, p, strlen(p)) == 0`
unfoldable pub has_prefix : Bytes → Bytes → Bool
has_prefix [] s = true
has_prefix (p ∷ ps) [] = false
has_prefix (p ∷ ps) (c ∷ s) = let rest = has_prefix ps s in if c == p then rest else false

-- `strstr` for a text that is not empty: what follows, from the first occurrence on.
unfoldable pub find_str : Bytes → Bytes → Option Bytes
unfolding has_prefix
find_str p [] = none
find_str p (c ∷ s) = let rest = find_str p s in if has_prefix p (c ∷ s) then some (c ∷ s) else rest

unfoldable pub until_quote : Bytes → Bytes
until_quote [] = []
until_quote (c ∷ s) = let rest = until_quote s in if c == b'"' then [] else c ∷ rest

unfoldable pub until_blank : Bytes → Bytes
unfolding is_blank
until_blank [] = []
until_blank (c ∷ s) = let rest = until_blank s in if is_blank c then [] else c ∷ rest

-- What stands from `b` to `c`, for the text behind "boundary=".
unfoldable pub delimiter_in : Bytes → Bytes
unfolding until_quote until_blank
delimiter_in [] = []
delimiter_in (c ∷ s) = if c == b'"' then until_quote s else until_blank (c ∷ s)

-- The boundary of a multipart type.
unfoldable pub given_boundary : Bytes → Option Bytes
unfolding has_prefix find_str delimiter_in
given_boundary value =
    if has_prefix (codes "multipart/") value
    then Option.map (λ s. delimiter_in (drop 9 s)) (find_str (codes "boundary=") value)
    else none

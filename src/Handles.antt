-- ===== src/Handles.antt =====
-- The cache of libcurl's easy handles: `globus_i_dsi_rest_handle_get` of handle_get.c and
-- `globus_i_dsi_rest_handle_release` of handle_release.c. A handle is a number; the mutex makes
-- each operation's use of the cache one step.
pub mod Laws
pub mod Owners
use globus_dsi_rest.Base.{
  ℕ, ◌+◌, ◌-◌, Bool, [], ◌∷◌, ◌++◌, List, ltb, ◌==◌, if◌then◌else◌, get_elem?, length, set, Error,
  Option, none, some,
}
use globus_dsi_rest.Base.Runs.{Run, done, stuck, ◌>>=◌, some_of}

-- GLOBUS_I_DSI_REST_HANDLE_CACHE_SIZE
abbrev pub cache_size : ℕ
cache_size = 16

-- `globus_i_dsi_rest_handle_cache` and `globus_i_dsi_rest_handle_cache_index`
pub record Cache : Type 0 where
  pub slots : List ℕ
  pub index : ℕ

-- The options of `curl_easy_setopt`, by their names in libcurl.
pub data CurlOption : Type 0 where
  share header noprogress followlocation nosignal maxredirs http_version : CurlOption
  redir_protocols protocols : CurlOption
  xferinfofunction progressfunction headerfunction writefunction readfunction : CurlOption
  xferinfodata progressdata headerdata writedata readdata : CurlOption

-- What the preprocessor tests of libcurl.
pub record Build : Type 0 where
  pub has_curlproto : Bool
  pub has_xferinfo : Bool

-- The options in the order in which they are set.
abbrev pub options : Build → List CurlOption
options b =
    share
    ∷ header
    ∷ noprogress
    ∷ followlocation
    ∷ nosignal
    ∷ maxredirs
    ∷ http_version
    ∷ ((if b.has_curlproto then redir_protocols ∷ protocols ∷ [] else [])
        ++ ((if b.has_xferinfo then xferinfofunction else progressfunction)
            ∷ headerfunction
            ∷ writefunction
            ∷ readfunction
            ∷ (if b.has_xferinfo then xferinfodata else progressdata)
            ∷ headerdata
            ∷ writedata
            ∷ readdata
            ∷ []))

-- The `CURLcode` of the first option that is refused, or CURLE_OK, which is 0.
unfoldable pub set_options : (CurlOption → ℕ) → List CurlOption → ℕ
set_options setopt [] = 0
set_options setopt (o ∷ os) =
    let rest = set_options setopt os in if setopt o == 0 then rest else setopt o

-- The handle at the top of the cache.
pub record Cached : Type 0 where
  pub handle : Option ℕ
  pub cache : Cache

unfoldable pub take_cached : Cache → Run Cached
take_cached c =
    if ltb 0 c.index
    then (do
      h ← some_of (get_elem? c.slots (c.index - 1))
      done (record { handle = some h; cache = record c { index = c.index - 1 } }))
    else done (record { handle = none; cache = c })

-- The result (`none` is GLOBUS_SUCCESS), `*handlep`, the cache, and the handles that were given to
-- `curl_easy_cleanup`.
pub record Got : Type 0 where
  pub result : Option Error
  pub handle : Option ℕ
  pub cache : Cache
  pub cleaned : List ℕ

-- CURLE_OUT_OF_MEMORY
abbrev pub out_of_memory : ℕ
out_of_memory = 27

-- The options are set; a refusal cleans the handle up.
unfoldable pub configure : Build → (ℕ → CurlOption → ℕ) → ℕ → Cache → Got
unfolding set_options
configure build setopt h c =
    let rc = set_options (setopt h) (options build) in
    if rc == 0
    then record { result = none; handle = some h; cache = c; cleaned = [] }
    else record { result = some (Error.curl rc); handle = none; cache = c; cleaned = h ∷ [] }

-- `init` is what `curl_easy_init` would return, `setopt h o` what `curl_easy_setopt` returns.
unfoldable pub handle_get : Build → Option ℕ → (ℕ → CurlOption → ℕ) → Cache → Run Got
unfolding take_cached configure
handle_get build init setopt c = do
  t ← take_cached c
  elim t.handle [
    | some h ↦ done (configure build setopt h t.cache)
    | none ↦ elim init [
      | some h ↦ done (configure build setopt h t.cache)
      | none ↦ done (record {
        result = some (Error.curl out_of_memory);
        handle = none;
        cache = t.cache;
        cleaned = [];
      })
    ]
  ]

pub record Released : Type 0 where
  pub cache : Cache
  pub cleaned : List ℕ

-- A handle goes into the cache if that has room, or else to `curl_easy_cleanup`. The null pointer
-- is `none`.
unfoldable pub handle_release : Cache → Option ℕ → Run Released
handle_release c none = done (record { cache = c; cleaned = [] })
handle_release c (some h) =
    if ltb c.index cache_size
    then (if ltb c.index (length c.slots)
        then done (record {
          cache = record { slots = set c.slots c.index h; index = c.index + 1 };
          cleaned = [];
        })
        else stuck)
    else done (record { cache = c; cleaned = h ∷ [] })

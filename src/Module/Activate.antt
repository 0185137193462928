-- ===== src/Module/Activate.antt =====
-- `globus_l_dsi_rest_activate` and `globus_l_dsi_rest_deactivate` of module.c. What is initialised and
-- destroyed is not part of the repository; its functions' results are parameters.
pub mod Undone
use globus_dsi_rest.Base.{
  ℕ, zero, suc, ◌+◌, ◌-◌, ◌≤◌, ◌<◌, ◌≡◌, refl, sym, ap, ◌∙◌, Bool, true, false, ◌||◌, Option, none,
  some, List, [], ◌∷◌, ◌++◌, ◌==◌, if◌then◌else◌, inl, inr, length, take, get_elem?, Bool-cases,
  append-nil, append_assoc, arith,
}
use globus_dsi_rest.Base.Runs.{Run, done, ◌>>=◌, some_of}
use globus_dsi_rest.Handles.{Cache}

-- What the module initialises, in this order.
pub data Resource : Type 0 where
  curl_global common_module cache_mutex share_lock cookie_lock dns_lock ssl_lock curl_share :
      Resource

pub data Event : Type 0 where
  made unmade : Resource → Event

-- The order of the initialisations.
abbrev pub resources : List Resource
resources =
    curl_global ∷ common_module ∷ cache_mutex ∷ share_lock ∷ cookie_lock ∷ dns_lock ∷ ssl_lock
    ∷ curl_share ∷ []

abbrev pub is_global : Resource → Bool
is_global curl_global = true
is_global _ = false

-- The labels behind a failure: what has been initialised is destroyed, the last one first. libcurl's
-- own initialisation has none.
unfoldable pub unwind : List Resource → List Event
unwind [] = []
unwind (r ∷ rs) = let rest = unwind rs in if is_global r then rest else unmade r ∷ rest

-- The return value, 0 for success, what was done, and what the index of the cache was set to.
pub record Activated : Type 0 where
  pub rc : ℕ
  pub events : List Event
  pub cache_index : Option ℕ

-- Step after step, with what has been initialised, the last one first.
unfoldable pub make_all : (Resource → ℕ) → List Resource → List Resource → Activated
unfolding unwind
make_all init made_so_far [] = record { rc = 0; events = []; cache_index = none }
make_all init made_so_far (r ∷ rs) =
    let rest = make_all init (r ∷ made_so_far) rs in
    if init r == 0
    then record { rc = rest.rc; events = made r ∷ rest.events; cache_index = none }
    else record { rc = init r; events = unwind made_so_far; cache_index = none }

-- The calls of `curl_share_setopt`, up to a code that is not accepted: neither CURLE_OK nor
-- CURLSHE_BAD_OPTION, which is 1.
unfoldable pub set_share : List ℕ → ℕ
set_share [] = 0
set_share (rc ∷ rcs) = let rest = set_share rcs in if rc == 0 || rc == 1 then rest else rc

abbrev pub reverse_onto : List Resource → List Resource → List Resource
reverse_onto [] done_so_far = done_so_far
reverse_onto (r ∷ rs) done_so_far = reverse_onto rs (r ∷ done_so_far)

-- `init` has the codes of the initialisations, `share_rcs` those of `curl_share_setopt`.
unfoldable pub set_up_share : List ℕ → Activated → Activated
unfolding set_share unwind
set_up_share share_rcs a =
    let rc = set_share share_rcs in
    if a.rc == 0
    then (if rc == 0
        then record a { cache_index = some 0 }
        else record a { rc = rc; events = a.events ++ unwind (reverse_onto resources []) })
    else a

unfoldable pub activate : (Resource → ℕ) → List ℕ → Activated
unfolding make_all set_up_share
activate init share_rcs = set_up_share share_rcs (make_all init [] resources)

-- The loop over the cached handles, the last one first, with those that were cleaned up.
unfoldable pub clean_cache : ℕ → List ℕ → Run (List ℕ)
clean_cache zero slots = done []
clean_cache (suc index) slots = do
  h ← some_of (get_elem? slots index)
  rest ← clean_cache index slots
  done (h ∷ rest)

-- The handles that are cleaned up, and what is destroyed then.
pub record Deactivated : Type 0 where
  pub cleaned : List ℕ
  pub events : List Event

unfoldable pub deactivate : Cache → Run Deactivated
unfolding clean_cache unwind
deactivate cache = do
  cleaned ← clean_cache cache.index cache.slots
  done (record {
    cleaned = cleaned;
    events = unwind (reverse_onto resources []) ++ (unmade curl_global ∷ []);
  })

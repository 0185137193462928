-- ===== src/Tests/HandleTests.antt =====
-- The theorems on the handle cache at concrete inputs.
use globus_dsi_rest.Base.{ℕ, refl, true, [], ◌∷◌, List, some, arith}
use globus_dsi_rest.Handles.{Cache, Build, CurlOption, handle_get, handle_release}
use globus_dsi_rest.Handles.Laws.{IsValid, Gets, handle_get-Gets, Releases, handle_release-Releases}
use globus_dsi_rest.Handles.Owners.{
  State, Step, get, release, start, then_, IsOwned, Reaches-IsOwned, count,
}

abbrev build : Build
build = record { has_curlproto = true; has_xferinfo = true }

abbrev accepts : ℕ → CurlOption → ℕ
accepts h o = 0

abbrev zeros : List ℕ
zeros = 0 ∷ 0 ∷ 0 ∷ 0 ∷ 0 ∷ 0 ∷ 0 ∷ 0 ∷ 0 ∷ 0 ∷ 0 ∷ 0 ∷ 0 ∷ 0 ∷ 0 ∷ 0 ∷ []

abbrev empty : Cache
empty = record { slots = zeros; index = 0 }

empty-IsValid : IsValid empty
empty-IsValid = record { sized = omega arith; within = omega arith }

handle_get-Gets_test : Gets (some 7) empty (handle_get build (some 7) accepts empty)
handle_get-Gets_test = handle_get-Gets build (some 7) accepts empty empty-IsValid

handle_release-Releases_test : Releases empty 7 (handle_release empty (some 7))
handle_release-Releases_test = handle_release-Releases empty 7 empty-IsValid

abbrev idle : State
idle = record { cache = empty; in_use = [] }

idle-IsOwned : IsOwned idle
unfolding count
idle-IsOwned = record { valid = empty-IsValid; once = λ h. omega arith }

abbrev busy : State
busy = record { cache = empty; in_use = 7 ∷ [] }

abbrev back : State
back = record {
  cache = record {
    slots = 7 ∷ 0 ∷ 0 ∷ 0 ∷ 0 ∷ 0 ∷ 0 ∷ 0 ∷ 0 ∷ 0 ∷ 0 ∷ 0 ∷ 0 ∷ 0 ∷ 0 ∷ 0 ∷ [];
    index = 1;
  };
  in_use = [];
}

taken : Step build idle busy
unfolding handle_get count
taken = get (some 7) accepts refl (λ h e. refl)

put_back : Step build busy back
unfolding handle_release
put_back = release [] [] 7 refl refl

Reaches-IsOwned_example : IsOwned back
Reaches-IsOwned_example =
    Reaches-IsOwned build idle back idle-IsOwned (then_ (then_ start taken) put_back)

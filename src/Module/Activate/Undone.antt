-- ===== src/Module/Activate/Undone.antt =====
-- A failed activation undoes what it did, but for libcurl's initialisation; deactivation undoes all.
use mathlib.Core.Path.{subst}
use mathlib.Core.Option.{some-injective}
use globus_dsi_rest.Base.{
  ℕ, zero, suc, ◌≤◌, ◌≡◌, ◌≢◌, ◌⊎◌, refl, sym, ap, ◌∙◌, true, false, Option, none, some, List, [],
  ◌∷◌, ◌++◌, ◌==◌, if◌then◌else◌, inl, inr, length, take, Bool-cases, All, arith, eq→==, ==→ne,
  ne→==,
}
use globus_dsi_rest.Base.Runs.{done, ◌>>=◌, elem_at}
use globus_dsi_rest.Handles.{Cache}
use globus_dsi_rest.Handles.Laws.{IsValid, cached, take_elem}
use globus_dsi_rest.Module.Activate.{
  Resource, curl_global, common_module, cache_mutex, share_lock, cookie_lock, dns_lock, ssl_lock,
  curl_share, Event, made, unmade, resources, is_global, unwind, Activated, make_all, set_share,
  set_up_share, reverse_onto, activate, clean_cache, Deactivated, deactivate,
}

abbrev number : Resource → ℕ
number curl_global = 0
number common_module = 1
number cache_mutex = 2
number share_lock = 3
number cookie_lock = 4
number dns_lock = 5
number ssl_lock = 6
number curl_share = 7

-- What is there behind some events, the last one that was made first. Only that one may be unmade.
unfoldable pub after : List Event → List Resource → Option (List Resource)
after [] rs = some rs
after (made r ∷ es) rs = after es (r ∷ rs)
after (unmade r ∷ es) [] = none
after (unmade r ∷ es) (x ∷ rs) =
    let rest = after es rs in if number r == number x then rest else none

after-append :
    (es fs : List Event) (rs rs' : List Resource)
    → after es rs ≡ some rs'
    → after (es ++ fs) rs ≡ after fs rs'
unfolding after
after-append [] fs rs rs' e = ap (after fs) (some-injective rs rs' e)
after-append (made r ∷ es) fs rs rs' e = after-append es fs (r ∷ rs) rs' e
after-append (unmade r ∷ es) fs [] rs' e = absurd cc
after-append (unmade r ∷ es) fs (x ∷ rs) rs' e = elim (Bool-cases (number r == number x)) [
  | inl t ↦ rw (t, after) (after-append es fs rs rs' (rw (t, after) at e))
  | inr f ↦ let e' : none ≡ some rs' = rw (f, after) at e in absurd cc
]

-- Unwinding leaves libcurl's initialisation alone.
abbrev Unwinds : List Resource → Type 0
Unwinds rs = after (unwind rs) rs ≡ some (curl_global ∷ [])

Unwinds-step :
    (r : Resource) (rs : List Resource) → is_global r ≡ false → Unwinds rs → Unwinds (r ∷ rs)
unfolding unwind after
Unwinds-step r rs e u =
    let t : (number r == number r) ≡ true = eq→== (number r) (number r) refl in
    rw (e, unwind) (rw (t, after) u)

-- What the initialisation of some more leaves.
abbrev Makes : Activated → List Resource → List Resource → Type 0
Makes a rs st =
    ((a.rc ≡ 0) × (after a.events st ≡ some (reverse_onto rs st)) × Unwinds (reverse_onto rs st))
    ⊎ ((a.rc ≢ 0) × (after a.events st ≡ some (curl_global ∷ [])))

make_all-Makes :
    (init : Resource → ℕ) (st rs : List Resource)
    → All (λ r. is_global r ≡ false) rs
    → Unwinds st
    → Makes (make_all init st rs) rs st
unfolding make_all after
make_all-Makes init st [] h u = inl (refl, refl, u)
make_all-Makes init st (r ∷ rs) h u = elim (Bool-cases (init r == 0)) [
  | inl e ↦ rw (e, make_all) (make_all-Makes init (r ∷ st) rs h.1 (Unwinds-step r st h.0 u))
  | inr e ↦ rw (e, make_all) (inr (==→ne (init r) 0 e, u))
]

-- How an activation ends: everything is there and the cache is empty, or it failed and nothing is
-- left, but for libcurl's initialisation if that succeeded.
pub data Ends (init : Resource → ℕ) (a : Activated) : Type 0 where
  succeeds :
      a.rc ≡ 0
      → after a.events [] ≡ some (reverse_onto resources [])
      → a.cache_index ≡ some 0
      → Ends init a
  gives_up :
      a.rc ≢ 0
      → after a.events [] ≡ some (if init curl_global == 0 then curl_global ∷ [] else [])
      → Ends init a

-- What is left of an activation that fails.
abbrev left_over : (Resource → ℕ) → List Resource
left_over init = if init curl_global == 0 then curl_global ∷ [] else []

abbrev MakesAll : (Resource → ℕ) → Activated → Type 0
MakesAll init a =
    ((a.rc ≡ 0)
      × (after a.events [] ≡ some (reverse_onto resources []))
      × Unwinds (reverse_onto resources [])
      × ((init curl_global == 0) ≡ true))
    ⊎ ((a.rc ≢ 0) × (after a.events [] ≡ some (left_over init)))

make_all-MakesAll : (init : Resource → ℕ) → MakesAll init (make_all init [] resources)
unfolding make_all after unwind
make_all-MakesAll init = elim (Bool-cases (init curl_global == 0)) [
  | inl e ↦
      let others =
        common_module ∷ cache_mutex ∷ share_lock ∷ cookie_lock ∷ dns_lock ∷ ssl_lock ∷ curl_share
        ∷ [] in
      rw (e, make_all)
        (elim (make_all-Makes init (curl_global ∷ []) others
          (refl, (refl, (refl, (refl, (refl, (refl, (refl, tt))))))) refl) [
            | inl q ↦ inl (q.0, q.1, q.2, refl)
            | inr q ↦ inr q
          ])
  | inr e ↦ rw (e, make_all) (inr (==→ne (init curl_global) 0 e, refl))
]

set_up_share-Ends :
    (init : Resource → ℕ) (share_rcs : List ℕ) (a : Activated)
    → MakesAll init a
    → Ends init (set_up_share share_rcs a)
unfolding set_up_share
set_up_share-Ends init share_rcs a (inr (f, e)) =
    let t : (a.rc == 0) ≡ false = ne→== a.rc 0 f in
    let q : set_up_share share_rcs a ≡ a = simp (t, set_up_share) in
    subst (Ends init) (sym q) (gives_up f e)
set_up_share-Ends init share_rcs a (inl (z, e, u, g)) =
    let t : (a.rc == 0) ≡ true = eq→== a.rc 0 z in
    elim (Bool-cases (set_share share_rcs == 0)) [
      | inl s ↦
          let q : set_up_share share_rcs a ≡ record a { cache_index = some 0 } =
            simp (t, s, set_up_share) in
          subst (Ends init) (sym q) (succeeds z e refl)
      | inr s ↦
          let failed : Activated = record a {
            rc = set_share share_rcs;
            events = a.events ++ unwind (reverse_onto resources []);
          } in
          let q : set_up_share share_rcs a ≡ failed = simp (t, s, set_up_share) in
          let left : after (a.events ++ unwind (reverse_onto resources [])) []
              ≡ some (left_over init) =
            after-append a.events (unwind (reverse_onto resources [])) []
              (reverse_onto resources []) e
            ∙ u
            ∙ sym (rw g refl) in
          subst (Ends init) (sym q) (gives_up (==→ne (set_share share_rcs) 0 s) left)
    ]

-- For whatever codes the initialisations return, an activation succeeds with everything initialised
-- in order and an empty cache, or fails and has destroyed what it had initialised, in the opposite
-- order, but for libcurl's initialisation, which stays if it succeeded.
pub activate-Ends : (init : Resource → ℕ) (share_rcs : List ℕ) → Ends init (activate init share_rcs)
unfolding activate
activate-Ends init share_rcs =
    set_up_share-Ends init share_rcs (make_all init [] resources) (make_all-MakesAll init)

abbrev pub reverse : List ℕ → List ℕ
reverse [] = []
reverse (x ∷ xs) = reverse xs ++ (x ∷ [])

reverse-append : (xs : List ℕ) (x : ℕ) → reverse (xs ++ (x ∷ [])) ≡ x ∷ reverse xs
reverse-append [] x = refl
reverse-append (y ∷ xs) x = ap (λ t. t ++ (y ∷ [])) (reverse-append xs x)

clean_cache_lem :
    (n : ℕ) (slots : List ℕ)
    → n ≤ length slots
    → clean_cache n slots ≡ done (reverse (take n slots))
unfolding clean_cache
clean_cache_lem zero slots h = refl
clean_cache_lem (suc n) slots h =
    let (x, e) = elem_at n slots (omega (arith, h)) in
    rw (e, ◌>>=◌)
      (rw (clean_cache_lem n slots (omega (arith, h)), ◌>>=◌)
        (ap done (sym (ap reverse (take_elem slots n e) ∙ reverse-append (take n slots) x))))

-- With a valid cache, a deactivation ends, cleans up exactly the handles in the cache, the last one
-- first, and destroys everything that an activation initialised, the last one first.
pub deactivate-Undoes :
    (c : Cache)
    → IsValid c
    → (d : Deactivated) × (deactivate c ≡ done d)
      × (d.cleaned ≡ reverse (cached c))
      × (after d.events (reverse_onto resources []) ≡ some [])
unfolding deactivate after unwind
deactivate-Undoes c v = (
  record {
    cleaned = reverse (cached c);
    events = unwind (reverse_onto resources []) ++ (unmade curl_global ∷ []);
  },
  rw (clean_cache_lem c.index c.slots (omega (arith, v.sized, v.within)), ◌>>=◌) refl,
  refl,
  refl,
)

-- ===== src/Handles/Laws.antt =====
-- The cache stays within its array, and what is released is handed out again.
use native.Mathlib.Numerals.{add-one}
use mathlib.Core.Option.{some-injective}
use globus_dsi_rest.Base.{
  ℕ, suc, zero, ◌+◌, ◌-◌, ◌≤◌, ◌<◌, ◌≡◌, ◌≢◌, Error, refl, ◌∙◌, ap, true, inl, inr, [], ◌∷◌, ◌++◌,
  List, ltb, ◌==◌, length, set, take, get_elem?, append-nil, ◌⊎◌, Option, none, some, arith, lt→ltb,
  ltb→lt, ltb→le, Bool-cases, Option-cases,
}
use globus_dsi_rest.Base.Runs.{Run, done, ◌>>=◌, elem_at, length-set}
use globus_dsi_rest.Handles.{
  cache_size, out_of_memory, Cache, Build, CurlOption, options, set_options, take_cached, Got,
  configure, handle_get, Released, handle_release,
}

-- The handles in the cache.
abbrev pub cached : Cache → List ℕ
cached c = take c.index c.slots

-- The array has its size, and the index stays within it.
pub record IsValid (c : Cache) : Type 0 where
  pub sized : length c.slots ≡ cache_size
  pub within : c.index ≤ cache_size

pub take-set :
    (xs : List ℕ) (i h : ℕ) → i < length xs → take (suc i) (set xs i h) ≡ take i xs ++ (h ∷ [])
take-set [] i h lt = absurd (omega arith)
take-set (x ∷ xs) zero h lt = refl
take-set (x ∷ xs) (suc i) h lt = ap (λ t. x ∷ t) (take-set xs i h (omega arith))

pub take_elem :
    (xs : List ℕ) (i : ℕ) {h : ℕ}
    → get_elem? xs i ≡ some h
    → take (suc i) xs ≡ take i xs ++ (h ∷ [])
take_elem [] i e = cc
take_elem (x ∷ xs) zero e = ap (λ y. y ∷ []) (some-injective x _ e)
take_elem (x ∷ xs) (suc i) e = ap (λ t. x ∷ t) (take_elem xs i e)

-- A release ends; the handle joins the cached ones if there is room, or is cleaned up.
pub record Releases (c : Cache) (h : ℕ) (r : Run Released) : Type 0 where
  pub released : Released
  pub returned : r ≡ done released
  pub valid : IsValid released.cache
  pub kept : cached released.cache ++ released.cleaned ≡ cached c ++ (h ∷ [])

-- With a valid cache, handle_release ends and leaves it valid, and the handle is the last of the
-- cached ones or is cleaned up.
pub handle_release-Releases :
    (c : Cache) (h : ℕ) → IsValid c → Releases c h (handle_release c (some h))
unfolding handle_release
handle_release-Releases c h v = elim (Bool-cases (ltb c.index cache_size)) [
  | inl e ↦
      let lt : c.index < cache_size = ltb→lt c.index cache_size e in
      let room : ltb c.index (length c.slots) ≡ true =
        lt→ltb c.index (length c.slots) (omega (arith, v.sized)) in
      rw (e, room)
        (record {
          released = record {
            cache = record { slots = set c.slots c.index h; index = c.index + 1 };
            cleaned = [];
          };
          returned = refl;
          valid = record {
            sized = length-set c.slots c.index h ∙ v.sized;
            within = omega (arith, lt);
          };
          kept =
              append-nil (take (c.index + 1) (set c.slots c.index h))
              ∙ ap (λ k. take k (set c.slots c.index h)) (add-one c.index)
              ∙ take-set c.slots c.index h (omega (arith, v.sized, lt));
        })
  | inr e ↦ rw e (record {
    released = record { cache = c; cleaned = h ∷ [] };
    returned = refl;
    valid = v;
    kept = refl;
  })
]

abbrev pub to_list : Option ℕ → List ℕ
to_list none = []
to_list (some h) = h ∷ []

-- Where the handles come from that a call takes: the top of the cache, or libcurl when the cache is
-- empty; libcurl may refuse.
pub data Origin (init : Option ℕ) (c c' : Cache) : List ℕ → Type 0 where
  reused : {h : ℕ} → cached c ≡ cached c' ++ (h ∷ []) → Origin init c c' (h ∷ [])
  created : {h : ℕ} → cached c ≡ [] → cached c' ≡ [] → init ≡ some h → Origin init c c' (h ∷ [])
  refused : cached c ≡ [] → cached c' ≡ [] → init ≡ none → Origin init c c' []

-- The call ends; it hands the handle that it takes to its caller when it succeeds and cleans it up
-- when it fails.
pub record Gets (init : Option ℕ) (c : Cache) (r : Run Got) : Type 0 where
  pub got : Got
  pub returned : r ≡ done got
  pub valid : IsValid got.cache
  pub origin : Origin init c got.cache (to_list got.handle ++ got.cleaned)
  pub settled :
      ((got.result ≡ none) × (got.cleaned ≡ [])) ⊎ ((got.result ≢ none) × (got.handle ≡ none))

configure-Gets :
    (build : Build) (setopt : ℕ → CurlOption → ℕ) (init : Option ℕ) (c c' : Cache) (h : ℕ)
    → IsValid c'
    → Origin init c c' (h ∷ [])
    → Gets init c (done (configure build setopt h c'))
unfolding configure
configure-Gets build setopt init c c' h v o =
    elim (Bool-cases (set_options (setopt h) (options build) == 0)) [
      | inl e ↦
          rw (e, configure)
            (record {
              got = record { result = none; handle = some h; cache = c'; cleaned = [] };
              returned = refl;
              valid = v;
              origin = o;
              settled = inl (refl, refl);
            })
      | inr e ↦
          rw (e, configure)
            (record {
              got = record {
                result = some (Error.curl (set_options (setopt h) (options build)));
                handle = none;
                cache = c';
                cleaned = h ∷ [];
              };
              returned = refl;
              valid = v;
              origin = o;
              settled = inr ((λ q. cc), refl);
            })
    ]

-- With a valid cache, handle_get ends and leaves it valid. The handle is the last one of the cache,
-- or one that libcurl creates when the cache is empty. It is handed to the caller and nothing is
-- cleaned up, or the call fails without a handle and has cleaned the taken one up.
pub handle_get-Gets :
    (build : Build) (init : Option ℕ) (setopt : ℕ → CurlOption → ℕ) (c : Cache)
    → IsValid c
    → Gets init c (handle_get build init setopt c)
unfolding handle_get take_cached
handle_get-Gets build init setopt c v = elim (Bool-cases (ltb 0 c.index)) [
  | inl e ↦
      let lt : 0 < c.index = ltb→lt 0 c.index e in
      let top : c.index ≡ suc (c.index - 1) = omega (arith, lt) in
      let (h, at) = elem_at (c.index - 1) c.slots (omega (arith, v.sized, v.within)) in
      rw (e, handle_get)
        (rw (at, ◌>>=◌)
          (configure-Gets build setopt init c (record c { index = c.index - 1 }) h
            (record { sized = v.sized; within = omega (arith, v.within) })
            (reused (ap (λ k. take k c.slots) top ∙ take_elem c.slots (c.index - 1) at))))
  | inr e ↦
      let z : c.index ≡ 0 = omega (arith, ltb→le 0 c.index e) in
      let empty : cached c ≡ [] = ap (λ k. take k c.slots) z in
      elim (Option-cases init) [
        | inl n ↦
            rw (e, handle_get)
              (rw (n, ◌>>=◌)
                (record {
                  got = record {
                    result = some (Error.curl out_of_memory);
                    handle = none;
                    cache = c;
                    cleaned = [];
                  };
                  returned = refl;
                  valid = v;
                  origin = refused empty empty refl;
                  settled = inr ((λ q. cc), refl);
                }))
        | inr (h, i) ↦
            rw (e, handle_get)
              (rw (i, ◌>>=◌)
                (configure-Gets build setopt (some h) c c h v (created empty empty refl)))
      ]
]

-- ===== src/Handles/Owners.antt =====
-- Requests that take handles from the cache and put them back, in any order.
use globus_dsi_rest.Base.{
  ℕ, suc, ◌+◌, ◌≤◌, ◌≡◌, sym, ◌∙◌, ap, [], ◌∷◌, ◌++◌, List, Bool-cases, inl, inr, ==→eq, ◌==◌,
  if◌then◌else◌, Option, some, arith,
}
use globus_dsi_rest.Base.Runs.{Run, done}
use globus_dsi_rest.Handles.{Cache, Build, CurlOption, Got, handle_get, Released, handle_release}
use globus_dsi_rest.Handles.Laws.{
  cached, IsValid, to_list, Origin, reused, created, refused, handle_get-Gets,
  handle_release-Releases,
}

-- How often a handle occurs.
unfoldable pub count : ℕ → List ℕ → ℕ
count h [] = 0
count h (x ∷ xs) = let rest = count h xs in if x == h then suc rest else rest

count-append : (h : ℕ) (xs ys : List ℕ) → count h (xs ++ ys) ≡ count h xs + count h ys
unfolding count
count-append h [] ys = omega arith
count-append h (x ∷ xs) ys = ground (arith, count-append h xs ys)

-- The cache, and the handles that requests hold.
pub record State : Type 0 where
  pub cache : Cache
  pub in_use : List ℕ

module _ (build : Build) where
  -- A request takes a handle, where libcurl creates only handles that are not in use nor cached, or
  -- it releases one that it holds.
  pub data Step : State → State → Type 0 where
    get :
        {s : State} {g : Got} (init : Option ℕ) (setopt : ℕ → CurlOption → ℕ)
        → handle_get build init setopt s.cache ≡ done g
        → ((h : ℕ) → init ≡ some h → count h s.in_use + count h (cached s.cache) ≡ 0)
        → Step s (record { cache = g.cache; in_use = to_list g.handle ++ s.in_use })
    release :
        {s : State} {r : Released} (before after : List ℕ) (h : ℕ)
        → s.in_use ≡ before ++ (h ∷ after)
        → handle_release s.cache (some h) ≡ done r
        → Step s (record { cache = r.cache; in_use = before ++ after })

  pub data Reaches (s : State) : State → Type 0 where
    start : Reaches s s
    then_ : {t u : State} → Reaches s t → Step t u → Reaches s u

-- No handle has two owners: requests that hold it, and the cache.
pub record IsOwned (s : State) : Type 0 where
  pub valid : IsValid s.cache
  pub once : (h : ℕ) → count h s.in_use + count h (cached s.cache) ≤ 1

abbrev result_of {ℓ} : {A : Type ℓ} → A → Run A → A
result_of a (done b) = b
result_of a _ = a

module _ (init : Option ℕ) (c c' : Cache) (in_use : List ℕ)
    (once : (h : ℕ) → count h in_use + count h (cached c) ≤ 1)
    (new : (h : ℕ) → init ≡ some h → count h in_use + count h (cached c) ≡ 0) where
  Origin-once :
      (taken : List ℕ) (x : ℕ)
      → Origin init c c' taken
      → count x taken + count x in_use + count x (cached c') ≤ 1
  unfolding count
  Origin-once taken x (reused {h} e) =
      omega (arith, once x, ap (count x) e, count-append x (cached c') (h ∷ []))
  Origin-once taken x (created {h} e e' i) = elim (Bool-cases (h == x)) [
    | inl eq ↦
        let same : h ≡ x = ==→eq h x eq in
        rw (eq) (omega (arith, new h i, ap (λ y. count y in_use) same, ap (count x) e'))
    | inr ne ↦ rw (ne) (omega (arith, once x, ap (count x) e'))
  ]
  Origin-once taken x (refused e e' i) = omega (arith, once x, ap (count x) e')

module _ (build : Build) where
  Step-IsOwned : (s t : State) → IsOwned s → Step build s t → IsOwned t
  unfolding count
  Step-IsOwned s t o (get {g = g} init setopt e new) =
      let r = handle_get-Gets build init setopt s.cache o.valid in
      let same : r.got ≡ g = ap (result_of g) (sym r.returned ∙ e) in
      record {
        valid = rw same at r.valid;
        once = λ x. omega (
          arith,
          Origin-once init s.cache r.got.cache s.in_use o.once new
              (to_list r.got.handle ++ r.got.cleaned) x r.origin,
          count-append x (to_list r.got.handle) r.got.cleaned,
          count-append x (to_list g.handle) s.in_use,
          ap (λ y. count x (to_list y.handle)) same,
          ap (λ y. count x (cached y.cache)) same,
        );
      }
  Step-IsOwned s t o (release {r = q} before after h split e) =
      let r = handle_release-Releases s.cache h o.valid in
      let same : r.released ≡ q = ap (result_of q) (sym r.returned ∙ e) in
      record {
        valid = rw same at r.valid;
        once = λ x. omega (
          arith,
          o.once x,
          ap (count x) split,
          count-append x before (h ∷ after),
          count-append x (h ∷ []) after,
          count-append x before after,
          ap (count x) r.kept,
          count-append x (cached r.released.cache) r.released.cleaned,
          count-append x (cached s.cache) (h ∷ []),
          ap (λ y. count x (cached y.cache)) same,
        );
      }

  -- Whatever requests take and release, in any order, a handle that one of them holds is held by no
  -- other one and is not in the cache, and the cache stays valid.
  pub Reaches-IsOwned : (s t : State) → IsOwned s → Reaches build s t → IsOwned t
  Reaches-IsOwned s t o start = o
  Reaches-IsOwned s t o (then_ {t = m} rs st) = Step-IsOwned m t (Reaches-IsOwned s m o rs) st

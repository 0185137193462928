-- ===== src/Transfer/Method.antt =====
-- `globus_i_dsi_rest_set_request` of set_request.c: the options that tell libcurl what to request.
use globus_dsi_rest.Base.{
  ℕ, ◌≡◌, ◌≢◌, refl, sym, ◌∙◌, ap, ap₂, Bool, true, false, ◌&&◌, [], ◌∷◌, ◌++◌, List, Bytes, codes,
  ◌==◌, if◌then◌else◌, Option, none, some, Error, inl, inr, Bool-cases, ==→eq, ==→ne, ne→==, ◌⊎◌,
  append_assoc,
}

-- `strcmp(…) == 0`
unfoldable pub same_text : Bytes → Bytes → Bool
same_text [] [] = true
same_text [] (d ∷ t) = false
same_text (c ∷ s) [] = false
same_text (c ∷ s) (d ∷ t) = let rest = same_text s t in if c == d then rest else false

-- The options that set_request.c sets, with what they are set to where that differs.
pub data Setting : Type 0 where
  customrequest : Option Bytes → Setting
  nobody httpget upload post : Setting
  url : Bytes → Setting
  httpheader : List Bytes → Setting

-- Which of the two data callbacks a request has.
pub record Callbacks : Type 0 where
  pub reads : Bool
  pub writes : Bool

unfoldable pub other_method : Bytes → Callbacks → List Setting
other_method method c =
    (if c.reads && c.writes
      then post
      else if c.reads
      then httpget
      else if c.writes
      then upload
      else nobody)
    ∷ customrequest (some method)
    ∷ []

-- The branches on the method.
unfoldable pub method_settings : Bytes → Callbacks → List Setting
unfolding same_text other_method
method_settings method c =
    if same_text method (codes "HEAD")
    then nobody ∷ []
    else if same_text method (codes "GET")
    then httpget ∷ []
    else if same_text method (codes "PUT")
    then upload ∷ []
    else if same_text method (codes "POST")
    then post ∷ []
    else if same_text method (codes "DELETE")
    then nobody ∷ customrequest (some method) ∷ []
    else other_method method c

-- The `CURLcode` of the last call, 0 for CURLE_OK, and the options that libcurl has accepted.
pub record Applied : Type 0 where
  pub rc : ℕ
  pub settings : List Setting

-- Option after option, while libcurl accepts them. `setopt` is `curl_easy_setopt`.
unfoldable pub apply : (Setting → ℕ) → List Setting → Applied
apply setopt [] = record { rc = 0; settings = [] }
apply setopt (o ∷ os) =
    let rest = apply setopt os in
    if setopt o == 0
    then record { rc = rest.rc; settings = o ∷ rest.settings }
    else record { rc = setopt o; settings = [] }

pub record RequestSet : Type 0 where
  pub result : Option Error
  pub settings : List Setting

-- What libcurl accepts of an option.
abbrev pub accepted : (Setting → ℕ) → Setting → List Setting
accepted setopt o = if setopt o == 0 then o ∷ [] else []

-- The first call clears the custom method. Its result is not looked at, so a refusal leaves the
-- handle as it was.
unfoldable pub set_request : (Setting → ℕ) → Bytes → Bytes → List Bytes → Callbacks → RequestSet
unfolding apply method_settings
set_request setopt method uri headers c =
    let applied = apply setopt (method_settings method c ++ (url uri ∷ httpheader headers ∷ [])) in
    record {
      result = if applied.rc == 0 then none else some (Error.curl applied.rc);
      settings = accepted setopt (customrequest none) ++ applied.settings;
    }

-- The method that a request has with some options, as libcurl documents them: that of CURLOPT_CUSTOMREQUEST if it is set, or
-- else that of the last of the options that select one.
pub record Selected : Type 0 where
  pub custom : Option Bytes
  pub kind : Bytes

unfoldable pub select : Selected → List Setting → Selected
select m [] = m
select m (customrequest c ∷ os) = select (record { custom = c; kind = m.kind }) os
select m (nobody ∷ os) = select (record { custom = m.custom; kind = codes "HEAD" }) os
select m (httpget ∷ os) = select (record { custom = m.custom; kind = codes "GET" }) os
select m (upload ∷ os) = select (record { custom = m.custom; kind = codes "PUT" }) os
select m (post ∷ os) = select (record { custom = m.custom; kind = codes "POST" }) os
select m (url u ∷ os) = select m os
select m (httpheader hs ∷ os) = select m os

unfoldable pub sent_method : Selected → Bytes
sent_method m = elim m.custom [ none ↦ m.kind | some c ↦ c ]

same_text_eq : (s t : Bytes) → same_text s t ≡ true → s ≡ t
unfolding same_text
same_text_eq [] [] h = refl
same_text_eq [] (d ∷ t) h = absurd cc
same_text_eq (c ∷ s) [] h = absurd cc
same_text_eq (c ∷ s) (d ∷ t) h = elim (Bool-cases (c == d)) [
  | inl e ↦ ap₂ (λ x y. x ∷ y) (==→eq c d e) (same_text_eq s t (rw e at h))
  | inr e ↦ let h' : false ≡ true = rw e at h in absurd cc
]

by_test {ℓ κ} :
    {A : Type ℓ} (P : A → Type κ) (b : Bool) (x y : A)
    → (b ≡ true → P x)
    → P y
    → P (if b then x else y)
by_test P true x y f g = f refl
by_test P false x y f g = g

module _ (m : Selected) (method uri : Bytes) (headers : List Bytes) (c : Callbacks) where
  -- The method that is sent with some options for the method.
  abbrev Sends : List Setting → Type 0
  Sends os =
      sent_method (select m (customrequest none ∷ (os ++ (url uri ∷ httpheader headers ∷ []))))
      ≡ method

  other_method-Sends : Sends (other_method method c)
  unfolding sent_method select other_method
  other_method-Sends = elim (Bool-cases c.reads) [
    | inl r ↦ elim (Bool-cases c.writes) [
      | inl w ↦ rw (r, w, other_method) refl
      | inr w ↦ rw (r, w, other_method) refl
    ]
    | inr r ↦ elim (Bool-cases c.writes) [
      | inl w ↦ rw (r, w, other_method) refl
      | inr w ↦ rw (r, w, other_method) refl
    ]
  ]

  -- Whatever the method and the callbacks are, the branches select that method.
  method_settings-Sends : Sends (method_settings method c)
  unfolding sent_method select method_settings
  method_settings-Sends =
      by_test Sends (same_text method (codes "HEAD")) _ _ (λ e. sym (same_text_eq method _ e))
        (by_test Sends (same_text method (codes "GET")) _ _ (λ e. sym (same_text_eq method _ e))
          (by_test Sends (same_text method (codes "PUT")) _ _ (λ e. sym (same_text_eq method _ e))
            (by_test Sends (same_text method (codes "POST")) _ _
              (λ e. sym (same_text_eq method _ e))
              (by_test Sends (same_text method (codes "DELETE")) _ _ (λ e. refl)
                other_method-Sends))))

-- All the options are accepted, or the first one that is refused gives the error.
apply_all :
    (setopt : Setting → ℕ) (os : List Setting)
    → ((apply setopt os).rc ≡ 0) × ((apply setopt os).settings ≡ os) ⊎ ((apply setopt os).rc ≢ 0)
unfolding apply
apply_all setopt [] = inl (refl, refl)
apply_all setopt (o ∷ os) = elim (Bool-cases (setopt o == 0)) [
  | inl e ↦ elim (apply_all setopt os) [
    | inl (a, b) ↦ rw (e, apply) (inl (a, ap (λ t. o ∷ t) b))
    | inr n ↦ rw (e, apply) (inr n)
  ]
  | inr e ↦ rw (e, apply) (inr (==→ne (setopt o) 0 e))
]

-- A custom method that a handle has is cleared.
abbrev pub IsCleared : Selected → (Setting → ℕ) → Type 0
IsCleared m setopt = (m.custom ≡ none) ⊎ (setopt (customrequest none) ≡ 0)

cleared_lem :
    (m : Selected) (setopt : Setting → ℕ) (os : List Setting)
    → IsCleared m setopt
    → sent_method (select m (accepted setopt (customrequest none) ++ os))
      ≡ sent_method (select m (customrequest none ∷ os))
unfolding select
cleared_lem m setopt os h = elim (Bool-cases (setopt (customrequest none) == 0)) [
  | inl e ↦ rw e refl
  | inr e ↦ rw e (elim h [
    | inl same ↦ ap (λ c. sent_method (select (record { custom = c; kind = m.kind }) os)) same
    | inr z ↦ absurd (==→ne (setopt (customrequest none)) 0 e z)
  ])
]

-- When libcurl clears the custom method, or the handle has none, and set_request succeeds, libcurl
-- has accepted the URI and the headers last, and the method that it sends is exactly the given one,
-- whatever that is and whichever callbacks there are; otherwise the result is an error.
pub set_request-Sends :
    (m : Selected) (setopt : Setting → ℕ) (method uri : Bytes) (headers : List Bytes)
    (c : Callbacks)
    → IsCleared m setopt
    → (((set_request setopt method uri headers c).result ≡ none)
        × ((os : List Setting) × ((set_request setopt method uri headers c).settings
              ≡ os ++ (url uri ∷ httpheader headers ∷ [])))
        × (sent_method (select m (set_request setopt method uri headers c).settings) ≡ method))
      ⊎ ((set_request setopt method uri headers c).result ≢ none)
unfolding set_request
set_request-Sends m setopt method uri headers c cleared =
    elim (apply_all setopt (method_settings method c ++ (url uri ∷ httpheader headers ∷ []))) [
      | inl (a, b) ↦ inl (
        ap (λ n. if n == 0 then none else some (Error.curl n)) a,
        (
          accepted setopt (customrequest none) ++ method_settings method c,
          ap (λ t. accepted setopt (customrequest none) ++ t) b
              ∙ sym (
                  append_assoc (accepted setopt (customrequest none)) (method_settings method c)
                    (url uri ∷ httpheader headers ∷ [])),
        ),
        ap (λ t. sent_method (select m (accepted setopt (customrequest none) ++ t))) b
            ∙ cleared_lem m setopt (method_settings method c ++ (url uri ∷ httpheader headers ∷ []))
                cleared
            ∙ method_settings-Sends m method uri headers c,
      )
      | inr n ↦ inr (λ q. refused _ n q)
    ]
  where
    refused : (k : ℕ) → k ≢ 0 → (if k == 0 then none else some (Error.curl k)) ≢ none
    refused k n q =
        let f : (k == 0) ≡ false = ne→== k 0 n in
        let q' : some (Error.curl k) ≡ none = rw f at q in absurd cc

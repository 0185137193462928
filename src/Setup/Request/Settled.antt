-- ===== src/Setup/Request/Settled.antt =====
-- The stages of the set-up of a request: what has been allocated is held by the request.
use mathlib.Core.Path.{subst}
use globus_dsi_rest.Base.{
  ℕ, ◌+◌, ◌≡◌, refl, sym, ap, Bool, true, Option, none, some, Option-cases, Bool-cases, inl, inr,
  List, [], Bytes, codes, Error, ok, if◌then◌else◌, arith,
}
use globus_dsi_rest.Base.Runs
use globus_dsi_rest.Base.Runs.{Run, done}
use globus_dsi_rest.Uri.Query.{uri_add_query}
use globus_dsi_rest.Headers.Print.{Headers, compute_headers, add_header}
use globus_dsi_rest.Handles.{Cache, handle_get}
use globus_dsi_rest.Handles.Laws.{IsValid, handle_get-Gets}
use globus_dsi_rest.Setup.Heap.{null, block, Heap, M}
use globus_dsi_rest.Setup.Heap.Accounts.{
  at, Accounts, Ends, Ends-pure, Ends-bind, Plenty, allocate, lift-bind,
}
use globus_dsi_rest.Setup.CleanUp.Frees.{part_holds, PartIsWhole}
use globus_dsi_rest.Setup.CleanUp.Leaves.{part_leaves, PartIsNew}
use globus_dsi_rest.Setup.PrepareWrite.{Env}
use globus_dsi_rest.Setup.PrepareWrite.Whole.{IsSendable, prepare_write_callbacks-IsReady}
use globus_dsi_rest.Setup.PrepareWrite.Multipart.{prepare_write_callbacks}
use globus_dsi_rest.Setup.ReadPart.{prepare_read_callbacks, without, ReadArg}
use globus_dsi_rest.Setup.ReadPart.Owns.{read_holds, read_arg_holds, ReadIsWhole}
use globus_dsi_rest.Setup.ReadPart.Leaves.{read_leaves, ReadIsNew, ReadArgIsNew}
use globus_dsi_rest.Setup.ReadPart.Ready.{prepare_read_callbacks-ReadIsReady}
use globus_dsi_rest.Setup.Request.{
  Call, CurlEnv, Live, Stage, unless, on_success, body_headers, header_array, set_write, set_read,
  get_handle, use_uri, set_uri, has_length, has_body, add_chunked, part_headers, set_headers,
  set_request_options, set_up, Transfer,
}

-- How often a request holds the block `p`.
abbrev pub live_holds : Live → ℕ → ℕ
live_holds live p =
    at live.request p
    + (at live.complete_uri p + (part_holds live.write_part p + read_holds live.read_part p))

abbrev pub LiveIsWhole : Live → Type 0
LiveIsWhole live = PartIsWhole live.write_part × ReadIsWhole live.read_part

-- How often the block `p` is a buffer of a GridFTP operation of a request that the clean-up does not
-- free.
abbrev pub live_leaves : Live → ℕ → ℕ
live_leaves live p = part_leaves live.write_part p + read_leaves live.read_part p

-- A request before its transfer.
abbrev pub LiveIsNew : Live → Type 0
LiveIsNew live = PartIsNew live.write_part × ReadIsNew live.read_part

-- A stage of the set-up, beside what is held already.
pub record IsSound (held : ℕ → ℕ) (s : Stage) (h : Heap) : Type 0 where
  pub new : LiveIsNew s.live
  pub valid : IsValid s.cache
  pub accounts : Accounts (λ p. held p + live_holds s.live p) h

-- What a request has: what its clean-up frees, and the buffers that are not free.
abbrev pub live_has : Live → ℕ → ℕ
live_has live p = live_holds live p + live_leaves live p

-- The transfer ends with the mutexes free and the writes that are outstanding counted, and changes
-- what a request has, the buffers that it leaves pending included, only along with the heap.
abbrev pub Keeps : Transfer → Type 0
Keeps transfer =
    (held : ℕ → ℕ) (live : Live) (h : Heap)
    → LiveIsWhole live
    → Accounts (λ p. held p + live_has live p) h
    → Ends (λ t h'. LiveIsWhole t.live × Accounts (λ p. held p + live_has t.live p) h')
        (transfer live h)

-- A stage before the URI is set.
pub record IsFresh (held : ℕ → ℕ) (s : Stage) (h : Heap) : Type 0 where
  pub sound : IsSound held s h
  pub unset : s.live.complete_uri ≡ null

pub on_success_lem :
    (Post : Stage → Heap → Type 0) (next : Stage → M Stage) (s : Stage) (h : Heap)
    → Post s h
    → Ends Post (next s h)
    → Ends Post (on_success next s h)
on_success_lem Post next s h sound e = by_result s.result
  where
    by_result : (o : Option Error) → Ends Post (unless o next s h)
    by_result none = e
    by_result (some x) = Ends-pure s h sound

-- What has to hold for the preparation of a call to succeed.
pub record IsPossible (env : Env) (call : Call) (uri : Bytes) : Type 0 where
  pub plenty : Plenty env.grants
  pub mutex : env.mutex_rc ≡ 0
  pub cond : env.cond_rc ≡ 0
  pub sendable : IsSendable env (header_array call.headers) call.data_write
  pub named : (b : Bool) × (has_length (header_array call.headers) ≡ done b)
  pub encoded : (text : Bytes) × (uri_add_query (λ _. true) uri call.query_parameters ≡ ok text)

module _ (env : Env) (curl : CurlEnv) (call : Call) (uri : Bytes)
    (possible : IsPossible env call uri) (held : ℕ → ℕ) where
  set_write_lem :
      (n : ℕ) (cache : Cache) (h : Heap)
      → IsValid cache
      → Accounts (λ p. held p + at (block n) p) h
      → Ends
          (λ s h'. IsFresh held s h' × (s.live.read_part ≡ without ReadArg.custom))
          (set_write env call (block n) cache h)
  unfolding set_write ReadIsNew ReadArgIsNew read_holds read_arg_holds
  set_write_lem n cache h valid a =
      Ends-bind (prepare_write_callbacks env (header_array call.headers) call.data_write) _ h
        (prepare_write_callbacks-IsReady env possible.plenty possible.mutex possible.cond
          (λ p. held p + at (block n) p) (header_array call.headers) call.data_write h
          possible.sendable a)
        λ w h₁ b. Ends-pure _ h₁ (
          record {
            sound = record {
              new = (b.whole, (inl (refl, refl), tt));
              valid = valid;
              accounts = λ p. omega (arith, b.accounts p);
            };
            unset = refl;
          },
          refl,
        )

  set_read_lem :
      (s : Stage) (h : Heap)
      → IsFresh held s h
      → s.live.read_part ≡ without ReadArg.custom
      → Ends (IsFresh held) (set_read env curl call s h)
  unfolding set_read read_holds read_arg_holds
  set_read_lem s h fresh e =
      Ends-bind (prepare_read_callbacks env call.data_read) _ h
        (prepare_read_callbacks-ReadIsReady env possible.plenty possible.mutex possible.cond _
          call.data_read h fresh.sound.accounts)
        λ r h₁ b. Ends-pure _ h₁ (record {
          sound = record {
            new = (fresh.sound.new.0, b.whole);
            valid = fresh.sound.valid;
            accounts = λ p. omega (arith, b.accounts p, ap (λ t. read_holds t p) e);
          };
          unset = fresh.unset;
        })

  get_handle_lem :
      (s : Stage) (h : Heap) → IsFresh held s h → Ends (IsFresh held) (get_handle curl s h)
  unfolding get_handle
  get_handle_lem s h fresh =
      let g = handle_get-Gets curl.build curl.init curl.setopt s.cache fresh.sound.valid in
      lift-bind (handle_get curl.build curl.init curl.setopt s.cache) g.got _ h g.returned (
        Ends-pure _ h (record {
          sound = record {
            new = fresh.sound.new;
            valid = g.valid;
            accounts = fresh.sound.accounts;
          };
          unset = fresh.unset;
        }))

  set_uri_lem :
      (s : Stage) (h : Heap)
      → IsFresh held s h
      → Ends (IsSound held) (set_uri env uri call.query_parameters s h)
  unfolding set_uri use_uri
  set_uri_lem s h fresh =
      let e : uri_add_query (λ _. env.grants h.next) uri call.query_parameters
          ≡ ok possible.encoded.0 =
        rw (possible.plenty h.next) possible.encoded.1 in
      subst (λ r. Ends (IsSound held) (use_uri s r h)) (sym e)
        (Ends-pure _ _ (record {
          new = fresh.sound.new;
          valid = fresh.sound.valid;
          accounts = λ p. omega (
            arith,
            allocate (λ p. held p + live_holds s.live p) h fresh.sound.accounts p,
            ap (λ t. at t p) fresh.unset,
          );
        }))

  set_headers_lem :
      (method : Bytes) (s : Stage) (h : Heap)
      → IsSound held s h
      → Ends (IsSound held) (set_headers curl method call s h)
  unfolding set_headers
  set_headers_lem method s h sound =
      let (a, e) =
        body_ends method (compute_headers curl.append [] (some (part_headers s.live.write_part))) in
      lift-bind
        (body_headers curl method call
          (compute_headers curl.append [] (some (part_headers s.live.write_part))))
        a _ h e
        (Ends-pure _ h (record { new = sound.new; valid = sound.valid; accounts = sound.accounts }))
    where
      chunked_ends :
          (method : Bytes) (slist : List Bytes)
          → (a : Headers) × (add_chunked curl method call slist ≡ done a)
      chunked_ends method slist = elim (Bool-cases (has_body method call.data_write)) [
        | inl e ↦ (
          if possible.named.0
              then record { result = none; request_headers = slist }
              else add_header curl.append slist (codes "Transfer-Encoding") (codes "chunked"),
          rw (e, add_chunked) (rw (possible.named.1, Runs.◌>>=◌) refl),
        )
        | inr e ↦ (record { result = none; request_headers = slist }, rw (e, add_chunked) refl)
      ]

      body_ends :
          (method : Bytes) (c : Headers)
          → (a : Headers) × (body_headers curl method call c ≡ done a)
      body_ends method c = elim (Option-cases c.result) [
        | inl e ↦
            let (a, e') = chunked_ends method c.request_headers in (a, simp (e, body_headers, e'))
        | inr (x, e) ↦ (c, simp (e, body_headers))
      ]

  set_request_options_lem :
      (method : Bytes) (s : Stage) (h : Heap)
      → IsSound held s h
      → Ends (IsSound held) (set_request_options curl method call s h)
  unfolding set_request_options
  set_request_options_lem method s h sound =
      Ends-pure _ h (record { new = sound.new; valid = sound.valid; accounts = sound.accounts })

  pub set_up_lem :
      (method : Bytes) (n : ℕ) (cache : Cache) (h : Heap)
      → IsValid cache
      → Accounts (λ p. held p + at (block n) p) h
      → Ends (IsSound held) (set_up env curl call method uri (block n) cache h)
  unfolding set_up
  set_up_lem method n cache h valid a =
      Ends-bind (set_write env call (block n) cache) _ h (set_write_lem n cache h valid a)
        λ w h₁ fw.
          Ends-bind (on_success (set_read env curl call) w) _ h₁
            (on_success_lem (IsFresh held) (set_read env curl call) w h₁ fw.0
              (set_read_lem w h₁ fw.0 fw.1))
            λ r h₂ fr.
              Ends-bind (on_success (get_handle curl) r) _ h₂
                (on_success_lem (IsFresh held) (get_handle curl) r h₂ fr (get_handle_lem r h₂ fr))
                λ g h₃ fg.
                  Ends-bind (on_success (set_uri env uri call.query_parameters) g) _ h₃
                    (on_success_lem (IsSound held) (set_uri env uri call.query_parameters) g h₃
                      fg.sound (set_uri_lem g h₃ fg))
                    λ u h₄ su.
                      Ends-bind (on_success (set_headers curl method call) u) _ h₄
                        (on_success_lem (IsSound held) (set_headers curl method call) u h₄ su
                          (set_headers_lem method u h₄ su))
                        λ hs h₅ sh.
                          on_success_lem (IsSound held) (set_request_options curl method call) hs h₅
                            sh (set_request_options_lem method hs h₅ sh)

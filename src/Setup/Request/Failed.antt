-- ===== src/Setup/Request/Failed.antt =====
-- A body that cannot be prepared: the clean-up takes the application's argument for the library's.
use globus_dsi_rest.Base.{
  ℕ, ◌+◌, ◌≡◌, refl, ap, ◌∙◌, Bool, true, false, Bool-cases, inl, inr, none, if◌then◌else◌, [], ◌∷◌,
  Bytes,
}
use globus_dsi_rest.Base.Runs.{done, stuck}
use globus_dsi_rest.KeyArray.{KeyArray}
use globus_dsi_rest.Handles.{Cache, handle_release}
use globus_dsi_rest.Gridftp.ReadOp.{Others}
use globus_dsi_rest.Setup.Heap.{Pointer, null, block, Heap, M, ◌>>=◌, malloc, free}
use globus_dsi_rest.Setup.WritePart.{Body}
use globus_dsi_rest.Setup.CleanUp.{cleanup_write_part, free_strings}
use globus_dsi_rest.Setup.PrepareWrite.{
  Env, copy_headers, prepare_write_json_callback, free_headers, without_headers,
}
use globus_dsi_rest.Setup.PrepareWrite.Multipart.{
  with_headers, prepare_source, prepare_write_callbacks,
}
use globus_dsi_rest.Setup.Request.{
  Call, CurlEnv, Stage, new_live, header_array, set_write, set_up, Transfer, request_cleanup,
  clean_up, settle, start_request,
}

-- Where the set-up stands when the JSON has no text.
abbrev failed_stage : KeyArray → Pointer → Cache → Stage
failed_stage hs p cache =
    let w = without_headers hs (Body.write_json none) in
    record { result = w.result; live = new_live p w.ready; cache = cache; cleaned = [] }

bind_done :
    {A B : Type 0}
    → (m : M A) (f : A → M B) (h : Heap) (a : A) (h' : Heap) → m h ≡ done (a, h')
    → (m >>= f) h ≡ f a h'
unfolding ◌>>=◌
bind_done m f h a h' e = rw (e, ◌>>=◌) refl

-- The clean-up of a part with the application's argument.
clean_up_stuck :
    (others : Others) (hs : KeyArray) (p : Pointer) (cache : Cache) (h : Heap)
    → clean_up others (failed_stage hs p cache) h ≡ stuck
unfolding clean_up request_cleanup handle_release cleanup_write_part free_strings free ◌>>=◌
clean_up_stuck others hs p cache h = refl

malloc_done :
    (grants : ℕ → Bool) (h : Heap) (b : Bool)
    → grants h.next ≡ b
    → malloc grants h ≡ done (if b then block h.next else null, record h { next = h.next + 1 })
unfolding malloc
malloc_done grants h b e =
    ap (λ c. done (if c then block h.next else null, record h { next = h.next + 1 })) e

-- The part has no headers left, and the application's argument.
json_part :
    (env : Env) (hs : KeyArray) (h : Heap)
    → (h' : Heap) × (prepare_write_callbacks env hs (Body.write_json none) h
        ≡ done (without_headers hs (Body.write_json none), h'))
unfolding prepare_write_callbacks with_headers copy_headers prepare_source
    prepare_write_json_callback free_headers free
json_part env [] h =
    (h, bind_done _ _ h _ h refl ∙ bind_done _ _ h _ h refl ∙ bind_done _ _ h _ h refl)
json_part env (kv ∷ kvs) h = elim (Bool-cases (env.grants h.next)) [
  | inl e ↦
      let h₁ : Heap = record h { next = h.next + 1 } in
      (
        record h₁ { freed = h.next ∷ h.freed },
        bind_done _ _ h _ h₁ (bind_done _ _ h _ h₁ (malloc_done env.grants h true e))
            ∙ bind_done _ _ h₁ _ h₁ refl
            ∙ bind_done _ _ h₁ _ _ refl,
      )
  | inr e ↦ (
    record h { next = h.next + 1 },
    bind_done _ _ h _ _ (bind_done _ _ h _ _ (malloc_done env.grants h false e)),
  )
]

-- When the request itself is allocated but the JSON of its body has no text, the call comes to freeing
-- the application's JSON object, which it takes for an argument of the library.
pub start_request_stuck :
    (env : Env) (curl : CurlEnv) (others : Others) (transfer : Transfer) (create_rc : ℕ)
    (call : Call) (method uri : Bytes) (cache : Cache) (h : Heap)
    → env.grants h.next ≡ true
    → start_request env curl others transfer create_rc
        (record call { data_write = Body.write_json none })
        method
        uri
        cache
        h
      ≡ stuck
unfolding start_request set_up set_write settle
start_request_stuck env curl others transfer create_rc call method uri cache h granted =
    let h₁ : Heap = record h { next = h.next + 1 } in
    let (h₂, e) = json_part env (header_array call.headers) h₁ in
    bind_done _ _ h _ h₁ (malloc_done env.grants h true granted)
    ∙ bind_done _ _ h₁ _ h₂ (
        bind_done _ _ h₁ _ h₂ (bind_done _ _ h₁ _ h₂ e)
        ∙ bind_done _ _ h₂ _ h₂ refl
        ∙ bind_done _ _ h₂ _ h₂ refl
        ∙ bind_done _ _ h₂ _ h₂ refl
        ∙ bind_done _ _ h₂ _ h₂ refl)
    ∙ bind_done _ _ h₂ _ h₂ refl
    ∙ clean_up_stuck others (header_array call.headers) (block h.next) cache h₂

-- ===== src/Setup/Request/Over.antt =====
-- A request that is over has freed what it allocated, but for what its transfer leaves; one that goes
-- on holds it.
use globus_dsi_rest.Base.{ℕ, ◌+◌, ◌≡◌, refl, Bool, true, false, Option, none, some, ◌⊎◌, [], arith}
use globus_dsi_rest.Base.Runs.{done}
use globus_dsi_rest.Handles.{Cache, Released, handle_release}
use globus_dsi_rest.Handles.Laws.{IsValid, handle_release-Releases}
use globus_dsi_rest.Gridftp.ReadOp.{Others}
use globus_dsi_rest.Gridftp.ReadOp.Inv.{IsFair}
use globus_dsi_rest.Setup.Heap.{Heap}
use globus_dsi_rest.Setup.Heap.Accounts.{
  at, Accounts, Ends, Ends-pure, Ends-bind, free-bind, lift-bind,
}
use globus_dsi_rest.Setup.CleanUp.{cleanup_write_part}
use globus_dsi_rest.Setup.CleanUp.Frees.{part_holds, cleanup_write_part-Frees}
use globus_dsi_rest.Setup.ReadPart.{cleanup_read_part}
use globus_dsi_rest.Setup.ReadPart.Owns.{read_holds, cleanup_read_part-Frees}
use globus_dsi_rest.Setup.Request.{
  Live, Stage, is_over, Transfer, Transferred, request_cleanup, CallResult,
}
use globus_dsi_rest.Setup.Request.Settled.{live_holds, live_leaves, live_has, LiveIsWhole}

release_lem :
    (c : Cache) (handle : Option ℕ)
    → IsValid c
    → (r : Released) × (handle_release c handle ≡ done r) × IsValid r.cache
unfolding handle_release
release_lem c none v = (record { cache = c; cleaned = [] }, refl, v)
release_lem c (some x) v =
    let r = handle_release-Releases c x v in (r.released, r.returned, r.valid)

-- The clean-up of a request ends, and frees each block that the request holds, and no other.
pub request_cleanup-Frees :
    (others : Others) (fair : IsFair others) (live : Live) (cache : Cache) (held : ℕ → ℕ) (h : Heap)
    → LiveIsWhole live
    → IsValid cache
    → Accounts (λ p. held p + live_holds live p) h
    → Ends (λ r h'. IsValid r.cache × Accounts held h') (request_cleanup others live cache h)
unfolding request_cleanup
request_cleanup-Frees others fair live cache held h w v a =
    let (r, e, v') = release_lem cache live.handle v in
    let rest : ℕ → ℕ = λ p. held p + at live.request p in
    free-bind (λ p. rest p + (part_holds live.write_part p + read_holds live.read_part p)) h
      live.complete_uri _ (λ p. omega (arith, a p))
      λ h₁ a₁. lift-bind (handle_release cache live.handle) r _ h₁ e (
        Ends-bind (cleanup_write_part live.write_part) _ h₁
          (cleanup_write_part-Frees live.write_part (λ p. rest p + read_holds live.read_part p) h₁
            w.0 (λ p. omega (arith, a₁ p)))
          λ x h₂ a₂.
            Ends-bind (cleanup_read_part others live.read_part) _ h₂
              (cleanup_read_part-Frees live.read_part others fair rest h₂ w.1 a₂)
              λ y h₃ a₃. free-bind held h₃ live.request _ a₃ λ h₄ a₄. Ends-pure r h₄ (v', a₄))

-- What a transfer leaves behind: the buffers of GridFTP operations that do not come to be free.
-- A call has them only when it waits for its transfer.
abbrev pub Left : Transfer → Bool → (ℕ → ℕ) → Heap → Type 0
Left transfer complete held h =
    Accounts held h
    ⊎ ((complete ≡ false)
        × ((live : Live) × ((h₀ : Heap) × ((t : Transferred) × ((h₁ : Heap) × (transfer live h₀
                    ≡ done (t, h₁))
                  × Accounts (λ p. held p + live_leaves t.live p) h)))))

-- What is held when a call is over: nothing more than before, but for what the transfer leaves
-- behind; or what the thread goes on with.
abbrev pub Holds : Transfer → Bool → (ℕ → ℕ) → Option Live → Heap → Type 0
Holds transfer complete held none h = Left transfer complete held h
Holds transfer complete held (some live) h =
    LiveIsWhole live × Accounts (λ p. held p + live_has live p) h

-- The end of a call: a thread goes on exactly when the call succeeds and there is a complete callback.
pub record IsSettled (transfer : Transfer) (held : ℕ → ℕ) (complete : Bool) (f : CallResult)
    (h : Heap) : Type 0 where
  pub valid : IsValid f.cache
  pub holds : Holds transfer complete held f.running h
  pub over : is_over f.result complete ≡ true → f.running ≡ none
  pub goes_on : is_over f.result complete ≡ false → (live : Live) × (f.running ≡ some live)

-- A request behind its set-up, or behind its transfer.
record Performed (transfer : Transfer) (complete : Bool) (held : ℕ → ℕ) (s : Stage) (h : Heap)
    : Type 0 where
  pub whole : LiveIsWhole s.live
  pub valid : IsValid s.cache
  pub accounts : Accounts (λ p. held p + live_has s.live p) h
  pub origin :
      ((p : ℕ) → live_leaves s.live p ≡ 0)
      ⊎ ((complete ≡ false)
          × ((live : Live) × ((h₀ : Heap) × ((t : Transferred) × ((h₁ : Heap) × (transfer live h₀
                      ≡ done (t, h₁))
                    × (t.live ≡ s.live))))))

-- What the transfer of a thread leaves behind, as the only blocks that are not freed.
abbrev pub LeftBy : Transfer → Live → Heap → (ℕ → ℕ) → Heap → Type 0
LeftBy transfer live h held h' =
    (t : Transferred) × ((h₁ : Heap) × (transfer live h ≡ done (t, h₁))
      × Accounts (λ p. held p + live_leaves t.live p) h')

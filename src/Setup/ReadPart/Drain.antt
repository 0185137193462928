-- ===== src/Setup/ReadPart/Drain.antt =====
-- The wait of the clean-up until no write of a GridFTP operation is outstanding.
use globus_dsi_rest.Base.{
  ℕ, zero, suc, ◌+◌, ◌<◌, ◌≡◌, inl, inr, refl, sym, ap, ◌∙◌, true, false, none, some, List, [], ◌∷◌,
  length, leb, ◌==◌, Bool-cases, arith,
}
use mathlib.Core.Option.{some-injective}
use globus_dsi_rest.Base.Runs.{Run, done, ◌>>=◌}
use globus_dsi_rest.Gridftp.Op.{Buffer, OpArg, unlock, remove}
use globus_dsi_rest.Gridftp.ReadOp.{
  Others, finish_write, write_callback, write_callbacks, cond_wait, wait_below,
}
use globus_dsi_rest.Gridftp.ReadOp.Inv.{Finishes, IsFair, lock_lem}
use globus_dsi_rest.Setup.Heap.{block}
use globus_dsi_rest.Setup.Heap.Accounts.{at}
use globus_dsi_rest.Setup.CleanUp.Frees.{buffers_hold}
use globus_dsi_rest.Setup.ReadPart.{wait_idle}

-- How often an operation has the block `p` as a buffer that is free or registered.
abbrev pub in_use : OpArg → ℕ → ℕ
in_use s p = buffers_hold s.registered_buffers p + buffers_hold s.free_buffers p

-- An operation after some writes are done: the other buffers are where they were.
pub record Drains (s s' : OpArg) : Type 0 where
  pub counted : s'.registered_buffers_count ≡ length s'.registered_buffers
  pub pending : s'.pending_buffers ≡ s.pending_buffers
  pub current : s'.current_buffer ≡ s.current_buffer
  pub holds : (p : ℕ) → in_use s' p ≡ in_use s p

Drains-trans : {s t u : OpArg} → Drains s t → Drains t u → Drains s u
Drains-trans a b = record {
  counted = b.counted;
  pending = b.pending ∙ a.pending;
  current = b.current ∙ a.current;
  holds = λ p. b.holds p ∙ a.holds p;
}

remove_holds :
    (a : ℕ) (bs : List Buffer) {b : Buffer} (p : ℕ)
    → (remove a bs).buffer ≡ some b
    → (at (block b.address) p + buffers_hold (remove a bs).rest p ≡ buffers_hold bs p)
      × (suc (length (remove a bs).rest) ≡ length bs)
unfolding remove
remove_holds a [] {b} p e = absurd cc
remove_holds a (x ∷ bs) {b} p e = elim (Bool-cases (x.address == a)) [
  | inl eq ↦
      let e' : some x ≡ some b = rw eq at e in
      rw eq
        (ap (λ y. at (block y.address) p + buffers_hold bs p) (sym (some-injective x b e')), refl)
  | inr ne ↦
      let e' : (remove a bs).buffer ≡ some b = rw ne at e in
      let (h, n) = remove_holds a bs p e' in rw ne (omega (arith, h), ap suc n)
]

finish_write-Drains :
    (a : ℕ) (s : OpArg) {b : Buffer}
    → s.registered_buffers_count ≡ length s.registered_buffers
    → (remove a s.registered_buffers).buffer ≡ some b
    → Drains s (finish_write a s)
unfolding finish_write
finish_write-Drains a s {b} counted e = record {
  counted = omega (arith, counted, (remove_holds a s.registered_buffers 0 e).1);
  pending = refl;
  current = refl;
  holds = λ p.
      let free =
        ap
          (λ o.
            buffers_hold
              (elim o as (λ x. List Buffer) [
                | none ↦ s.free_buffers
                | some q ↦ record q { buffer_used = 0 } ∷ s.free_buffers
              ])
              p)
          e in
      omega (arith, (remove_holds a s.registered_buffers p e).0, free);
}

-- Callbacks that end with the mutex free.
record Done (s : OpArg) (n : ℕ) (r : Run OpArg) : Type 0 where
  pub op : OpArg
  pub returned : r ≡ done op
  pub drains : Drains s op
  pub unlocked : op.locked ≡ false
  pub finished : length op.registered_buffers + n ≡ length s.registered_buffers

write_callbacks-Done :
    (as' : List ℕ) (s : OpArg)
    → s.registered_buffers_count ≡ length s.registered_buffers
    → s.locked ≡ false
    → Finishes s.registered_buffers as'
    → Done s (length as') (write_callbacks as' s)
unfolding write_callbacks write_callback finish_write
write_callbacks-Done [] s counted u f = record {
  op = s;
  returned = refl;
  drains = record { counted = counted; pending = refl; current = refl; holds = λ p. refl };
  unlocked = u;
  finished = omega arith;
}
write_callbacks-Done (a ∷ as') s counted u f =
    let d = finish_write-Drains a s counted f.0.1 in
    let s₁ : OpArg = unlock (finish_write a (record s { locked = true })) in
    let d₁ : Drains s s₁ = record {
      counted = d.counted;
      pending = refl;
      current = refl;
      holds = d.holds;
    } in
    let one : write_callback a s ≡ done s₁ =
      ap (λ r. r >>= λ s'. done (unlock (finish_write a s'))) (lock_lem s u) in
    let q = write_callbacks-Done as' s₁ d.counted refl f.1 in
    record {
      op = q.op;
      returned = rw (one, ◌>>=◌) q.returned;
      drains = Drains-trans d₁ q.drains;
      unlocked = q.unlocked;
      finished = omega (arith, q.finished, (remove_holds a s.registered_buffers 0 f.0.1).1);
    }

-- The end of the wait: nothing is registered.
pub record Drained (s : OpArg) (r : Run OpArg) : Type 0 where
  pub op : OpArg
  pub returned : r ≡ done op
  pub drains : Drains s op
  pub idle : op.registered_buffers ≡ []

none_left : (bs : List Buffer) → length bs < 1 → bs ≡ []
none_left [] h = refl
none_left (b ∷ bs) h = absurd (omega arith)

module _ (others : Others) (fair : IsFair others) where
  wait_below-Drained :
      (fuel : ℕ) (s : OpArg)
      → s.registered_buffers_count ≡ length s.registered_buffers
      → s.registered_buffers_count < fuel
      → Drained s (wait_below others 1 fuel s)
  unfolding wait_below cond_wait
  wait_below-Drained zero s counted enough = absurd (omega arith)
  wait_below-Drained (suc fuel) s counted enough =
      elim (Bool-cases (leb 1 s.registered_buffers_count)) [
        | inr idle ↦ record {
          op = s;
          returned = rw (idle, wait_below) refl;
          drains = record { counted = counted; pending = refl; current = refl; holds = λ p. refl };
          idle = none_left s.registered_buffers (ground (arith, counted));
        }
        | inl wait ↦
            let (f, some_finish) = fair s in
            let p = write_callbacks-Done (others s) (unlock s) counted refl f in
            let s₁ : OpArg = record p.op { locked = true } in
            let on : cond_wait others s ≡ done s₁ =
              rw (p.returned, ◌>>=◌) (lock_lem p.op p.unlocked) in
            let less : length p.op.registered_buffers < length s.registered_buffers =
              elim some_finish [
                | inl z ↦ ground (arith, counted)
                | inr more ↦ omega (arith, p.finished, more)
              ] in
            let r =
              wait_below-Drained fuel s₁ p.drains.counted
                (omega (arith, p.drains.counted, counted)) in
            record {
              op = r.op;
              returned = rw (wait, wait_below) (rw (on, ◌>>=◌) r.returned);
              drains =
                  Drains-trans
                    (record {
                      counted = p.drains.counted;
                      pending = p.drains.pending;
                      current = p.drains.current;
                      holds = p.drains.holds;
                    })
                    r.drains;
              idle = r.idle;
            }
      ]

  -- With a fair server the wait ends, with every registered buffer freed.
  pub wait_idle-Drained :
      (s : OpArg)
      → s.locked ≡ false
      → s.registered_buffers_count ≡ length s.registered_buffers
      → Drained s (wait_idle others s)
  unfolding wait_idle
  wait_idle-Drained s u counted =
      let r =
        wait_below-Drained (s.registered_buffers_count + 1) (record s { locked = true }) counted
          (omega arith) in
      record {
        op = r.op;
        returned = rw (lock_lem s u, ◌>>=◌) r.returned;
        drains = record {
          counted = r.drains.counted;
          pending = r.drains.pending;
          current = r.drains.current;
          holds = r.drains.holds;
        };
        idle = r.idle;
      }

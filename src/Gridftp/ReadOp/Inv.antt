-- ===== src/Gridftp/ReadOp/Inv.antt =====
-- What holds of a read operation between two calls, and while a thread waits.
use mathlib.Core.Path.{subst}
use mathlib.Core.Option.{some-injective}
use globus_dsi_rest.Base.{
  ℕ, zero, suc, ◌+◌, ◌≤◌, ◌<◌, ◌≡◌, ◌⊎◌, refl, sym, ◌∙◌, ap, Bool, true, false, Option, none, some,
  List, [], ◌∷◌, ◌++◌, inl, inr, leb, ◌==◌, Bytes, length, All, add_size, arith, Bool-cases,
  if◌then◌else◌,
}
use globus_dsi_rest.Base.Runs.{Run, done, ◌>>=◌, out_of_fuel}
use globus_dsi_rest.Gridftp.Op.{Buffer, ChannelWrite, OpArg, lock, unlock, remove}
use globus_dsi_rest.Gridftp.ReadOp.{
  finish_write, write_callback, write_callbacks, Others, cond_wait, wait_below,
}

-- What has been written to the data channel.
unfoldable pub sent : List ChannelWrite → Bytes
sent [] = []
sent (w ∷ ws) = w.bytes ++ sent ws

-- The writes lie end to end, from one offset to another.
abbrev pub Contiguous : ℕ → List ChannelWrite → ℕ → Type 0
Contiguous o [] e = o ≡ e
Contiguous o (w ∷ ws) e = (w.offset ≡ o) × Contiguous (add_size o (length w.bytes)) ws e

pub record IsBuffer (b : Buffer) : Type 0 where
  pub room : 0 < b.buffer_len
  pub within : b.buffer_used ≤ b.buffer_len
  pub filled : b.buffer_used ≤ length b.memory

pub record IsFree (b : Buffer) : Type 0 where
  pub room : 0 < b.buffer_len
  pub unused : b.buffer_used ≡ 0

abbrev pub IsOpen : Option Buffer → Type 0
IsOpen none = Unit
IsOpen (some b) = IsBuffer b × (b.buffer_used < b.buffer_len)

-- The state of an operation whose data start at an offset, when all that is complete is registered.
pub record IsSound (start : ℕ) (s : OpArg) : Type 0 where
  pub contiguous : Contiguous start s.writes s.offset
  pub counted : s.registered_buffers_count ≡ length s.registered_buffers
  pub registered : All IsBuffer s.registered_buffers
  pub free : All IsFree s.free_buffers
  pub current : IsOpen s.current_buffer
  pub flushed : s.pending_buffers ≡ []

-- The addresses are those of registered buffers, each finished once.
abbrev pub Finishes : List Buffer → List ℕ → Type 0
Finishes bs [] = Unit
Finishes bs (a ∷ as') =
    ((b : Buffer) × ((remove a bs).buffer ≡ some b)) × Finishes (remove a bs).rest as'

-- The server finishes only what is registered, and while a thread waits it finishes at least one
-- write if there is any.
abbrev pub IsFair : Others → Type 0
IsFair others =
    (s : OpArg)
    → Finishes s.registered_buffers (others s)
      × ((length s.registered_buffers ≡ 0) ⊎ (0 < length (others s)))

-- What a wait leaves alone, and that no more buffers are registered than before.
pub record Keeps (start : ℕ) (s s' : OpArg) : Type 0 where
  pub sound : IsSound start s'
  pub writes : s'.writes ≡ s.writes
  pub current : s'.current_buffer ≡ s.current_buffer
  pub fewer : length s'.registered_buffers ≤ length s.registered_buffers

pub Keeps-trans : {start : ℕ} {s t u : OpArg} → Keeps start s t → Keeps start t u → Keeps start s u
Keeps-trans p q = record {
  sound = q.sound;
  writes = q.writes ∙ p.writes;
  current = q.current ∙ p.current;
  fewer = omega (arith, p.fewer, q.fewer);
}

-- A buffer that is taken out of a chain was in it, and the rest was too.
remove-All :
    (P : Buffer → Type 0) (a : ℕ) (bs : List Buffer) {b : Buffer}
    → All P bs
    → (remove a bs).buffer ≡ some b
    → P b × All P (remove a bs).rest × (suc (length (remove a bs).rest) ≡ length bs)
unfolding remove
remove-All P a [] {b} h e = absurd cc
remove-All P a (x ∷ bs) {b} h e = elim (Bool-cases (x.address == a)) [
  | inl eq ↦
      let e' : some x ≡ some b = rw eq at e in
      rw eq (subst P (some-injective x b e') h.0, h.1, refl)
  | inr ne ↦
      let e' : (remove a bs).buffer ≡ some b = rw ne at e in
      let (p, r, n) = remove-All P a bs h.1 e' in rw ne (p, (h.0, r), ap suc n)
]

finish_write-Keeps :
    (start a : ℕ) (s : OpArg) {b : Buffer}
    → IsSound start s
    → (remove a s.registered_buffers).buffer ≡ some b
    → Keeps start s (finish_write a s)
      × (suc (length (finish_write a s).registered_buffers) ≡ length s.registered_buffers)
unfolding finish_write
finish_write-Keeps start a s {b} v e =
    let (good, rest, fewer) = remove-All IsBuffer a s.registered_buffers v.registered e in
    (
      record {
        sound = record {
          contiguous = v.contiguous;
          counted = omega (arith, v.counted, fewer);
          registered = rest;
          free =
              subst
                (λ o. All IsFree (elim o as (λ x. List Buffer) [
                  | none ↦ s.free_buffers
                  | some q ↦ record q { buffer_used = 0 } ∷ s.free_buffers
                ]))
                (sym e) (record { room = good.room; unused = refl }, v.free);
          current = v.current;
          flushed = v.flushed;
        };
        writes = refl;
        current = refl;
        fewer = omega (arith, fewer);
      },
      fewer,
    )

pub IsSound-locked :
    (start : ℕ) (s : OpArg) (b : Bool) → IsSound start s → IsSound start (record s { locked = b })
IsSound-locked start s b v = record {
  contiguous = v.contiguous;
  counted = v.counted;
  registered = v.registered;
  free = v.free;
  current = v.current;
  flushed = v.flushed;
}

pub lock_lem : (s : OpArg) → s.locked ≡ false → lock s ≡ done (record s { locked = true })
unfolding lock
lock_lem s u = ap (λ b. if b then out_of_fuel else done (record s { locked = true })) u

-- What some callbacks leave behind: the mutex free, and that many buffers fewer registered.
pub record Finished (start n : ℕ) (s : OpArg) (r : Run OpArg) : Type 0 where
  pub op : OpArg
  pub returned : r ≡ done op
  pub keeps : Keeps start s op
  pub unlocked : op.locked ≡ false
  pub finished : length op.registered_buffers + n ≡ length s.registered_buffers

write_callback-Finished :
    (start a : ℕ) (s : OpArg) {b : Buffer}
    → IsSound start s
    → s.locked ≡ false
    → (remove a s.registered_buffers).buffer ≡ some b
    → (p : Finished start 1 s (write_callback a s)) × (p.op.registered_buffers
        ≡ (remove a s.registered_buffers).rest)
unfolding write_callback finish_write
write_callback-Finished start a s v u e =
    let (k, n) =
      finish_write-Keeps start a (record s { locked = true }) (IsSound-locked start s true v) e in
    (
      record {
        op = unlock (finish_write a (record s { locked = true }));
        returned = ap (λ r. r >>= λ s'. done (unlock (finish_write a s'))) (lock_lem s u);
        keeps = record {
          sound = IsSound-locked start (finish_write a (record s { locked = true })) false k.sound;
          writes = k.writes;
          current = k.current;
          fewer = k.fewer;
        };
        unlocked = refl;
        finished = omega (arith, n);
      },
      refl,
    )

-- The callbacks of the finished writes end, one after the other.
pub write_callbacks-Finished :
    (start : ℕ) (as' : List ℕ) (s : OpArg)
    → IsSound start s
    → s.locked ≡ false
    → Finishes s.registered_buffers as'
    → Finished start (length as') s (write_callbacks as' s)
unfolding write_callbacks
write_callbacks-Finished start [] s v u f = record {
  op = s;
  returned = refl;
  keeps = record { sound = v; writes = refl; current = refl; fewer = omega arith };
  unlocked = u;
  finished = omega arith;
}
write_callbacks-Finished start (a ∷ as') s v u f =
    let (p, same) = write_callback-Finished start a s v u f.0.1 in
    let q = write_callbacks-Finished start as' p.op p.keeps.sound p.unlocked (rw same f.1) in
    record {
      op = q.op;
      returned = rw (p.returned, ◌>>=◌) q.returned;
      keeps = Keeps-trans p.keeps q.keeps;
      unlocked = q.unlocked;
      finished = omega (arith, q.finished, p.finished);
    }

-- With a fair server a wait ends with the mutex held, and with fewer buffers registered if there
-- were any.
pub record Waited (start : ℕ) (s : OpArg) (r : Run OpArg) : Type 0 where
  pub op : OpArg
  pub returned : r ≡ done op
  pub keeps : Keeps start s op
  pub locked : op.locked ≡ true

module _ (others : Others) (fair : IsFair others) (start : ℕ) where
  cond_wait-Waited :
      (s : OpArg)
      → IsSound start s
      → (w : Waited start s (cond_wait others s)) × ((length s.registered_buffers ≡ 0)
          ⊎ (length w.op.registered_buffers < length s.registered_buffers))
  unfolding cond_wait
  cond_wait-Waited s v =
      let (f, some_finish) = fair s in
      let p =
        write_callbacks-Finished start (others s) (unlock s) (IsSound-locked start s false v) refl
          f in
      (
        record {
          op = record p.op { locked = true };
          returned = rw (p.returned, ◌>>=◌) (lock_lem p.op p.unlocked);
          keeps = record {
            sound = IsSound-locked start p.op true p.keeps.sound;
            writes = p.keeps.writes;
            current = p.keeps.current;
            fewer = p.keeps.fewer;
          };
          locked = refl;
        },
        elim some_finish [ inl z ↦ inl z | inr more ↦ inr (omega (arith, p.finished, more)) ],
      )

  -- The loop that waits for room ends after at most one round for each registered buffer.
  pub wait_below-Waited :
      (limit fuel : ℕ) (s : OpArg)
      → IsSound start s
      → s.locked ≡ true
      → 0 < limit
      → s.registered_buffers_count < fuel
      → (w : Waited start s (wait_below others limit fuel s)) × (length w.op.registered_buffers
          < limit)
  unfolding wait_below
  wait_below-Waited limit zero s v l pos enough = absurd (omega arith)
  wait_below-Waited limit (suc fuel) s v l pos enough =
      elim (Bool-cases (leb limit s.registered_buffers_count)) [
        | inr no_wait ↦ (
          record {
            op = s;
            returned = rw (no_wait, wait_below) refl;
            keeps = record { sound = v; writes = refl; current = refl; fewer = omega arith };
            locked = l;
          },
          ground (arith, v.counted),
        )
        | inl wait ↦
            let (w, fewer) = cond_wait-Waited s v in
            let less : length w.op.registered_buffers < length s.registered_buffers =
              ground (arith, v.counted) in
            let (r, below) =
              wait_below-Waited limit fuel w.op w.keeps.sound w.locked pos
                (omega (arith, w.keeps.sound.counted, v.counted, less)) in
            (
              record {
                op = r.op;
                returned = rw (wait, wait_below) (rw (w.returned, ◌>>=◌) r.returned);
                keeps = Keeps-trans w.keeps r.keeps;
                locked = r.locked;
              },
              below,
            )
      ]

-- ===== src/Gridftp/WriteOp/Arrive.antt =====
-- The arrivals while a thread waits in write_gridftp_op.c keep an operation sound.
use globus_dsi_rest.Base.{◌≡◌, refl, ◌∙◌, Bool, true, false, some, List, [], ◌∷◌, Bytes, arith}
use globus_dsi_rest.Base.Runs.{Run, done, ◌>>=◌}
use globus_dsi_rest.Gridftp.Op.{Buffer, OpArg, unlock, remove}
use globus_dsi_rest.Gridftp.ReadOp.Inv.{lock_lem}
use globus_dsi_rest.Gridftp.WriteOp.{
  Arrival, note_arrival, place, arrive, read_callback, read_callbacks, Arrivals, wait_arrivals,
}
use globus_dsi_rest.Gridftp.WriteOp.Inv.{IsSound, IsHonest, place-IsSound, noted}

-- Honest arrivals for buffers that are registered, one for each.
abbrev pub Answers : Bytes → List Buffer → List Arrival → Type 0
Answers file bs [] = Unit
Answers file bs (a ∷ rest) =
    IsHonest file a
    × ((b : Buffer) × ((remove a.address bs).buffer ≡ some b))
    × Answers file (remove a.address bs).rest rest

place_same :
    (a : Arrival) (b : Buffer) (s : OpArg)
    → ((place a b s).registered_buffers ≡ s.registered_buffers)
      × ((place a b s).offset ≡ s.offset)
      × ((place a b s).end_offset ≡ s.end_offset)
unfolding place
place_same a b s = ground arith

-- What some callbacks leave behind: the mutex free, and the operation sound and where it was.
pub record Arrived (file : Bytes) (s : OpArg) (r : Run OpArg) : Type 0 where
  pub op : OpArg
  pub returned : r ≡ done op
  pub sound : IsSound file op
  pub unlocked : op.locked ≡ false
  pub offset : op.offset ≡ s.offset

pub IsSound-locked :
    (file : Bytes) (s : OpArg) (b : Bool) → IsSound file s → IsSound file (record s { locked = b })
IsSound-locked file s b v = record {
  pieces = v.pieces;
  free = v.free;
  idle = v.idle;
  within = v.within;
}

module _ (file : Bytes) where
  read_callback-Arrived :
      (a : Arrival) (s : OpArg) {b : Buffer}
      → IsSound file s
      → s.locked ≡ false
      → IsHonest file a
      → (remove a.address s.registered_buffers).buffer ≡ some b
      → (p : Arrived file s (read_callback a s)) × (p.op.registered_buffers
          ≡ (remove a.address s.registered_buffers).rest)
  unfolding read_callback arrive note_arrival
  read_callback-Arrived a s {b} v u h e =
      let rest = (remove a.address s.registered_buffers).rest in
      let s₁ : OpArg = record s { locked = true } in
      let s₂ : OpArg = place a b (noted a rest s₁) in
      let same = place_same a b (noted a rest s₁) in
      (
        record {
          op = unlock s₂;
          returned = rw (lock_lem s u, read_callback) (rw (e, ◌>>=◌) refl);
          sound =
              IsSound-locked file s₂ false
                (place-IsSound file a b rest s₁ (IsSound-locked file s true v) h);
          unlocked = refl;
          offset = same.1;
        },
        same.0,
      )

  pub read_callbacks-Arrived :
      (as' : List Arrival) (s : OpArg)
      → IsSound file s
      → s.locked ≡ false
      → Answers file s.registered_buffers as'
      → Arrived file s (read_callbacks as' s)
  unfolding read_callbacks
  read_callbacks-Arrived [] s v u h = record {
    op = s;
    returned = refl;
    sound = v;
    unlocked = u;
    offset = refl;
  }
  read_callbacks-Arrived (a ∷ rest) s v u h =
      let (p, same) = read_callback-Arrived a s v u h.0 h.1.1 in
      let q = read_callbacks-Arrived rest p.op p.sound p.unlocked (rw same h.2) in
      record {
        op = q.op;
        returned = rw (p.returned, ◌>>=◌) q.returned;
        sound = q.sound;
        unlocked = q.unlocked;
        offset = q.offset ∙ p.offset;
      }

-- What the GridFTP server does at some time is honest.
abbrev pub IsHonestServer : Bytes → Arrivals → Type 0
IsHonestServer file arrivals = (s : OpArg) → Answers file s.registered_buffers (arrivals s)

-- A state with the mutex held, where it was.
pub record Held (file : Bytes) (s : OpArg) (r : Run OpArg) : Type 0 where
  pub op : OpArg
  pub returned : r ≡ done op
  pub sound : IsSound file op
  pub locked : op.locked ≡ true
  pub offset : op.offset ≡ s.offset

pub wait_arrivals-Held :
    (file : Bytes) (arrivals : Arrivals) (s : OpArg)
    → IsHonestServer file arrivals
    → IsSound file s
    → Held file s (wait_arrivals arrivals s)
unfolding wait_arrivals
wait_arrivals-Held file arrivals s honest v =
    let p =
      read_callbacks-Arrived file (arrivals s) (unlock s) (IsSound-locked file s false v) refl
        (honest s) in
    record {
      op = record p.op { locked = true };
      returned = rw (p.returned, ◌>>=◌) (lock_lem p.op p.unlocked);
      sound = IsSound-locked file p.op true p.sound;
      locked = refl;
      offset = p.offset;
    }

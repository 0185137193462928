-- ===== src/Gridftp/Prepare.antt =====
-- The preparation of the GridFTP operations of a request in request.c.
use mathlib.Core.Path.{subst}
use globus_dsi_rest.Base.{
  ℕ, ◌^◌, ◌≤◌, ◌<◌, ◌≡◌, ◌⊎◌, refl, sym, ap, Bool, true, Option, none, some, List, inr, ◌==◌,
  if◌then◌else◌, Bytes, length, All, Error, add_size, size_mod, eq→==,
}
use globus_dsi_rest.Base.Runs.{Run, done, stuck, out_of_fuel, ◌>>=◌, ◌>>◌, assert}
use globus_dsi_rest.Gridftp.Op.{OpArg, Server, new_op, no_offset}
use globus_dsi_rest.Gridftp.ReadOp.{Others}
use globus_dsi_rest.Gridftp.ReadOp.Inv.{Finishes, IsFair}
use globus_dsi_rest.Gridftp.ReadOp.Rounds.{Grants}
use globus_dsi_rest.Gridftp.ReadOp.Whole.{Delivered, receive, concat, receive-Delivered}
use globus_dsi_rest.Gridftp.WriteOp.{Arrivals}
use globus_dsi_rest.Gridftp.WriteOp.Inv.{IsSound}
use globus_dsi_rest.Gridftp.WriteOp.Arrive.{IsHonestServer}
use globus_dsi_rest.Gridftp.WriteOp.Whole.{send, Sends, send-Sends}

-- `globus_dsi_rest_gridftp_op_arg_t`: the part of the file that is transferred. A length of
-- `UINT64_C(-1)` reaches to its end.
pub record Section : Type 0 where
  pub offset : ℕ
  pub length : ℕ

-- What `malloc`, `globus_mutex_init` and `globus_cond_init` do. A code of 0 is success.
pub record Init : Type 0 where
  pub allocated : Bool
  pub mutex_rc : ℕ
  pub cond_rc : ℕ

-- The result and the new argument of the part's callback.
pub record Prepared : Type 0 where
  pub result : Option Error
  pub op : Option OpArg

-- The mutex and the condition of a new operation.
unfoldable pub init_op : Init → OpArg → Prepared
init_op i s =
    if i.mutex_rc == 0
    then (if i.cond_rc == 0
        then record { result = none; op = some s }
        else record { result = some Error.thread_fail; op = none })
    else record { result = some Error.thread_fail; op = none }

-- `globus_l_dsi_rest_prepare_write_gridftp_op_callback`, which does not look at the result of `malloc`.
unfoldable pub prepare_write_gridftp_op_callback : Init → Section → Run Prepared
unfolding init_op
prepare_write_gridftp_op_callback i a =
    let end_offset = if a.length == no_offset then no_offset else add_size a.offset a.length in
    assert i.allocated >> done (init_op i (new_op a.offset end_offset))

-- `globus_l_dsi_rest_prepare_read_gridftp_op`. Without a length the end stays 0.
unfoldable pub prepare_read_gridftp_op : Init → Section → Prepared
unfolding init_op
prepare_read_gridftp_op i a =
    let end_offset = if a.length == no_offset then 0 else add_size a.offset a.length in
    if i.allocated
    then init_op i (new_op a.offset end_offset)
    else record { result = some Error.memory; op = none }

pub record Succeeds (i : Init) : Type 0 where
  pub allocated : i.allocated ≡ true
  pub mutex : i.mutex_rc ≡ 0
  pub cond : i.cond_rc ≡ 0

-- What is done with the operation when it has been prepared.
abbrev pub prepared {ℓ} : {A : Type ℓ} → (OpArg → Run A) → Prepared → Run A
prepared next p = elim p.op [ none ↦ stuck | some s ↦ next s ]

init_op_lem :
    (i : Init) (s : OpArg) → Succeeds i → init_op i s ≡ record { result = none; op = some s }
unfolding init_op
init_op_lem i s ok =
    let m : (i.mutex_rc == 0) ≡ true = eq→== i.mutex_rc 0 ok.mutex in
    let c : (i.cond_rc == 0) ≡ true = eq→== i.cond_rc 0 ok.cond in rw (m, init_op) (rw c refl)

abbrev pub end_of_write : Section → ℕ
end_of_write a = if a.length == no_offset then no_offset else add_size a.offset a.length

abbrev pub end_of_read : Section → ℕ
end_of_read a = if a.length == no_offset then 0 else add_size a.offset a.length

pub prepare_write_lem :
    (i : Init) (a : Section)
    → Succeeds i
    → prepare_write_gridftp_op_callback i a
      ≡ done (record { result = none; op = some (new_op a.offset (end_of_write a)) })
unfolding prepare_write_gridftp_op_callback
prepare_write_lem i a ok =
    rw (ok.allocated, prepare_write_gridftp_op_callback)
      (ap done (init_op_lem i (new_op a.offset (end_of_write a)) ok))

pub prepare_read_lem :
    (i : Init) (a : Section)
    → Succeeds i
    → prepare_read_gridftp_op i a
      ≡ record { result = none; op = some (new_op a.offset (end_of_read a)) }
unfolding prepare_read_gridftp_op
prepare_read_lem i a ok =
    rw (ok.allocated, prepare_read_gridftp_op) (init_op_lem i (new_op a.offset (end_of_read a)) ok)

new_op-IsSound :
    (file : Bytes) (offset end_offset : ℕ)
    → offset ≤ length file
    → IsSound file (new_op offset end_offset)
new_op-IsSound file offset end_offset h = record {
  pieces = tt;
  free = inr tt;
  idle = refl;
  within = h;
}

-- From the preparation to the last call: when that succeeds, for a section that starts in a file of
-- less than 2^64 bytes, and the server's arrivals, in front of a call or while it waits, are pieces of
-- the file, errors or the end of the data, libcurl's calls of write_gridftp_op with room for less than 2^31 bytes each either come to
-- one that still waits behind any given number of waits, or all return and hand out exactly the
-- file's bytes from the section's offset on.
pub prepare_write-Sends :
    (i : Init) (a : Section) (srv : Server) (between arrivals : Arrivals) (file : Bytes)
    → Succeeds i
    → IsHonestServer file between
    → IsHonestServer file arrivals
    → length file < size_mod
    → a.offset ≤ length file
    → (waits : ℕ) (ns : List ℕ) → All (λ n. n < 2 ^ 31) ns
    → ((prepare_write_gridftp_op_callback i a >>= prepared (send srv between arrivals waits ns))
        ≡ out_of_fuel)
      ⊎ Sends file
          (new_op a.offset (end_of_write a))
          (prepare_write_gridftp_op_callback i a >>= prepared (send srv between arrivals waits ns))
prepare_write-Sends i a srv between arrivals file ok early honest small h waits ns rooms =
    let s = new_op a.offset (end_of_write a) in
    subst (λ r. (r ≡ out_of_fuel) ⊎ Sends file s r)
      (sym
        (ap (λ p. p >>= prepared (send srv between arrivals waits ns)) (prepare_write_lem i a ok)))
      (send-Sends srv between arrivals file early honest small waits ns s
        (new_op-IsSound file a.offset (end_of_write a) h) refl rooms)

-- From the preparation to the end of the response: when that succeeds, memory does not run out, and
-- the server takes every write and goes on finishing them, in whatever order and at whatever time,
-- the chunks of a response, none of them empty, are written to the data channel end to end from the
-- section's offset on, whatever its length, and nothing is outstanding at the end.
pub prepare_read-Delivered :
    (i : Init) (a : Section) (srv : Server) (others between : Others)
    → Succeeds i
    → Grants srv
    → IsFair others
    → ((s : OpArg) → Finishes s.registered_buffers (between s))
    → (cs : List Bytes) → All (λ c. 0 < length c) cs
    → Delivered a.offset
        (concat cs)
        (prepared (λ s. receive srv others between s cs) (prepare_read_gridftp_op i a))
prepare_read-Delivered i a srv others between ok grants fair orderly cs some_bytes =
    subst (Delivered a.offset (concat cs))
      (sym (ap (prepared (λ s. receive srv others between s cs)) (prepare_read_lem i a ok)))
      (receive-Delivered srv grants others fair between orderly a.offset (end_of_read a) cs
        some_bytes)

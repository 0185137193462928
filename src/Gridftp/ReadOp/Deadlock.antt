-- ===== src/Gridftp/ReadOp/Deadlock.antt =====
-- The jump of read_gridftp_op.c over the release of the mutex.
use globus_dsi_rest.Base.{
  ℕ, zero, suc, ◌+◌, ◌<◌, ◌≡◌, refl, ap, true, false, none, some, [], Bytes, length, ◌==◌, leb,
  Error, arith, ne→==,
}
use globus_dsi_rest.Base.Runs.{done, out_of_fuel, ◌>>=◌}
use globus_dsi_rest.Gridftp.Op.{OpArg, Server, lock, buffer_get}
use globus_dsi_rest.Gridftp.ReadOp.{Others, wait_below, out, copy_loop, leave, read_gridftp_op}
use globus_dsi_rest.Gridftp.ReadOp.Inv.{lock_lem}

module _ (srv : Server) (refused : (n : ℕ) → srv.alloc n ≡ false) where
  no_buffer :
      (size : ℕ) (s : OpArg)
      → s.current_buffer ≡ none
      → s.free_buffers ≡ []
      → buffer_get srv size s ≡ record { buffer = none; op = s }
  unfolding buffer_get
  no_buffer size s c f = simp (c, f, buffer_get, refused)

  no_wait :
      (others : Others) (fuel : ℕ) (s : OpArg)
      → s.registered_buffers_count < srv.optimal_concurrency
      → 0 < fuel
      → wait_below others srv.optimal_concurrency fuel s ≡ done s
  unfolding wait_below
  no_wait others zero s room pos = absurd (omega arith)
  no_wait others (suc fuel) s room pos =
      let t : leb srv.optimal_concurrency s.registered_buffers_count ≡ false = ground arith in
      rw (t, wait_below) refl

  gives_up :
      (others : Others) (fuel : ℕ) (bytes : Bytes) (s : OpArg)
      → 0 < fuel
      → s.current_buffer ≡ none
      → s.free_buffers ≡ []
      → s.registered_buffers_count < srv.optimal_concurrency
      → copy_loop srv others fuel bytes s
        ≡ done (record { exit = out; result = none; op = record s { result = some Error.memory } })
  unfolding copy_loop
  gives_up others zero bytes s pos c f room = absurd (omega arith)
  gives_up others (suc fuel) bytes s pos c f room =
      rw (no_wait others (s.registered_buffers_count + 1) s room (omega arith), copy_loop)
        (rw (no_buffer (length bytes) s c f, ◌>>=◌)
          (ap
            (λ g. done (record {
              exit = out;
              result = none;
              op = record g.op { result = some Error.memory };
            }))
            (no_buffer (length bytes) s c f)))

-- When a call with some bytes has no buffer and memory runs out, it returns with success although it
-- has taken nothing, and no later call on the operation returns: the mutex stays locked.
pub read_gridftp_op_deadlock :
    (srv : Server) (others : Others) (s : OpArg) (bytes : Bytes)
    → ((n : ℕ) → srv.alloc n ≡ false)
    → s.locked ≡ false
    → s.current_buffer ≡ none
    → s.free_buffers ≡ []
    → s.registered_buffers_count < srv.optimal_concurrency
    → 0 < length bytes
    → (s' : OpArg) × (read_gridftp_op srv others s bytes ≡ done (record { result = none; op = s' }))
      × (s'.writes ≡ s.writes)
      × ((others' : Others) (more : Bytes) → read_gridftp_op srv others' s' more ≡ out_of_fuel)
unfolding read_gridftp_op copy_loop leave lock
read_gridftp_op_deadlock srv others s bytes refused u c f room pos =
    let t : (length bytes == 0) ≡ false = ne→== (length bytes) 0 (λ e. omega arith) in
    (
      record s { locked = true; result = some Error.memory },
      rw (lock_lem s u, read_gridftp_op)
          (rw (t, ◌>>=◌)
            (rw
              (
                gives_up srv refused others (length bytes) bytes (record s { locked = true }) pos c
                    f room,
                ◌>>=◌,
              )
              refl)),
      refl,
      (λ others' more. refl),
    )

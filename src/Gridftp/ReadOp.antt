-- ===== src/Gridftp/ReadOp.antt =====
-- `globus_l_dsi_rest_read_gridftp_op` of read_gridftp_op.c, which copies the bytes of a response into
-- buffers and registers these to be written to the data channel, and the callback that the GridFTP
-- server calls when a buffer is written.
pub mod Inv
pub mod Rounds
pub mod Flush
pub mod Laws
pub mod Whole
pub mod Deadlock
use globus_dsi_rest.Base.{
  ℕ, zero, suc, ◌+◌, ◌-◌, Bool, true, false, ◌&&◌, ◌||◌, Option, none, some, List, [], ◌∷◌, ◌++◌,
  ltb, leb, ◌==◌, if◌then◌else◌, Bytes, length, take, drop, min, Error, add_size,
}
use globus_dsi_rest.Base.Runs.{Run, done, stuck, out_of_fuel, ◌>>=◌, ◌>>◌, assert}
use globus_dsi_rest.Gridftp.Op.{
  Buffer, used_bytes, ChannelWrite, OpArg, Server, lock, unlock, buffer_get, Gotten, remove,
  Removed,
}
use globus_dsi_rest.Transfer.Request.{first_error}

-- `globus_l_dsi_rest_gridftp_write_callback` for the buffer at an address, with the mutex held.
unfoldable pub finish_write : ℕ → OpArg → OpArg
unfolding remove
finish_write a s =
    let r = remove a s.registered_buffers in
    record s {
      registered_buffers = r.rest;
      registered_buffers_count = s.registered_buffers_count - 1;
      free_buffers = elim r.buffer [
        | none ↦ s.free_buffers
        | some b ↦ record b { buffer_used = 0 } ∷ s.free_buffers
      ];
    }

unfoldable pub write_callback : ℕ → OpArg → Run OpArg
unfolding lock finish_write
write_callback a s = do s' ← lock s; done (unlock (finish_write a s'))

unfoldable pub write_callbacks : List ℕ → OpArg → Run OpArg
unfolding write_callback
write_callbacks [] s = done s
write_callbacks (a ∷ as') s = do s' ← write_callback a s; write_callbacks as' s'

-- What else runs while a thread waits: the addresses of the buffers whose writes the server finishes
-- before the thread goes on.
abbrev pub Others : Type 0
Others = OpArg → List ℕ

-- `globus_cond_wait` lets the others run without the mutex.
unfoldable pub cond_wait : Others → OpArg → Run OpArg
unfolding write_callbacks lock
cond_wait others s = do s' ← write_callbacks (others s) (unlock s); lock s'

-- The loop that waits until fewer than `limit` buffers are registered.
unfoldable pub wait_below : Others → ℕ → ℕ → OpArg → Run OpArg
unfolding cond_wait
wait_below others limit zero s = out_of_fuel
wait_below others limit (suc fuel) s = elim (leb limit s.registered_buffers_count) [
  | false ↦ done s
  | true ↦ do s' ← cond_wait others s; wait_below others limit fuel s'
]

-- The copy into the current buffer, and what is left of the bytes.
pub record Copied : Type 0 where
  pub op : OpArg
  pub rest : Bytes

unfoldable pub copy_into : Buffer → Bytes → OpArg → Run Copied
copy_into b bytes s =
    let copy_size = min (b.buffer_len - b.buffer_used) (length bytes) in
    do
      assert (ltb 0 copy_size)
      done (record {
        op = record s {
          current_buffer = some (record b {
            memory = used_bytes b ++ take copy_size bytes;
            buffer_used = b.buffer_used + copy_size;
          });
        };
        rest = drop copy_size bytes;
      })

-- Whether the current buffer is complete, or the last one and not empty.
unfoldable pub is_complete : Bool → Buffer → Bool
is_complete eof b = (eof && ltb 0 b.buffer_used) || b.buffer_used == b.buffer_len

unfoldable pub enqueue : Bool → OpArg → OpArg
unfolding is_complete
enqueue eof s = elim s.current_buffer [
  | none ↦ s
  | some b ↦
      if is_complete eof b
      then record s { pending_buffers = s.pending_buffers ++ (b ∷ []); current_buffer = none }
      else s
]

-- A result (`none` is GLOBUS_SUCCESS) and the state.
pub record Ended : Type 0 where
  pub result : Option Error
  pub op : OpArg

-- The state when the first pending buffer is registered.
abbrev pub registered : Buffer → List Buffer → ChannelWrite → OpArg → OpArg
registered b bs w s = record s {
  registered_buffers_count = s.registered_buffers_count + 1;
  offset = add_size s.offset b.buffer_used;
  pending_buffers = bs;
  registered_buffers = b ∷ s.registered_buffers;
  writes = s.writes ++ (w ∷ []);
}

abbrev pub write_of : Buffer → OpArg → ChannelWrite
write_of b s = record { offset = s.offset; bytes = used_bytes b }

-- `globus_l_dsi_rest_send_pending`, over the pending buffers.
unfoldable pub send_all : Server → List Buffer → OpArg → Ended
send_all srv [] s = record { result = none; op = s }
send_all srv (b ∷ bs) s =
    let rest = send_all srv bs (registered b bs (write_of b s) s) in
    elim (srv.register_write (write_of b s)) [
      | some e ↦ record {
        result = some e;
        op = record s { result = first_error s.result (some e) };
      }
      | none ↦ rest
    ]

unfoldable pub send_pending : Server → OpArg → Ended
unfolding send_all
send_pending srv s = send_all srv s.pending_buffers s

-- How the loop is left: by its end or the jump to `send_fail`, or by the jump to `out`, over the
-- release of the mutex.
pub data Exit : Type 0 where
  send_fail out : Exit

pub record Looped : Type 0 where
  pub exit : Exit
  pub result : Option Error
  pub op : OpArg

-- The end of the loop's body, with what is left of the bytes.
unfoldable pub flush : Server → Bool → OpArg → Ended
unfolding enqueue send_pending
flush srv eof s = send_pending srv (enqueue eof s)

-- The loop with some bytes, which are not the end of the data.
unfoldable pub copy_loop : Server → Others → ℕ → Bytes → OpArg → Run Looped
unfolding wait_below buffer_get copy_into flush
copy_loop srv others zero bytes s = out_of_fuel
copy_loop srv others (suc fuel) bytes s = do
  s₁ ← wait_below others srv.optimal_concurrency (s.registered_buffers_count + 1) s
  let g = buffer_get srv (length bytes) s₁
  elim g.buffer [
    | none ↦
        done (record { exit = out; result = none; op = record g.op { result = some Error.memory } })
    | some b ↦ do
      c ← copy_into b bytes g.op
      let f = flush srv false c.op
      elim f.result [
        | some e ↦ done (record { exit = send_fail; result = some e; op = f.op })
        | none ↦ elim (length c.rest == 0) [
          | true ↦ done (record { exit = send_fail; result = none; op = f.op })
          | false ↦ copy_loop srv others fuel c.rest f.op
        ]
      ]
  ]

-- The end of the data: the last buffer is sent, and all that is registered is waited for.
unfoldable pub finish_data : Server → Others → OpArg → Run Ended
unfolding flush wait_below
finish_data srv others s = do
  let f = flush srv true s
  s' ← wait_below others 1 (f.op.registered_buffers_count + 1) f.op
  done (record { result = f.result; op = unlock s' })

unfoldable pub leave : Looped → Ended
leave l = elim l.exit [
  | out ↦ record { result = l.result; op = l.op }
  | send_fail ↦ record { result = l.result; op = unlock l.op }
]

-- No bytes are the end of the data. A round copies a byte, so there are at most as many rounds.
unfoldable pub read_gridftp_op : Server → Others → OpArg → Bytes → Run Ended
unfolding lock copy_loop finish_data leave
read_gridftp_op srv others s bytes = do
  s₁ ← lock s
  elim (length bytes == 0) [
    | true ↦ finish_data srv others s₁
    | false ↦ do l ← copy_loop srv others (length bytes) bytes s₁; done (leave l)
  ]

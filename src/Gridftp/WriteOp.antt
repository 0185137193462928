-- ===== src/Gridftp/WriteOp.antt =====
-- `globus_l_dsi_rest_write_gridftp_op` of write_gridftp_op.c, which hands the bytes of the data
-- channel to libcurl, and the callback that the GridFTP server calls when a read is done.
pub mod Inv
pub mod Arrive
pub mod Register
pub mod HandOut
pub mod Wait
pub mod Laws
pub mod Order
pub mod Whole
pub mod Empty
use globus_dsi_rest.Base.{
  ℕ, zero, suc, ◌+◌, ◌-◌, ◌%◌, ◌^◌, Bool, true, false, not, ◌&&◌, ◌||◌, Option, none, some, List,
  [], ◌∷◌, ◌++◌, ltb, leb, ◌==◌, if◌then◌else◌, Bytes, length, take, drop, Error, add_size,
  sub_size, size_mod,
}
use globus_dsi_rest.Base.Runs.{Run, done, stuck, out_of_fuel, ◌>>=◌, ◌>>◌, assert}
use globus_dsi_rest.Gridftp.Op.{
  Buffer, used_bytes, ChannelRead, OpArg, Server, lock, unlock, buffer_get, Gotten, remove, Removed,
  no_offset,
}
use globus_dsi_rest.Gridftp.ReadOp.{Ended}
use globus_dsi_rest.Transfer.Request.{first_error}

-- The arguments of `globus_l_dsi_rest_gridftp_read_callback`, with the bytes that the server has put
-- into the buffer.
pub record Arrival : Type 0 where
  pub result : Option Error
  pub address : ℕ
  pub bytes : Bytes
  pub offset : ℕ
  pub eof : Bool

-- The place of a buffer among the pending ones: behind all that end where it starts or before.
unfoldable pub insert_pending : Buffer → List Buffer → List Buffer
insert_pending b [] = b ∷ []
insert_pending b (p ∷ ps) =
    let rest = insert_pending b ps in
    if leb (add_size p.transfer_offset p.buffer_used) b.transfer_offset
    then p ∷ rest
    else b ∷ (p ∷ ps)

-- Whether an arrival is the end of the data: the server says so, or the section is complete.
unfoldable pub ends_section : OpArg → Arrival → Bool
ends_section s a =
    a.eof || (not (s.end_offset == 0) && add_size a.offset (length a.bytes) == s.end_offset)

-- What is noted of an arrival before its buffer is looked at.
unfoldable pub note_arrival : Arrival → OpArg → OpArg
unfolding ends_section
note_arrival a s = record s {
  eofp = s.eofp || a.eof;
  result = first_error s.result a.result;
  eof = s.eof || ends_section s a;
}

abbrev pub free_buffer : Buffer → OpArg → OpArg
free_buffer b s = record s { free_buffers = b ∷ s.free_buffers }

-- Where the buffer of an arrival goes: after an error it is freed, an empty one is freed with its
-- size set to the largest one, and another one is pending.
unfoldable pub place : Arrival → Buffer → OpArg → OpArg
unfolding insert_pending
place a b s = elim s.result [
  | some e ↦
      free_buffer (record b { buffer_used = 0; transfer_offset = 0; memory = a.bytes })
        (record s { eof = true })
  | none ↦
      if length a.bytes == 0
      then free_buffer
          (record b { buffer_used = size_mod - 1; transfer_offset = no_offset; memory = a.bytes }) s
      else record s {
        pending_buffers =
            insert_pending
              (record b {
                buffer_used = length a.bytes;
                transfer_offset = a.offset;
                memory = a.bytes;
              })
              s.pending_buffers;
      }
]

-- The callback with the mutex held. The buffer must be registered.
unfoldable pub arrive : Arrival → OpArg → Run OpArg
unfolding note_arrival remove place
arrive a s =
    let r = remove a.address s.registered_buffers in
    elim r.buffer [
      | none ↦ stuck
      | some b ↦ done (place a b (record (note_arrival a s) { registered_buffers = r.rest }))
    ]

unfoldable pub read_callback : Arrival → OpArg → Run OpArg
unfolding lock arrive
read_callback a s = do s₁ ← lock s; s₂ ← arrive a s₁; done (unlock s₂)

unfoldable pub read_callbacks : List Arrival → OpArg → Run OpArg
unfolding read_callback
read_callbacks [] s = done s
read_callbacks (a ∷ rest) s = do s' ← read_callback a s; read_callbacks rest s'

-- What arrives while a thread waits.
abbrev pub Arrivals : Type 0
Arrivals = OpArg → List Arrival

unfoldable pub wait_arrivals : Arrivals → OpArg → Run OpArg
unfolding read_callbacks lock
wait_arrivals arrivals s = do s' ← read_callbacks (arrivals s) (unlock s); lock s'

-- `globus_l_dsi_rest_is_transfer_offset_ready`
unfoldable pub is_transfer_offset_ready : OpArg → Bool
is_transfer_offset_ready s = elim s.pending_buffers [
  | [] ↦ false
  | b ∷ bs ↦ b.transfer_offset == s.offset
]

-- `globus_l_dsi_rest_is_reading_complete`
unfoldable pub is_reading_complete : OpArg → Bool
is_reading_complete s = s.eof && (elim s.registered_buffers [ [] ↦ true | b ∷ bs ↦ false ])

-- The bytes that are free, as `globus_l_dsi_rest_count_buffers` counts them.
unfoldable pub bytes_available : List Buffer → ℕ
bytes_available [] = 0
bytes_available (b ∷ bs) = add_size (sub_size b.buffer_len b.buffer_used) (bytes_available bs)

-- How much of the section is not yet asked for, or a block if the section has no end.
unfoldable pub remaining : Server → OpArg → ℕ → ℕ
remaining srv s bytes_registered =
    if s.end_offset == no_offset
    then srv.block_size
    else sub_size (sub_size s.end_offset s.offset) bytes_registered

-- A round of the loop: it fails, or registers a read of some bytes.
pub data Round : Type 0 where
  failed : Error → OpArg → Round
  reads_next : ℕ → OpArg → Round

-- A round with the buffer that was got and with `left` bytes to ask for.
unfoldable pub register_one : Server → ℕ → Gotten → Run Round
register_one srv left g = elim g.buffer [
  | none ↦ done (failed Error.memory (record g.op { current_buffer = none }))
  | some b ↦
      let this_read = if ltb left b.buffer_len then left else b.buffer_len in
      let read : ChannelRead = record { address = b.address; length = this_read } in
      let b' : Buffer = record b { transfer_offset = no_offset } in
      assert (b.buffer_used == 0) >> elim (srv.register_read read) [
        | some e ↦ done (failed e (free_buffer b' (record g.op { current_buffer = none })))
        | none ↦ done (
            reads_next this_read (record g.op {
              current_buffer = none;
              registered_buffers = b' ∷ g.op.registered_buffers;
              reads = g.op.reads ++ (read ∷ []);
            }))
      ]
]

-- The loop of `globus_l_dsi_rest_write_register_reads` with some rounds left.
unfoldable pub register_loop : Server → ℕ → ℕ → OpArg → Run Ended
unfolding remaining buffer_get register_one
register_loop srv zero bytes s = done (record { result = none; op = s })
register_loop srv (suc rounds) bytes s =
    let left = remaining srv s bytes in
    elim (not (s.end_offset == no_offset) && left == 0) [
      | true ↦ done (record { result = none; op = s })
      | false ↦ do
        r ← register_one srv left (buffer_get srv srv.block_size s)
        elim r [
          | failed e s' ↦ done (record { result = some e; op = s' })
          | reads_next n s' ↦ register_loop srv rounds (add_size bytes n) s'
        ]
    ]

-- `globus_l_dsi_rest_write_register_reads`
unfoldable pub register_reads : Server → OpArg → Run Ended
unfolding register_loop bytes_available
register_reads srv s = elim s.result [
  | some e ↦ done (record { result = none; op = s })
  | none ↦ elim s.eof [
    | true ↦ done (record { result = none; op = s })
    | false ↦
        register_loop srv (srv.optimal_concurrency - length s.registered_buffers)
          (bytes_available s.registered_buffers) s
  ]
]

-- The loop that waits for the next bytes, with a number of waits left.
unfoldable pub wait_ready : Server → Arrivals → ℕ → OpArg → Run OpArg
unfolding is_transfer_offset_ready is_reading_complete register_reads wait_arrivals
wait_ready srv arrivals zero s = out_of_fuel
wait_ready srv arrivals (suc waits) s = elim (is_transfer_offset_ready s || is_reading_complete s) [
  | true ↦ done s
  | false ↦ do
    r ← register_reads srv s
    let s₁ = record r.op { result = first_error r.op.result r.result }
    elim s₁.result [
      | none ↦ do s₂ ← wait_arrivals arrivals s₁; wait_ready srv arrivals waits s₂
      | some e ↦ elim s₁.registered_buffers [
        | [] ↦ done s₁
        | b ∷ bs ↦ do s₂ ← wait_arrivals arrivals s₁; wait_ready srv arrivals waits s₂
      ]
    ]
]

-- The value of a size that is put into an `int`, when it is compared with a size again.
abbrev pub as_int : ℕ → ℕ
as_int n = let low = n % 2 ^ 32 in if ltb low (2 ^ 31) then low else low + (size_mod - 2 ^ 32)

unfoldable pub to_copy : ℕ → Buffer → ℕ
to_copy room b = if ltb b.buffer_used (as_int room) then as_int b.buffer_used else as_int room

-- The first pending buffer loses its first `n` bytes, and is freed when that is all of it.
unfoldable pub consume : ℕ → Buffer → List Buffer → OpArg → OpArg
consume n b bs s =
    let s' = record s { offset = add_size s.offset n } in
    if ltb n b.buffer_used
    then record s' {
      pending_buffers =
          record b {
            memory = drop n (used_bytes b);
            buffer_used = b.buffer_used - n;
            transfer_offset = add_size b.transfer_offset n;
          }
          ∷ bs;
    }
    else record s' {
      pending_buffers = bs;
      free_buffers = record b { transfer_offset = no_offset; buffer_used = 0 } ∷ s.free_buffers;
    }

-- The bytes in libcurl's buffer and the state.
pub record Handed : Type 0 where
  pub copied : Bytes
  pub op : OpArg

-- The loop that copies into libcurl's buffer of `n` bytes.
unfoldable pub hand_out : ℕ → ℕ → Bytes → OpArg → Run Handed
unfolding is_transfer_offset_ready to_copy consume
hand_out zero n copied s = out_of_fuel
hand_out (suc fuel) n copied s = elim (ltb (length copied) n && is_transfer_offset_ready s) [
  | false ↦ done (record { copied = copied; op = s })
  | true ↦ elim s.pending_buffers [
    | [] ↦ stuck
    | b ∷ bs ↦
        let k = to_copy (n - length copied) b in
        assert (ltb 0 k && ltb k (2 ^ 31))
        >> hand_out fuel n (copied ++ take k b.memory) (consume k b bs s)
  ]
]

-- What a call leaves behind.
pub record Written : Type 0 where
  pub result : Option Error
  pub copied : Bytes
  pub op : OpArg

-- `waits` is how often the call waits at most before the model gives up.
unfoldable pub write_gridftp_op : Server → Arrivals → ℕ → OpArg → ℕ → Run Written
unfolding lock wait_ready hand_out
write_gridftp_op srv arrivals waits s n = do
  s₁ ← lock s
  elim (s₁.offset == s₁.end_offset) [
    | true ↦ done (record { result = none; copied = []; op = unlock (record s₁ { eof = true }) })
    | false ↦ do
      s₂ ← wait_ready srv arrivals waits s₁
      elim s₂.result [
        | some e ↦ done (record { result = some e; copied = []; op = unlock s₂ })
        | none ↦ do
          h ← hand_out (n + 1) n [] s₂
          done (record { result = none; copied = h.copied; op = unlock h.op })
      ]
  ]

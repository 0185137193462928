-- ===== src/Gridftp/Op.antt =====
-- `globus_i_dsi_rest_gridftp_op_arg_t`, its buffers and its mutex, and
-- `globus_i_dsi_rest_buffer_get` of buffer_get.c.
use globus_dsi_rest.Base.{
  ℕ, ◌+◌, ◌-◌, Bool, true, false, Option, none, some, List, [], ◌∷◌, ltb, if◌then◌else◌, Bytes,
  take, ◌==◌, Error, size_mod,
}
use globus_dsi_rest.Base.Runs.{Run, done, out_of_fuel}

-- `globus_i_dsi_rest_buffer_t`, without `next`: a chain of buffers is a list. The address is that of
-- its array, and `memory` is what has been put there, from its start.
pub record Buffer : Type 0 where
  pub address : ℕ
  pub buffer_len : ℕ
  pub buffer_used : ℕ
  pub transfer_offset : ℕ
  pub memory : Bytes

-- The bytes of a buffer that are used.
abbrev pub used_bytes : Buffer → Bytes
used_bytes b = take b.buffer_used b.memory

-- A call of `globus_gridftp_server_register_write`, with the bytes at the time of the call.
pub record ChannelWrite : Type 0 where
  pub offset : ℕ
  pub bytes : Bytes

-- A call of `globus_gridftp_server_register_read`.
pub record ChannelRead : Type 0 where
  pub address : ℕ
  pub length : ℕ

-- The state of an operation. `pending_buffers_last` always points at the end of `pending_buffers`, so
-- it is left out. `eofp` is what the pointer of that name points to. The last three fields record
-- what the operation has asked for: how often it called `malloc`, and its calls of the server.
pub record OpArg : Type 0 where
  pub locked : Bool
  pub result : Option Error
  pub offset : ℕ
  pub end_offset : ℕ
  pub eof : Bool
  pub eofp : Bool
  pub pending_buffers : List Buffer
  pub current_buffer : Option Buffer
  pub registered_buffers : List Buffer
  pub registered_buffers_count : ℕ
  pub free_buffers : List Buffer
  pub allocated : ℕ
  pub writes : List ChannelWrite
  pub reads : List ChannelRead

-- A new operation on the bytes from an offset on, up to another one.
abbrev pub new_op : ℕ → ℕ → OpArg
new_op offset end_offset = record {
  locked = false;
  result = none;
  offset = offset;
  end_offset = end_offset;
  eof = false;
  eofp = false;
  pending_buffers = [];
  current_buffer = none;
  registered_buffers = [];
  registered_buffers_count = 0;
  free_buffers = [];
  allocated = 0;
  writes = [];
  reads = [];
}

-- The GridFTP server and the allocator, which are not part of the library.
pub record Server : Type 0 where
  pub block_size : ℕ
  pub optimal_concurrency : ℕ
  pub register_write : ChannelWrite → Option Error
  pub register_read : ChannelRead → Option Error
  pub alloc : ℕ → Bool

-- A thread that locks the mutex twice waits for ever.
unfoldable pub lock : OpArg → Run OpArg
lock s = if s.locked then out_of_fuel else done (record s { locked = true })

abbrev pub unlock : OpArg → OpArg
unlock s = record s { locked = false }

-- `sizeof(globus_i_dsi_rest_buffer_t)`: two sizes, an offset and a pointer.
abbrev pub header_size : ℕ
header_size = 32

-- `SIZE_MAX`
abbrev pub size_max : ℕ
size_max = size_mod - 1

-- The room of a new buffer: at least a block of the server, and no more than `malloc` can be asked.
unfoldable pub buffer_room : ℕ → ℕ → ℕ
buffer_room block size =
    let n = if ltb size block then block else size in
    if ltb (size_max - header_size) n then size_max - header_size else n

-- `UINT64_C(-1)`: no offset, or no end.
abbrev pub no_offset : ℕ
no_offset = size_mod - 1

abbrev pub new_buffer : ℕ → ℕ → Buffer
new_buffer address room = record {
  address = address;
  buffer_len = room;
  buffer_used = 0;
  transfer_offset = no_offset;
  memory = [];
}

-- The buffer, or a null pointer, and the state.
pub record Gotten : Type 0 where
  pub buffer : Option Buffer
  pub op : OpArg

unfoldable pub buffer_get : Server → ℕ → OpArg → Gotten
unfolding buffer_room
buffer_get srv size s = elim s.current_buffer [
  | some b ↦ record { buffer = some b; op = s }
  | none ↦ elim s.free_buffers [
    | b ∷ bs ↦ record {
      buffer = some b;
      op = record s { current_buffer = some b; free_buffers = bs };
    }
    | [] ↦
        let room = buffer_room srv.block_size size in
        if srv.alloc (header_size + room)
        then record {
          buffer = some (new_buffer s.allocated room);
          op = record s {
            current_buffer = some (new_buffer s.allocated room);
            allocated = s.allocated + 1;
          };
        }
        else record { buffer = none; op = s }
  ]
]

-- Takes the buffer at an address out of a chain.
pub record Removed : Type 0 where
  pub buffer : Option Buffer
  pub rest : List Buffer

unfoldable pub remove : ℕ → List Buffer → Removed
remove a [] = record { buffer = none; rest = [] }
remove a (b ∷ bs) =
    let r = remove a bs in
    if b.address == a
    then record { buffer = some b; rest = bs }
    else record { buffer = r.buffer; rest = b ∷ r.rest }

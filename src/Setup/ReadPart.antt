-- ===== src/Setup/ReadPart.antt =====
-- `globus_i_dsi_rest_read_part_t`: `globus_l_dsi_rest_prepare_read_callbacks` of request.c, the
-- functions that it calls, and `globus_l_dsi_rest_request_cleanup_read_part` of request_cleanup.c.
pub mod Drain
pub mod Owns
pub mod Leaves
pub mod Ready
use globus_dsi_rest.Base.{
  ℕ, ◌+◌, suc, Bool, true, false, not, Option, none, some, List, [], ◌∷◌, if◌then◌else◌, Error,
}
use globus_dsi_rest.Base.Runs
use globus_dsi_rest.Base.Runs.{Run, done}
use globus_dsi_rest.Gridftp.Op.{OpArg, lock, unlock}
use globus_dsi_rest.Gridftp.ReadOp.{Others, wait_below}
use globus_dsi_rest.Gridftp.Prepare.{Section, Prepared, prepare_read_gridftp_op}
use globus_dsi_rest.Setup.Heap.{
  Pointer, null, block, M, pure, stop, lift, ◌>>=◌, ◌>>◌, is_null, malloc, free,
}
use globus_dsi_rest.Setup.WritePart.{MallocedHeader}
use globus_dsi_rest.Setup.CleanUp.{free_strings, free_chain}
use globus_dsi_rest.Setup.PrepareWrite.{Env}

-- `data_read_callback` with its argument, as the application gives them: none, its own callback
-- (`custom`), or a predefined one. Where a result is delivered to is left out.
mutual
  pub data Sink : Type 0 where
    no_callback custom read_json : Sink
    read_gridftp_op : Section → Sink
    read_multipart : Sinks → Sink

  pub data Sinks : Type 0 where
    no_sink : Sinks
    sink : Sink → Sinks → Sinks

-- `headers`: the strings of the entries, and the array.
pub record ReadHeaders : Type 0 where
  pub strings : List MallocedHeader
  pub key_value : Pointer

-- `globus_i_dsi_rest_read_multipart_arg_t`, as far as memory goes.
pub record ReadMultipart : Type 0 where
  pub num_parts : ℕ
  pub parts : Pointer
  pub boundary : Pointer
  pub boundary_buffer : Pointer
  pub header_buffer : Pointer

-- A part, by what its `data_read_callback` takes its argument for. A `json_arg` has its own address,
-- which may be null, and that of its buffer; a `null_arg` is a null pointer for one of the other two.
mutual
  pub data ReadPart : Type 0 where
    read_part : ReadHeaders → ReadArg → ReadPart

  pub data ReadArg : Type 0 where
    custom null_arg : ReadArg
    json_arg : Pointer → Pointer → ReadArg
    op_arg : Pointer → OpArg → ReadArg
    multipart_arg : Pointer → ReadMultipart → ReadParts → ReadArg

  pub data ReadParts : Type 0 where
    no_parts : ReadParts
    one_part : ReadPart → ReadParts → ReadParts

pub record ReadReady : Type 0 where
  pub result : Option Error
  pub ready : ReadPart

pub record ReadsReady : Type 0 where
  pub result : Option Error
  pub ready : ReadParts

-- A part without response headers.
abbrev pub without : ReadArg → ReadPart
without arg = read_part (record { strings = []; key_value = null }) arg

abbrev pub memory_out : ReadArg → ReadReady
memory_out arg = record { result = some Error.memory; ready = without arg }

-- `globus_l_dsi_rest_prepare_read_json_callback`
unfoldable pub prepare_read_json_callback : (ℕ → Bool) → M ReadReady
unfolding malloc
prepare_read_json_callback grants = do
  arg ← malloc grants
  elim arg [
    | null ↦ pure (memory_out (ReadArg.json_arg null null))
    | block n ↦ pure (record { result = none; ready = without (ReadArg.json_arg (block n) null) })
  ]

-- The initialised operation in its allocation, or none, which is freed.
unfoldable pub op_ready : Pointer → Prepared → M ReadReady
unfolding free
op_ready wrapped_arg p = elim p.op [
  | none ↦ free wrapped_arg >> pure (record { result = p.result; ready = without ReadArg.null_arg })
  | some s ↦ pure (record { result = p.result; ready = without (ReadArg.op_arg wrapped_arg s) })
]

-- `globus_l_dsi_rest_prepare_read_gridftp_op`
unfoldable pub prepare_read_op : Env → Section → M ReadReady
unfolding malloc op_ready prepare_read_gridftp_op
prepare_read_op env a = do
  wrapped_arg ← malloc env.grants
  op_ready wrapped_arg (
      prepare_read_gridftp_op
        (record {
          allocated = not (is_null wrapped_arg);
          mutex_rc = env.mutex_rc;
          cond_rc = env.cond_rc;
        })
        a)

abbrev pub read_multipart_of : ℕ → Pointer → ReadMultipart
read_multipart_of n array = record {
  num_parts = n;
  parts = array;
  boundary = null;
  boundary_buffer = null;
  header_buffer = null;
}

unfoldable pub num_sinks : Sinks → ℕ
num_sinks no_sink = 0
num_sinks (sink s ss) = suc (num_sinks ss)

-- The rest of the array after an error.
unfoldable pub blank_reads : Sinks → ReadParts
blank_reads no_sink = no_parts
blank_reads (sink s ss) = one_part (without ReadArg.custom) (blank_reads ss)

unfoldable mutual
  unfolding prepare_read_json_callback prepare_read_op malloc num_sinks blank_reads

  -- A null pointer is freed after an error, which changes nothing.
  pub prepare_read_callbacks : Env → Sink → M ReadReady
  prepare_read_callbacks env Sink.no_callback =
      pure (record { result = none; ready = without ReadArg.custom })
  prepare_read_callbacks env Sink.custom =
      pure (record { result = none; ready = without ReadArg.custom })
  prepare_read_callbacks env Sink.read_json = prepare_read_json_callback env.grants
  prepare_read_callbacks env (Sink.read_gridftp_op a) = prepare_read_op env a
  prepare_read_callbacks env (Sink.read_multipart ss) = do
    arg ← malloc env.grants
    elim arg [
      | null ↦ pure (memory_out ReadArg.null_arg)
      | block n ↦ do
        array ← malloc env.grants
        elim array [
          | null ↦ pure (
              memory_out
                (ReadArg.multipart_arg (block n) (read_multipart_of (num_sinks ss) null) no_parts))
          | block m ↦ do
            r ← prepare_reads env ss
            pure (record {
              result = r.result;
              ready = without (
                  ReadArg.multipart_arg (block n) (read_multipart_of (num_sinks ss) (block m))
                    r.ready);
            })
        ]
    ]

  -- The loop over the parts, which an error leaves.
  pub prepare_reads : Env → Sinks → M ReadsReady
  prepare_reads env no_sink = pure (record { result = none; ready = no_parts })
  prepare_reads env (sink s ss) = do
    r ← prepare_read_callbacks env s
    elim r.result [
      | some e ↦ pure (record { result = some e; ready = one_part r.ready (blank_reads ss) })
      | none ↦ do
        rest ← prepare_reads env ss
        pure (record { result = rest.result; ready = one_part r.ready rest.ready })
    ]

-- The wait until no buffer is registered. `others` are those that run in the meantime.
unfoldable pub wait_idle : Others → OpArg → Run OpArg
unfolding wait_below lock
wait_idle others s =
    Runs.◌>>=◌ (lock s) λ s'. wait_below others 1 (s'.registered_buffers_count + 1) s'

-- `if (x != NULL)`
abbrev pub unless_null : Pointer → M (Unit {0}) → M (Unit {0})
unless_null null m = pure tt
unless_null (block n) m = m

unfoldable mutual
  unfolding free free_strings free_chain wait_idle

  pub cleanup_read_part : Others → ReadPart → M (Unit {0})
  cleanup_read_part others (read_part hs arg) =
      unless_null hs.key_value (free_strings hs.strings >> free hs.key_value)
      >> cleanup_read_arg others arg

  pub cleanup_read_arg : Others → ReadArg → M (Unit {0})
  cleanup_read_arg others custom = pure tt
  cleanup_read_arg others null_arg = stop
  cleanup_read_arg others (json_arg arg buffer) = unless_null arg (free buffer >> free arg)
  cleanup_read_arg others (op_arg arg s) =
      lift (wait_idle others s) >>= λ s'. free_chain s'.free_buffers >> free arg
  cleanup_read_arg others (multipart_arg arg m ps) =
      let parts = cleanup_read_parts others ps >> free m.parts in
      unless_null m.parts parts
      >> (free m.boundary >> (free m.boundary_buffer >> (free m.header_buffer >> free arg)))

  pub cleanup_read_parts : Others → ReadParts → M (Unit {0})
  cleanup_read_parts others no_parts = pure tt
  cleanup_read_parts others (one_part p ps) =
      cleanup_read_part others p >> cleanup_read_parts others ps

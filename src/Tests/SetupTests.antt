-- ===== src/Tests/SetupTests.antt =====
-- The set-up and the clean-up of requests at concrete inputs.
use globus_dsi_rest.Base.{
  length, ℕ, ◌+◌, ◌≡◌, refl, Bool, true, false, none, some, List, [], ◌∷◌, ◌++◌, codes, arith,
  Error,
}
use globus_dsi_rest.Base.Runs
use globus_dsi_rest.Base.Runs.{Run, done, stuck}
use globus_dsi_rest.Gridftp.Op.{Buffer, OpArg, new_op}
use globus_dsi_rest.Gridftp.ReadOp.{Others}
use globus_dsi_rest.Setup.CleanUp.Leaves.{arg_leaves}
use globus_dsi_rest.KeyArray.{key_value, pairs, present}
use globus_dsi_rest.Handles.{Cache}
use globus_dsi_rest.Setup.Delimiter.{
  headers_search, given_boundary, has_prefix, find_str, delimiter_in, until_quote,
}
use globus_dsi_rest.Setup.Heap.{null, block, Heap, M, pure}
use globus_dsi_rest.Setup.Heap.Accounts.{Accounts, Ends, count}
use globus_dsi_rest.Setup.WritePart.{
  Body, no_part, part, WritePart, write_part, WriteArg, custom, unprepared, block_arg, blocks_arg,
  text_arg, op_arg, multipart_arg,
}
use globus_dsi_rest.Setup.CleanUp.Frees.{arg_holds, ArgIsWhole}
use globus_dsi_rest.Setup.PrepareWrite.{Env}
use globus_dsi_rest.Setup.PrepareWrite.Owns.{IsReady, content_type}
use globus_dsi_rest.Setup.PrepareWrite.Multipart.{prepare_write_callbacks, own_type}
use globus_dsi_rest.Setup.PrepareWrite.Whole.{IsSendable, prepare_write_callbacks-IsReady}
use globus_dsi_rest.Setup.ReadPart.{Sink, ReadArg, without}
use globus_dsi_rest.Setup.Request.{
  Call, CurlEnv, Live, Progress, Transfer, Transferred, start_request,
}
use globus_dsi_rest.Setup.Request.Failed.{start_request_stuck}

abbrev env : Env
env = record { grants = λ n. true; mutex_rc = 0; cond_rc = 0; uuid = codes "u" }

abbrev empty : Heap
empty = record { next = 0; freed = [] }

empty-Accounts : Accounts (λ p. 0) empty
unfolding count
empty-Accounts = λ p. ground arith

-- A multipart body of a JSON text and some bytes with a header.
abbrev two_parts : Body
two_parts = Body.write_multipart (
    part [] (Body.write_json (some (codes "{}")))
      (part (key_value (codes "K") (codes "v") ∷ []) (Body.write_block (codes "abc")) no_part))

two_parts-IsSendable : IsSendable env [] two_parts
unfolding IsSendable headers_search pairs present
two_parts-IsSendable = (none, refl, omega arith, (tt, (tt, tt)))

prepare_write_callbacks-IsReady_example :
    Ends
      (IsReady (λ p. 0) (content_type (own_type env) ∷ []))
      (prepare_write_callbacks env [] two_parts empty)
unfolding headers_search
prepare_write_callbacks-IsReady_example =
    prepare_write_callbacks-IsReady env (λ n. refl) refl refl (λ p. 0) [] two_parts empty
      two_parts-IsSendable empty-Accounts

given_boundary_quoted : given_boundary (codes "multipart/x; boundary=\"a b\"") ≡ some (codes "a b")
unfolding given_boundary has_prefix find_str delimiter_in until_quote
given_boundary_quoted = refl

given_boundary_other : given_boundary (codes "text/plain; boundary=ab") ≡ none
unfolding given_boundary has_prefix
given_boundary_other = refl

abbrev slots : List ℕ
slots = 0 ∷ 0 ∷ 0 ∷ 0 ∷ 0 ∷ 0 ∷ 0 ∷ 0 ∷ 0 ∷ 0 ∷ 0 ∷ 0 ∷ 0 ∷ 0 ∷ 0 ∷ 0 ∷ []

abbrev cache : Cache
cache = record { slots = slots; index = 0 }

abbrev curl : CurlEnv
curl = record {
  build = record { has_curlproto = true; has_xferinfo = true };
  init = some 7;
  setopt = λ h o. 0;
  append = λ hs h. some (hs ++ (h ∷ []));
  set = λ o. 0;
  now = 5;
}

abbrev post : Bool → Call
post complete = record {
  method = some (codes "POST");
  uri = some (codes "http://h");
  query_parameters = none;
  headers = none;
  data_write = two_parts;
  data_read = Sink.read_json;
  progress = Progress.no_progress;
  complete = complete;
}

-- A server that finishes the write that was registered last.
abbrev first_of_all : List Buffer → List ℕ
first_of_all [] = []
first_of_all (b ∷ bs) = b.address ∷ []

abbrev finish_first : Others
finish_first s = first_of_all s.registered_buffers

-- A transfer that allocates a buffer for a GridFTP operation and fails with the buffer pending.
abbrev pending : Heap → OpArg → OpArg
pending h s = record s {
  pending_buffers =
      record {
        address = h.next;
        buffer_len = 4;
        buffer_used = 4;
        transfer_offset = 0;
        memory = codes "data";
      }
      ∷ s.pending_buffers;
}

abbrev fetch : WriteArg → M WriteArg
fetch (op_arg arg s) h = done (op_arg arg (pending h s), record h { next = h.next + 1 })
fetch (block_arg arg b) h = done (block_arg arg b, h)
fetch (blocks_arg arg blocks bs) h = done (blocks_arg arg blocks bs, h)
fetch (text_arg arg text b) h = done (text_arg arg text b, h)
fetch (multipart_arg arg m ps) h = done (multipart_arg arg m ps, h)
fetch custom h = done (custom, h)
fetch unprepared h = done (unprepared, h)

abbrev with_part : Live → WritePart → Transferred
with_part live x = record {
  result = some Error.memory;
  request_result = none;
  live = record live { write_part = x };
}

abbrev fetch_part : Live → WritePart → M Transferred
fetch_part live (write_part hs arg) h =
    Runs.◌>>=◌ (fetch arg h) λ r. done (with_part live (write_part hs r.0), r.1)

abbrev fetches : Transfer
fetches live = fetch_part live live.write_part

abbrev Fetches : WriteArg → (ℕ → ℕ) → Heap → Type 0
Fetches arg held h =
    ArgIsWhole arg
    → Accounts (λ p. held p + (arg_holds arg p + arg_leaves arg p)) h
    → Ends (λ a h'. ArgIsWhole a × Accounts (λ p. held p + (arg_holds a p + arg_leaves a p)) h')
        (fetch arg h)

abbrev upload : Call
upload = record (post false) {
  data_write = Body.write_gridftp_op (record { offset = 0; length = 4 });
}

-- A transfer that changes nothing.
abbrev nothing : Transfer
nothing live = pure (record { result = none; request_result = none; live = live })

start_request_stuck_example :
    start_request env curl
      (λ s. [])
      nothing
      0
      (record (post false) { data_write = Body.write_json none })
      (codes "POST")
      (codes "http://h")
      cache
      empty
    ≡ stuck
start_request_stuck_example =
    start_request_stuck env curl (λ s. []) nothing 0 (post false) (codes "POST") (codes "http://h")
      cache empty refl

-- A request that reads JSON, in block 0, with its argument in block 1, and sends a file, with the
-- operation in block 2.
abbrev live : Live
live = record {
  request = block 0;
  handle = some 7;
  complete_uri = null;
  uri_text = [];
  request_headers = [];
  idle_arg = none;
  write_part =
      write_part
        (record { headers = []; key_value = null; malloced = []; malloced_key_value = null })
        (op_arg (block 2) (new_op 0 4));
  read_part = without (ReadArg.json_arg (block 1) null);
}

abbrev three : Heap
three = record { next = 3; freed = [] }

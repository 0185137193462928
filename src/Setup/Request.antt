-- ===== src/Setup/Request.antt =====
-- `globus_dsi_rest_request` of request.c, `globus_i_dsi_rest_request_cleanup` of request_cleanup.c, and
-- `globus_i_dsi_rest_perform` with its thread of perform.c. The transfer itself is a parameter.
pub mod Failed
pub mod Over
pub mod Settled
use globus_dsi_rest.Base.{
  ℕ, ◌+◌, Bool, true, false, not, ◌||◌, ◌==◌, Option, none, some, List, [], ◌∷◌, ◌++◌,
  if◌then◌else◌, Bytes, codes, Error, Result, ok, err, fault,
}
use globus_dsi_rest.Base.Runs
use globus_dsi_rest.Base.Runs.{Run, done, some_of}
use globus_dsi_rest.KeyArray.{KeyArray}
use globus_dsi_rest.Uri.Query.{uri_add_query}
use globus_dsi_rest.Headers.Response.{same_name}
use globus_dsi_rest.Headers.Print.{Append, Headers, compute_headers, add_header}
use globus_dsi_rest.Transfer.Method.{same_text, Setting, Callbacks, RequestSet, set_request}
use globus_dsi_rest.Transfer.Idle.{IdleArg}
use globus_dsi_rest.Transfer.Request.{first_error}
use globus_dsi_rest.Handles.{Cache, Build, CurlOption, Got, handle_get, Released, handle_release}
use globus_dsi_rest.Gridftp.ReadOp.{Others}
use globus_dsi_rest.Setup.Heap.{
  Pointer, null, block, Heap, M, pure, stop, lift, ◌>>=◌, ◌>>◌, malloc, free,
}
use globus_dsi_rest.Setup.WritePart.{Body, WritePart, write_part, PartReady}
use globus_dsi_rest.Setup.CleanUp.{cleanup_write_part}
use globus_dsi_rest.Setup.PrepareWrite.{Env}
use globus_dsi_rest.Setup.PrepareWrite.Multipart.{prepare_write_callbacks, blank}
use globus_dsi_rest.Setup.ReadPart.{
  Sink, ReadPart, ReadArg, without, ReadReady, prepare_read_callbacks, cleanup_read_part,
}

-- The progress callback.
pub data Progress : Type 0 where
  no_progress own_progress : Progress
  progress_idle_timeout : ℕ → Progress

-- The arguments of a call, with the callbacks; the response callback is left out, since only the
-- transfer uses it. `complete` tells whether there is a complete callback.
pub record Call : Type 0 where
  pub method : Option Bytes
  pub uri : Option Bytes
  pub query_parameters : Option KeyArray
  pub headers : Option KeyArray
  pub data_write : Body
  pub data_read : Sink
  pub progress : Progress
  pub complete : Bool

-- libcurl and the clock.
pub record CurlEnv : Type 0 where
  pub build : Build
  pub init : Option ℕ
  pub setopt : ℕ → CurlOption → ℕ
  pub append : Append
  pub set : Setting → ℕ
  pub now : ℕ

-- `globus_i_dsi_rest_request_t`, as far as the set-up and the clean-up use it. The strings of
-- `request_headers` are libcurl's.
pub record Live : Type 0 where
  pub request : Pointer
  pub handle : Option ℕ
  pub complete_uri : Pointer
  pub uri_text : Bytes
  pub request_headers : List Bytes
  pub idle_arg : Option IdleArg
  pub write_part : WritePart
  pub read_part : ReadPart

-- Where the set-up stands: its result so far, the request, the cache of handles, and the handles that
-- were given to `curl_easy_cleanup`.
pub record Stage : Type 0 where
  pub result : Option Error
  pub live : Live
  pub cache : Cache
  pub cleaned : List ℕ

-- An error skips what follows.
abbrev pub unless : Option Error → (Stage → M Stage) → Stage → M Stage
unless none next s = next s
unless (some e) next s = pure s

abbrev pub on_success : (Stage → M Stage) → Stage → M Stage
on_success next s = unless s.result next s

abbrev pub header_array : Option KeyArray → KeyArray
header_array none = []
header_array (some hs) = hs

abbrev pub new_live : Pointer → WritePart → Live
new_live p w = record {
  request = p;
  handle = none;
  complete_uri = null;
  uri_text = [];
  request_headers = [];
  idle_arg = none;
  write_part = w;
  read_part = without ReadArg.custom;
}

unfoldable pub set_write : Env → Call → Pointer → Cache → M Stage
unfolding prepare_write_callbacks
set_write env call p cache = do
  w ← prepare_write_callbacks env (header_array call.headers) call.data_write
  pure (record { result = w.result; live = new_live p w.ready; cache = cache; cleaned = [] })

abbrev pub new_idle_arg : ℕ → Progress → Option IdleArg
new_idle_arg now (progress_idle_timeout t) =
    some (record { idle_timeout = t; last_activity = now; last_amt_read = 0; last_amt_written = 0 })
new_idle_arg now _ = none

-- The read part, and the argument of the idle timeout behind it.
unfoldable pub set_read : Env → CurlEnv → Call → Stage → M Stage
unfolding prepare_read_callbacks
set_read env curl call s = do
  r ← prepare_read_callbacks env call.data_read
  pure (record s {
    result = r.result;
    live = record s.live {
      read_part = r.ready;
      idle_arg = elim r.result [ none ↦ new_idle_arg curl.now call.progress | some e ↦ none ];
    };
  })

unfoldable pub get_handle : CurlEnv → Stage → M Stage
unfolding handle_get
get_handle curl s = do
  g ← lift (handle_get curl.build curl.init curl.setopt s.cache)
  pure (record {
    result = g.result;
    live = record s.live { handle = g.handle };
    cache = g.cache;
    cleaned = s.cleaned ++ g.cleaned;
  })

-- `globus_dsi_rest_uri_add_query` makes one allocation.
unfoldable pub use_uri : Stage → Result Bytes → M Stage
use_uri s fault h = stop h
use_uri s (err e) h = done (record s { result = some e }, record h { next = h.next + 1 })
use_uri s (ok text) h = done (
  record s { live = record s.live { complete_uri = block h.next; uri_text = text } },
  record h { next = h.next + 1 },
)

unfoldable pub set_uri : Env → Bytes → Option KeyArray → Stage → M Stage
unfolding uri_add_query use_uri
set_uri env uri query s h = use_uri s (uri_add_query (λ _. env.grants h.next) uri query) h

-- `strcasecmp` with the two names, for each header of the application up to the first match.
unfoldable pub has_length : KeyArray → Run Bool
unfolding same_name
has_length [] = done false
has_length (kv ∷ kvs) = Runs.◌>>=◌ (some_of kv.key) λ key.
    elim (same_name key (codes "Transfer-Encoding") || same_name key (codes "Content-Length")) [
      | true ↦ done true
      | false ↦ has_length kvs
    ]

abbrev pub writes_data : Body → Bool
writes_data Body.no_callback = false
writes_data _ = true

abbrev pub reads_data : Sink → Bool
reads_data Sink.no_callback = false
reads_data _ = true

-- Whether the request is one with a body.
unfoldable pub has_body : Bytes → Body → Bool
unfolding same_text
has_body method src =
    same_text method (codes "POST")
    || same_text method (codes "PATCH")
    || same_text method (codes "PUT")
    || writes_data src

-- The header for a body of unknown length.
unfoldable pub add_chunked : CurlEnv → Bytes → Call → List Bytes → Run Headers
unfolding has_length has_body add_header
add_chunked curl method call slist = elim (has_body method call.data_write) [
  | false ↦ done (record { result = none; request_headers = slist })
  | true ↦ Runs.◌>>=◌ (has_length (header_array call.headers)) λ given. done (
      if given
      then record { result = none; request_headers = slist }
      else add_header curl.append slist (codes "Transfer-Encoding") (codes "chunked"))
]

abbrev pub part_headers : WritePart → KeyArray
part_headers (write_part hs arg) = hs.headers

unfoldable pub body_headers : CurlEnv → Bytes → Call → Headers → Run Headers
unfolding add_chunked
body_headers curl method call c = elim c.result [
  | some e ↦ done c
  | none ↦ add_chunked curl method call c.request_headers
]

unfoldable pub set_headers : CurlEnv → Bytes → Call → Stage → M Stage
unfolding compute_headers body_headers
set_headers curl method call s = do
  a ← lift (
      body_headers curl method call
        (compute_headers curl.append [] (some (part_headers s.live.write_part))))
  pure
      (record s { result = a.result; live = record s.live { request_headers = a.request_headers } })

unfoldable pub set_request_options : CurlEnv → Bytes → Call → Stage → M Stage
unfolding set_request
set_request_options curl method call s =
    let r =
      set_request curl.set method s.live.uri_text s.live.request_headers
        (record { reads = reads_data call.data_read; writes = writes_data call.data_write }) in
    pure (record s { result = r.result })

unfoldable pub set_up : Env → CurlEnv → Call → Bytes → Bytes → Pointer → Cache → M Stage
unfolding set_write set_read get_handle set_uri set_headers set_request_options
set_up env curl call method uri p cache = do
  w ← set_write env call p cache
  r ← on_success (set_read env curl call) w
  g ← on_success (get_handle curl) r
  u ← on_success (set_uri env uri call.query_parameters) g
  hs ← on_success (set_headers curl method call) u
  on_success (set_request_options curl method call) hs

-- What `globus_l_dsi_rest_perform` leaves: its result, that of the request, and the request.
pub record Transferred : Type 0 where
  pub result : Option Error
  pub request_result : Option Error
  pub live : Live

abbrev pub Transfer : Type 0
Transfer = Live → M Transferred

-- `globus_i_dsi_rest_perform`. `create_rc` is what `globus_thread_create` returns.
unfoldable pub perform_request : Transfer → ℕ → Bool → Stage → M Stage
perform_request transfer create_rc true s =
    pure (record s { result = if create_rc == 0 then none else some Error.thread_fail })
perform_request transfer create_rc false s = do
  t ← transfer s.live
  pure (record s { result = t.result; live = t.live })

-- `globus_i_dsi_rest_request_cleanup`
unfoldable pub request_cleanup : Others → Live → Cache → M Released
unfolding free handle_release cleanup_write_part cleanup_read_part
request_cleanup others live cache = do
  free live.complete_uri
  r ← lift (handle_release cache live.handle)
  cleanup_write_part live.write_part
  cleanup_read_part others live.read_part
  free live.request
  pure r

-- The result of a call, the cache, the handles that were cleaned up, and the request that a thread
-- goes on with.
pub record CallResult : Type 0 where
  pub result : Option Error
  pub cache : Cache
  pub cleaned : List ℕ
  pub running : Option Live

unfoldable pub clean_up : Others → Stage → M CallResult
unfolding request_cleanup
clean_up others s = do
  r ← request_cleanup others s.live s.cache
  pure (record {
    result = s.result;
    cache = r.cache;
    cleaned = s.cleaned ++ r.cleaned;
    running = none;
  })

-- `result != GLOBUS_SUCCESS || callbacks->complete_callback == NULL`
abbrev pub is_over : Option Error → Bool → Bool
is_over (some e) complete = true
is_over none complete = not complete

unfoldable pub settle : Others → Bool → Stage → M CallResult
unfolding clean_up
settle others complete s = elim (is_over s.result complete) [
  | true ↦ clean_up others s
  | false ↦
      pure
        (record { result = s.result; cache = s.cache; cleaned = s.cleaned; running = some s.live })
]

-- Without a request, nothing is cleaned up.
abbrev pub failed : Error → Cache → CallResult
failed e cache = record { result = some e; cache = cache; cleaned = []; running = none }

unfoldable pub start_request :
    Env → CurlEnv → Others → Transfer → ℕ → Call → Bytes → Bytes → Cache → M CallResult
unfolding malloc set_up perform_request settle
start_request env curl others transfer create_rc call method uri cache = do
  p ← malloc env.grants
  elim p [
    | null ↦ pure (failed Error.memory cache)
    | block n ↦ do
      s ← set_up env curl call method uri (block n) cache
      t ← on_success (perform_request transfer create_rc call.complete) s
      settle others call.complete t
  ]

unfoldable pub request : Env → CurlEnv → Others → Transfer → ℕ → Call → Cache → M CallResult
unfolding start_request
request env curl others transfer create_rc call cache = elim call.method [
  | none ↦ pure (failed Error.parameter cache)
  | some method ↦ elim call.uri [
    | none ↦ pure (failed Error.parameter cache)
    | some uri ↦ start_request env curl others transfer create_rc call method uri cache
  ]
]

-- What the complete callback is told, when the request has been cleaned up.
pub record Completed : Type 0 where
  pub told : Option Error
  pub cache : Cache
  pub cleaned : List ℕ

-- `globus_l_dsi_rest_perform_thread`
unfoldable pub perform_thread : Others → Transfer → Live → Cache → M Completed
unfolding request_cleanup
perform_thread others transfer live cache = do
  t ← transfer live
  r ← request_cleanup others t.live cache
  pure (record {
    told = first_error t.request_result t.result;
    cache = r.cache;
    cleaned = r.cleaned;
  })

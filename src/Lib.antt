-- ===== src/Lib.antt =====
-- The REST helper library for GridFTP data storage interfaces: it builds HTTP requests for libcurl
-- and hands the responses to callbacks.
--
-- A request is set up from a method, a URI with query parameters, headers and a set of callbacks;
-- libcurl performs it and calls the library for the bytes of the request's body, for the header
-- lines and the bytes of the response, and for progress. Which file models what:
--
-- - Base: shared names; Boolean tests and the 64-bit size_t (Base/Tests), lists and byte strings
--   over the native numbers (Base/Lists), globus_result_t (Base/Results), executions of loops and
--   reads of memory (Base/Runs).
-- - KeyArray: globus_dsi_rest_key_array_t of globus_dsi_rest.h. A null pointer is `none`; an entry
--   with one is a placeholder.
-- - Uri: uri_escape.c (Uri/Escape), uri_add_query.c (Uri/Query), encode_form_data.c (Uri/Form), and
--   the decoder of test/uri-decode.c (Uri/Escape/Decode). A cursor holds what is written and how
--   many bytes are left, so an assert of the source is a test of the model.
-- - Headers: header_parse.c (Headers/Parse), add_header.c and compute_headers.c (Headers/Print),
--   response.c (Headers/Response), and libcurl's callback header.c (Headers/Callback) with its scan of
--   a status line (Headers/Status) and of a boundary (Headers/Boundary).
-- - Write: the data write callbacks. Write/Source is globus_dsi_rest_write_t and its contract;
--   Write/Block is write_block.c, write_form.c and write_json.c, Write/Blocks write_blocks.c,
--   Write/Boundary multipart_boundary_prepare.c, Write/Multipart write_multipart.c, whose parts'
--   callbacks are a parameter that meets the contract.
-- - Transfer: libcurl's callbacks read_data.c (Transfer/Upload), write_data.c (Transfer/Download),
--   xferinfo.c (Transfer/Progress), progress.c (Transfer/OldProgress) and progress_idle_timeout.c
--   (Transfer/Idle), set_request.c (Transfer/Method), the synchronous part of perform.c
--   (Transfer/Perform), the data read callbacks read_json.c (Transfer/Json) and
--   read_multipart.c (Transfer/ReadMultipart), and error_is_retryable.c (Transfer/Retry).
--   Transfer/Request is the part of globus_i_dsi_rest_request_t that they change; Transfer/Body joins
--   the upload to the multipart callback.
-- - Gridftp: the callbacks between libcurl and the data channel of a GridFTP server. Gridftp/Op is
--   globus_i_dsi_rest_gridftp_op_arg_t with its mutex, and buffer_get.c; Gridftp/ReadOp is
--   read_gridftp_op.c, Gridftp/WriteOp write_gridftp_op.c, Gridftp/Prepare their preparation in
--   request.c. Chains of buffers are lists.
-- - Handles: the cache of easy handles of handle_get.c and handle_release.c.
-- - Setup: request.c, request_cleanup.c, and the choice between the synchronous and the asynchronous
--   part of perform.c. Setup/Heap has `malloc`, `realloc` and `free` in a monad that numbers the
--   allocations and notes what is freed, and Setup/Heap/Accounts the rule that each block is held or
--   has been freed, once; Setup/WritePart the parts of a request's body, Setup/PrepareWrite their
--   preparation, with the multipart recursion in Setup/PrepareWrite/Multipart and the boundary in
--   Setup/Delimiter, Setup/CleanUp their clean-up; Setup/ReadPart the same for the response; and
--   Setup/Request globus_dsi_rest_request, its clean-up, and the thread.
-- - Module: module.c, with the locks that libcurl takes (Module/Share) and the activation
--   (Module/Activate).
--
-- Functions keep the names of the C functions without their prefixes. A byte string is a list of
-- numbers, a C string one without its final NUL. A buffer that is filled is the list of the bytes
-- that were put into it, and a test compares its length with the buffer's size. malloc, strdup and
-- realloc are parameters that say which sizes are granted; size_t and off_t wrap at 2 ^ 64. A mutex
-- makes each use of the handle cache one step.
--
-- Loops over arrays are structural. The loop of write_blocks has one round of fuel for each block and
-- one more, since a round leaves a block behind or fills the buffer; that of write_multipart has
-- one for each byte of the buffer and each part, and one more, since a round copies a byte or ends a
-- part. Running out of fuel is a value of its own, and the theorems on these loops show an end.
--
-- A thread that waits for a condition lets the others run: what the server finishes or delivers
-- before the thread goes on is a function of the state, so it may come in any order; what comes
-- between two calls of libcurl is another such function. A lock of a locked mutex never returns.
-- read_gridftp_op waits at most once for each registered buffer and has one round for each byte;
-- write_gridftp_op has a number of waits, behind which the model gives up, and one round of copying
-- for each byte of room, and one more.
--
-- The set-up of a request refers to memory by the numbers of the allocations; what a block holds
-- stands in the structure that points to it. A pointer that is null or the application's and is
-- followed as one of the library's stops the execution. A transfer is a parameter of the set-up, with
-- the hypothesis that it frees and allocates only what the request has, buffers that it leaves pending
-- included, and ends with the mutexes free; the modules above say what libcurl's callbacks do in it.
-- What the clean-up never frees is what the transfer leaves outside the free lists. A lock that is not free is a call that has not returned yet.
--
-- read_multipart has one round for each byte of a chunk and one more, since a round scans a byte; its
-- loop over the lines of a part's headers one for each byte of the section and one more, since a line
-- ends in two.
--
-- Not modelled: libcurl, libjansson and the Globus libraries are not part of the repository: what is
-- used of them is a parameter. Debug output is left out. A part's headers hold no NUL byte.
pub mod Base
pub mod Gridftp
pub mod Handles
pub mod Headers
pub mod KeyArray
pub mod Module
pub mod Setup
pub mod Transfer
pub mod Uri
pub mod Write
mod Tests

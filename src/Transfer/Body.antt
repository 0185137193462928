-- ===== src/Transfer/Body.antt =====
-- A multipart request from its parts to libcurl: read_data.c over write_multipart.c.
use globus_dsi_rest.Base.{ℕ, ◌+◌, ◌<◌, ◌≡◌, Bool, true, [], Bytes, length, none, size_mod, arith}
use globus_dsi_rest.Write.Source.{Pull, Source}
use globus_dsi_rest.Write.Multipart.{Multipart, write_multipart}
use globus_dsi_rest.Write.Multipart.Content.{body, IsMultipart}
use globus_dsi_rest.Write.Multipart.Laws.Loop.{multipart_source}
use globus_dsi_rest.Transfer.Request.{Request}
use globus_dsi_rest.Transfer.Upload.{Uploads, upload, upload-Uploads}

-- Over parts that meet the contract of a write callback, when the allocations succeed, libcurl's
-- calls of read_data with a buffer of any size but zero come to an end, and hand out exactly the RFC
-- 2046 body of a well-formed multipart request, in order, with no error, and count its bytes.
pub upload-multipart :
    {S : Type 0} {pull : Pull S} (src : Source pull) (d : Bytes) (alloc : ℕ → Bool)
    (m : Multipart S) (n : ℕ) (request : Request)
    → ((k : ℕ) → alloc k ≡ true)
    → IsMultipart src d m
    → 0 < n
    → n < size_mod
    → request.result ≡ none
    → Uploads
        (body src d m)
        request
        []
        (upload (write_multipart pull alloc) (length (body src d m) + 1) request m n [])
upload-multipart {S} {pull} src d alloc m n request granted good pos small fine =
    upload-Uploads (write_multipart pull alloc) (multipart_source src d alloc granted) n pos small
      (length (body src d m) + 1) request m [] good fine (omega arith)

-- ===== src/Tests/TransferTests.antt =====
-- The theorems on libcurl's callbacks at concrete inputs.
use globus_dsi_rest.Base.{
  ◌⊎◌, inr, ◌≢◌, ℕ, suc, ◌-◌, ◌/◌, ◌%◌, ◌≡◌, ◌↔◌, refl, true, false, [], ◌∷◌, ◌++◌, List, Bytes,
  codes, none, some, arith, Error,
}
use globus_dsi_rest.Base.Runs.{done}
use globus_dsi_rest.Write.Block.{Block, write_block}
use globus_dsi_rest.Write.Block.Laws.{IsBlock, rest, block_source}
use globus_dsi_rest.Transfer.Request.{Request}
use globus_dsi_rest.Transfer.Upload.{Uploads, upload, upload-Uploads}
use globus_dsi_rest.Transfer.Download.{Taken, reader_of, download}
use globus_dsi_rest.Transfer.Download.Laws.{feed, guarded, Downloads, download-Downloads}
use globus_dsi_rest.Transfer.Progress.{
  Amounts, Noted, Reports, xferinfo, xferinfo-Reports, cast_amounts,
}
use globus_dsi_rest.Transfer.Idle.{
  IdleArg, Diff, IsDiff, Polls, progress_idle_timeout, progress_idle_timeout-Polls,
}
use globus_dsi_rest.Transfer.Method.{
  Setting, customrequest, httpget, url, httpheader, Selected, Callbacks, set_request, select,
  sent_method, same_text, set_request-Sends,
}
use globus_dsi_rest.Transfer.Perform.{Performed, Outcome, perform, perform-Performs}

abbrev fresh : Request
fresh = record {
  result = none;
  response_code = 200;
  request_bytes_uploaded = 0;
  response_bytes_downloaded = 0;
}

abbrev hello : Block
hello = record { block_data = codes "hello"; block_len = 5; offset = 1 }

hello-IsBlock : IsBlock hello
hello-IsBlock = record { in_memory = omega arith; word = omega arith; within = omega arith }

upload_test : Uploads (codes "ello") fresh [] (upload write_block 5 fresh hello 3 [])
upload_test =
    upload-Uploads write_block block_source 3 (omega arith) (omega arith) 5 fresh hello []
      hello-IsBlock refl (omega arith)

upload-Uploads_example : Uploads (rest hello) fresh [] (upload write_block 5 fresh hello 3 [])
upload-Uploads_example =
    upload-Uploads write_block block_source 3 (omega arith) (omega arith) 5 fresh hello []
      hello-IsBlock refl (omega arith)

abbrev collect : Bytes → Bytes → Taken Bytes
collect s b = record { result = none; state = s ++ b }

abbrev chunks : List Bytes
chunks = codes "ab" ∷ codes "c" ∷ []

download-Downloads_example :
    Downloads fresh
      (feed (guarded true collect 200) [] chunks)
      (download (some (reader_of true collect)) fresh [] chunks)
download-Downloads_example = download-Downloads true collect fresh [] chunks (omega arith)

abbrev give_up : ℕ → Amounts → Noted ℕ
give_up n a = record { result = some Error.time_out; state = suc n }

abbrev amounts : Amounts
amounts = record { dltotal = 9; dlnow = 4; ultotal = 0; ulnow = 0 }

xferinfo-Reports_test :
    Reports fresh (give_up 1 (cast_amounts amounts)) (xferinfo (some give_up) fresh 1 amounts)
xferinfo-Reports_test = xferinfo-Reports give_up fresh 1 amounts

abbrev diff : Diff
diff a b = record { tv_sec = (a - b) / 1000000; tv_usec = (a - b) % 1000000 }

diff-IsDiff : IsDiff diff
diff-IsDiff a b h = (omega arith, omega arith)

abbrev waiting : IdleArg
waiting = record {
  idle_timeout = 1000;
  last_activity = 5000000;
  last_amt_read = 4;
  last_amt_written = 0;
}

progress_idle_timeout-Polls_example :
    Polls waiting 6001000 amounts (progress_idle_timeout diff 6001000 waiting amounts)
progress_idle_timeout-Polls_example =
    progress_idle_timeout-Polls diff diff-IsDiff 6001000 (omega arith) waiting amounts (omega arith)

abbrev curl : Request → Bytes → Performed Bytes
curl r s = record { rc = 0; request = r; state = s ++ codes "body" }

perform-Performs_example :
    (o : Outcome Bytes) × (perform
        (λ r t. done (curl r t))
        (some (reader_of false collect))
        fresh
        []
      ≡ done o)
    × (o.request.result ≡ o.result)
    × ((o.result ≡ none) ↔ (
        ((curl fresh []).request.result ≡ none)
        × ((curl fresh []).rc ≡ 0)
        × ((collect (curl fresh []).state []).result ≡ none)))
perform-Performs_example = perform-Performs false collect curl fresh []

abbrev accepts : Setting → ℕ
accepts o = 0

abbrev reused : Selected
reused = record { custom = some (codes "DELETE"); kind = codes "HEAD" }

abbrev reads_only : Callbacks
reads_only = record { reads = true; writes = false }

set_request_test : set_request accepts (codes "COPY") (codes "u") [] reads_only ≡ record {
  result = none;
  settings =
      customrequest none
      ∷ httpget
      ∷ customrequest (some (codes "COPY"))
      ∷ url (codes "u")
      ∷ httpheader []
      ∷ [];
}
unfolding set_request same_text
set_request_test = refl

set_request-Sends_example :
    (((set_request accepts (codes "COPY") (codes "u") [] reads_only).result ≡ none)
      × ((os : List Setting) × ((set_request accepts
              (codes "COPY")
              (codes "u")
              []
              reads_only).settings
            ≡ os ++ (url (codes "u") ∷ httpheader [] ∷ [])))
      × (sent_method
            (select reused (set_request accepts (codes "COPY") (codes "u") [] reads_only).settings)
          ≡ codes "COPY"))
    ⊎ ((set_request accepts (codes "COPY") (codes "u") [] reads_only).result ≢ none)
set_request-Sends_example =
    set_request-Sends reused accepts (codes "COPY") (codes "u") [] reads_only (inr refl)

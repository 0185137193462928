-- ===== src/Headers/Callback.antt =====
-- `globus_i_dsi_rest_header` of header.c, to which libcurl hands the status line and the header lines
-- of a response.
pub mod Block
pub mod Answers
pub mod Reason
use globus_dsi_rest.Base.{
  ℕ, zero, suc, ◌+◌, ◌-◌, ◌≡◌, refl, Bool, true, false, not, ◌&&◌, ◌||◌, Option, none, some, [],
  ◌∷◌, ◌++◌, List, ltb, ◌==◌, if◌then◌else◌, Bytes, length, take, Error,
}
use globus_dsi_rest.Base.Runs.{Run, done, stuck, ◌>>=◌, ◌>>◌, assert, some_of}
use globus_dsi_rest.KeyArray.{KeyValue, KeyArray}
use globus_dsi_rest.Headers.Parse.{HeaderArray, Parsed, header_parse, cut_at}
use globus_dsi_rest.Headers.Response.{same_name}
use globus_dsi_rest.Headers.Status.{Scanned, scan_status}
use globus_dsi_rest.Headers.Boundary.{Found, find_boundary, copy_boundary}
use globus_dsi_rest.Transfer.Request.{first_error}
use globus_dsi_rest.Transfer.Download.{not_size, answer}

-- What a `globus_dsi_rest_response_t` leaves behind.
pub record Answered {ℓ} (S : Type ℓ) : Type ℓ where
  pub result : Option Error
  pub state : S

-- A response callback. `note_counts` is set when it is globus_dsi_rest_response, whose argument gets
-- the numbers of bytes.
pub record Responder {ℓ} (S : Type ℓ) : Type ℓ where
  pub note_counts : Option (ℕ → ℕ → S → S)
  pub call : S → ℕ → Bytes → KeyArray → Answered S

-- The part of the request and of its callbacks that the function uses. `multipart` says whether the
-- data read callback is globus_dsi_rest_read_multipart, whose boundary is the last field.
pub record HeaderState {ℓ} (S : Type ℓ) : Type ℓ where
  pub result : Option Error
  pub response_code : ℕ
  pub response_reason : Bytes
  pub uploaded : ℕ
  pub downloaded : ℕ
  pub headers : HeaderArray
  pub client : S
  pub multipart : Bool
  pub boundary : Option Bytes

-- The number that is returned to libcurl, and the state.
pub record Handled {ℓ} (S : Type ℓ) : Type ℓ where
  pub total : ℕ
  pub state : HeaderState S

-- Whether the line that starts here is the end of the headers.
unfoldable pub is_end : Bytes → Bool
is_end [] = false
is_end (c ∷ []) = false
is_end (c ∷ d ∷ s) = c == b'\r' && d == b'\n'

module _ {ℓ} {S : Type ℓ} where
  abbrev pub return_total : Option Error → ℕ → HeaderState S → Handled S
  return_total result total s = record { total = answer result total; state = s }

  -- What is scanned of a status line. The array of the reason has 64 bytes, with its NUL.
  unfoldable pub note_status : HeaderState S → Bytes → Scanned → Run (Handled S)
  note_status s line scanned =
      let code : ℕ = elim scanned.code [ none ↦ s.response_code | some n ↦ n ] in
      let reason : Bytes = elim scanned.reason [ none ↦ s.response_reason | some t ↦ t ] in
      let result = if scanned.scans == 2 then none else some Error.parse in
      assert (ltb (length reason) 64)
      >> done (
          return_total result (length line)
            (record s { response_code = code; response_reason = reason }))

  unfoldable pub take_status : HeaderState S → Bytes → Run (Handled S)
  unfolding scan_status cut_at note_status
  take_status s line = do scanned ← scan_status (cut_at 0 line); note_status s line scanned

  -- Behind a 100 Continue, another response comes.
  unfoldable pub reset : HeaderState S → HeaderState S
  reset s = record s {
    response_code = 0;
    response_reason = [];
    headers = record { entries = []; capacity = none };
  }

  unfoldable pub note_boundary : HeaderState S → Run (HeaderState S)
  unfolding find_boundary copy_boundary
  note_boundary s = elim s.multipart [
    | false ↦ done s
    | true ↦ do
      found ← find_boundary none s.headers.entries
      elim found [ none ↦ done s | some f ↦ done (record s { boundary = some (copy_boundary f) }) ]
  ]

  -- The numbers of bytes, for globus_dsi_rest_response.
  unfoldable pub note_client : Option (Responder S) → HeaderState S → HeaderState S
  note_client none s = s
  note_client (some r) s = elim r.note_counts [
    | none ↦ s
    | some note ↦ record s { client = note s.uploaded s.downloaded s.client }
  ]

  unfoldable pub call_client : Option (Responder S) → ℕ → HeaderState S → Handled S
  call_client none total s = return_total none total s
  call_client (some r) total s =
      let a = r.call s.client s.response_code s.response_reason s.headers.entries in
      return_total a.result total (record s { client = a.state })

  -- The end of the headers.
  unfoldable pub end_headers : Option (Responder S) → ℕ → HeaderState S → Run (Handled S)
  unfolding reset note_client note_boundary call_client
  end_headers responder total s = elim (s.response_code == 100) [
    | true ↦ done (return_total none total (reset s))
    | false ↦ do s' ← note_boundary (note_client responder s); done (call_client responder total s')
  ]

  -- A line behind the status line.
  unfoldable pub take_header :
      (ℕ → Bool) → Option (Responder S) → HeaderState S → Bytes → Bytes → Run (Handled S)
  unfolding header_parse is_end end_headers
  take_header alloc responder s line behind = do
    p ← header_parse alloc s.headers (line ++ behind) (length line)
    let s' = record s { headers = p.headers }
    elim p.result [
      | some e ↦ done (
          return_total (some e) (length line)
            (record s' { result = first_error s.result (some e) }))
      | none ↦ elim (is_end (line ++ behind)) [
        | true ↦ end_headers responder (length line) s'
        | false ↦ done (return_total none (length line) s')
      ]
    ]

  abbrev pub is_wanted : Option (Responder S) → HeaderState S → Bool
  is_wanted none s = s.multipart
  is_wanted (some r) s = true

  -- `behind` is what lies in memory behind the line.
  unfoldable pub header :
      (ℕ → Bool) → Option (Responder S) → HeaderState S → Bytes → Bytes → Run (Handled S)
  unfolding take_status take_header
  header alloc responder s line behind =
      elim (s.response_code == 0 && length s.response_reason == 0) [
        | true ↦ take_status s line
        | false ↦ elim (is_wanted responder s) [
          | false ↦ done (return_total none (length line) s)
          | true ↦ take_header alloc responder s line behind
        ]
      ]

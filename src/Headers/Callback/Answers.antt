-- ===== src/Headers/Callback/Answers.antt =====
-- Whole responses in header.c: interim ones, and the one that the client is told of.
use globus_dsi_rest.Base.{
  ℕ, ◌^◌, ◌<◌, ◌≡◌, ◌≢◌, Bool, true, false, none, some, [], ◌∷◌, ◌++◌, List, ◌==◌, Bytes, length,
  All, ◌↔◌,
}
use globus_dsi_rest.Base.Runs.{Run, done}
use globus_dsi_rest.KeyArray.{KeyArray, Pair}
use globus_dsi_rest.Headers.Parse.{HeaderArray, skip_space}
use globus_dsi_rest.Headers.Parse.Line.{crlf}
use globus_dsi_rest.Headers.Callback.{Answered, HeaderState, Handled, Responder}
use globus_dsi_rest.Headers.Callback.Reason.{status_line, number, IsStatus, IsReason, HasNoNul}
use globus_dsi_rest.Headers.Callback.Block.{headers_in, Fed, as_array, header_lines, IsField}

-- The part of a response in front of its body.
pub record Message : Type 0 where
  pub version : Bytes
  pub code : Bytes
  pub reason : Bytes
  pub fields : List Pair

abbrev pub code_of : Message → ℕ
code_of m = number 0 m.code

pub record IsMessage (m : Message) : Type 0 where
  pub status : IsStatus m.version m.code
  pub reason : IsReason m.reason
  pub clean : HasNoNul (status_line m.version m.code m.reason)
  pub fields : All IsField m.fields
  pub few : length m.fields < 2 ^ 59
  pub code : code_of m ≢ 0

-- The lines of a message, with others behind them.
abbrev pub lines_of : Message → List Bytes → List Bytes
lines_of m ls = status_line m.version m.code m.reason ∷ (header_lines m.fields ++ (crlf [] ∷ ls))

-- Interim responses, with other lines behind them.
abbrev pub interims : List Message → List Bytes → List Bytes
interims [] ls = ls
interims (m ∷ ms) ls = lines_of m (interims ms ls)

-- Nothing is known of a response.
pub record IsFresh {ℓ} {S : Type ℓ} (s : HeaderState S) : Type 0 where
  pub code : s.response_code ≡ 0
  pub reason : s.response_reason ≡ []
  pub headers : s.headers ≡ record { entries = []; capacity = none }

module _ {ℓ} {S : Type ℓ} (alloc : ℕ → Bool) (ok : (n : ℕ) → alloc n ≡ true) (r : Responder S)
    (behind : Bytes) (trimmed : skip_space behind ≡ behind) where
  -- What follows the empty line.
  abbrev next : List Bytes → Handled S → Run (Fed S)
  next ls h = elim (h.total == 2) as (λ x. Run (Fed S)) [
    | true ↦ headers_in alloc r behind h.state ls
    | false ↦ done (record { all_taken = false; state = h.state })
  ]

  -- The state when a message has come, and its headers.
  abbrev known : HeaderState S → Message → HeaderArray → HeaderState S
  known s m h = record s { response_code = code_of m; response_reason = m.reason; headers = h }

  -- The client's argument, with the numbers of bytes for globus_dsi_rest_response.
  abbrev pub noted : HeaderState S → S
  noted s = elim r.note_counts as (λ x. S) [
    | none ↦ s.client
    | some note ↦ note s.uploaded s.downloaded s.client
  ]

  -- The client is told of a response once, with its code, its reason and all its headers, and its
  -- answer decides whether libcurl goes on.
  pub record Answers (s : HeaderState S) (m : Message) (run : Run (Fed S)) : Type ℓ where
    pub fed : Fed S
    pub answer : Answered S
    pub returned : run ≡ done fed
    pub told :
        (entries : KeyArray) × ((entries ≡ as_array m.fields)
          × (answer ≡ r.call (noted s) (code_of m) m.reason entries))
    pub client : fed.state.client ≡ answer.state
    pub all_taken : (fed.all_taken ≡ true) ↔ (answer.result ≡ none)

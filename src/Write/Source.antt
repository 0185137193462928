-- ===== src/Write/Source.antt =====
-- `globus_dsi_rest_write_t` of globus_dsi_rest.h: the contract between a `data_write_callback` and
-- the code that calls it.
use globus_dsi_rest.Base.{ℕ, ◌≤◌, ◌<◌, ◌≡◌, Option, none, [], ◌++◌, Bytes, length, Error}
use globus_dsi_rest.Base.Runs.{Run, done}

-- What a call leaves behind: its `globus_result_t` (`none` is GLOBUS_SUCCESS), the bytes that it
-- put into the buffer, whose number is `*amount_copied`, and the callback's state.
pub record Reply {ℓ} (S : Type ℓ) : Type ℓ where
  pub result : Option Error
  pub copied : Bytes
  pub state : S

-- A call with a buffer of `n` bytes.
abbrev pub Pull {ℓ} : Type ℓ → Type ℓ
Pull S = S → ℕ → Run (Reply S)

-- A call succeeds, hands out a prefix of what the state still holds, never more than the buffer
-- takes, and hands out nothing only at the end.
pub record Delivers {S : Type 0} (content : S → Bytes) (Good : S → Type 0) (s : S) (n : ℕ)
    (r : Run (Reply S)) : Type 0 where
  pub reply : Reply S
  pub returned : r ≡ done reply
  pub success : reply.result ≡ none
  pub good : Good reply.state
  pub prefix : content s ≡ reply.copied ++ content reply.state
  pub fits : length reply.copied ≤ n
  pub progress : reply.copied ≡ [] → content s ≡ []

pub record Source {S : Type 0} (pull : Pull S) : Type 1 where
  pub content : S → Bytes
  pub Good : S → Type 0
  pub delivers : (s : S) (n : ℕ) → Good s → 0 < n → Delivers content Good s n (pull s n)

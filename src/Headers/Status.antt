-- ===== src/Headers/Status.antt =====
-- The scan of a status line by `sscanf` in header.c, with the format "HTTP/%*s %d %64[^\r]".
use globus_dsi_rest.Base.{
  ℕ, zero, suc, ◌+◌, ◌-◌, ◌*◌, Bool, true, false, ◌&&◌, ◌||◌, Option, none, some, [], ◌∷◌, leb, ltb,
  ◌==◌, if◌then◌else◌, Bytes, length,
}
use globus_dsi_rest.Base.Runs.{Run, done, ◌>>=◌, ◌>>◌, assert}

-- `isspace`
unfoldable pub is_blank : ℕ → Bool
is_blank c = c == 32 || leb 9 c && leb c 13

abbrev pub is_digit : ℕ → Bool
is_digit c = leb b'0' c && leb c b'9'

-- White space in a format.
unfoldable pub skip_blanks : Bytes → Bytes
unfolding is_blank
skip_blanks [] = []
skip_blanks (c ∷ s) = let rest = skip_blanks s in if is_blank c then rest else c ∷ s

-- `%*s`: what is left behind some characters that are not white space.
unfoldable pub skip_word : Bytes → Bytes
unfolding is_blank
skip_word [] = []
skip_word (c ∷ s) = let rest = skip_word s in if is_blank c then c ∷ s else rest

-- Behind the largest `int`.
abbrev pub int_end : ℕ
int_end = 2147483648

-- The number that some digits continue, and what is left behind them.
pub record Number : Type 0 where
  pub value : ℕ
  pub rest : Bytes

unfoldable pub digits : ℕ → Bytes → Number
digits n [] = record { value = n; rest = [] }
digits n (c ∷ s) =
    let more = digits (n * 10 + (c - b'0')) s in
    if is_digit c then more else record { value = n; rest = c ∷ s }

-- `%d` for a number without a sign. A number that does not fit `int` has no defined result.
unfoldable pub scan_number : Bytes → Run (Option Number)
unfolding skip_blanks digits
scan_number s = elim (skip_blanks s) [
  | [] ↦ done none
  | c ∷ rest ↦ elim (is_digit c) [
    | false ↦ done none
    | true ↦ do assert (ltb (digits 0 (c ∷ rest)).value int_end); done (some (digits 0 (c ∷ rest)))
  ]
]

-- `%64[^\r]`: at most so many characters before a CR.
unfoldable pub scan_reason : ℕ → Bytes → Bytes
scan_reason zero s = []
scan_reason (suc n) [] = []
scan_reason (suc n) (c ∷ s) = let rest = scan_reason n s in if c == b'\r' then [] else c ∷ rest

-- The number of conversions, and what is assigned.
pub record Scanned : Type 0 where
  pub scans : ℕ
  pub code : Option ℕ
  pub reason : Option Bytes

abbrev pub nothing_scanned : Scanned
nothing_scanned = record { scans = 0; code = none; reason = none }

-- What is behind the number.
unfoldable pub with_reason : Option Number → Scanned
unfolding skip_blanks scan_reason
with_reason none = nothing_scanned
with_reason (some n) =
    let reason = scan_reason 64 (skip_blanks n.rest) in
    if length reason == 0
    then record { scans = 1; code = some n.value; reason = none }
    else record { scans = 2; code = some n.value; reason = some reason }

unfoldable pub scan_rest : Bytes → Run Scanned
unfolding skip_blanks skip_word scan_number with_reason
scan_rest s = do n ← scan_number (skip_word (skip_blanks s)); done (with_reason n)

-- The characters of the format in front of the first conversion.
unfoldable pub after_prefix : Bytes → Bytes → Option Bytes
after_prefix [] s = some s
after_prefix (p ∷ ps) [] = none
after_prefix (p ∷ ps) (c ∷ s) = let rest = after_prefix ps s in if c == p then rest else none

-- `%*s` must match at least one character; if it does not, nothing is converted.
unfoldable pub scan_status : Bytes → Run Scanned
unfolding after_prefix scan_rest
scan_status s = elim (after_prefix (b'H' ∷ b'T' ∷ b'T' ∷ b'P' ∷ b'/' ∷ []) s) [
  | none ↦ done nothing_scanned
  | some rest ↦ if length (skip_blanks rest) == 0 then done nothing_scanned else scan_rest rest
]

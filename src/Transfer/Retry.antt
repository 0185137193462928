-- ===== src/Transfer/Retry.antt =====
-- `globus_dsi_rest_error_is_retryable` of error_is_retryable.c, which reads libcurl's code back from
-- the text of an error.
use globus_dsi_rest.Base.{
  ℕ, zero, suc, ◌+◌, ◌-◌, ◌*◌, ◌/◌, ◌%◌, ◌<◌, ◌≡◌, refl, ◌∙◌, ap, Bool, true, false, ◌||◌, Option,
  none, some, [], ◌∷◌, ◌++◌, ltb, lt→ltb, ◌⊎◌, ◌↔◌, ◌==◌, if◌then◌else◌, Bytes, length, codes,
  Error, arith, Bool-cases, inl, inr, length-append,
}
use globus_dsi_rest.Base.Runs.{Run, done, ◌>>=◌, ◌>>◌, assert}
use globus_dsi_rest.Headers.Status.{int_end, is_digit, scan_number, after_prefix}
use globus_dsi_rest.Headers.Callback.Reason.{
  number, AreDigits, digits-append, skip_blanks-stop, digit-word,
}

-- `%d` for a number without a sign, with so many digits at most.
unfoldable pub print_digits : ℕ → ℕ → Bytes
print_digits zero n = []
print_digits (suc k) n =
    let front = print_digits k (n / 10) in
    if ltb n 10 then (n + b'0') ∷ [] else front ++ ((n % 10 + b'0') ∷ [])

-- A number that fits `int` has ten digits at most.
abbrev pub decimal : ℕ → Bytes
decimal n = print_digits 10 n

-- `strstr`
unfoldable pub strstr : Bytes → Bytes → Option Bytes
unfolding after_prefix
strstr p [] = elim p [ [] ↦ some [] | c ∷ s ↦ none ]
strstr p (c ∷ s) =
    let rest = strstr p s in elim (after_prefix p (c ∷ s)) [ some t ↦ some (c ∷ s) | none ↦ rest ]

abbrev pub curl_text : Bytes
curl_text = codes "libcurl error "

-- CURLE_COULDNT_RESOLVE_PROXY, CURLE_COULDNT_RESOLVE_HOST and CURLE_COULDNT_CONNECT
abbrev pub is_transient : ℕ → Bool
is_transient rc = rc == 5 || rc == 6 || rc == 7

-- `sscanf(p, "libcurl error %d", &rc) == 1`, with the switch on the code.
unfoldable pub scan_code : Bytes → Run Bool
unfolding after_prefix scan_number
scan_code p = elim (after_prefix curl_text p) [
  | none ↦ done false
  | some rest ↦ do
    n ← scan_number rest
    done (elim n [ none ↦ false | some m ↦ is_transient m.value ])
]

-- `describe` is `globus_error_print_friendly`, and only an `Error.curl` is of the type that is asked
-- for.
unfoldable pub error_is_retryable : (Error → Bytes) → Option Error → Run Bool
unfolding strstr scan_code
error_is_retryable describe none = done true
error_is_retryable describe (some (Error.curl rc)) =
    elim (strstr curl_text (describe (Error.curl rc))) [ none ↦ done false | some p ↦ scan_code p ]
error_is_retryable describe (some e) = done false

abbrev limit : ℕ → ℕ
limit zero = 1
limit (suc k) = 10 * limit k

number-append :
    (a : ℕ) (s : Bytes) (c : ℕ) → number a (s ++ (c ∷ [])) ≡ number a s * 10 + (c - b'0')
number-append a [] c = refl
number-append a (d ∷ s) c = number-append (a * 10 + (d - b'0')) s c

AreDigits-append : (s : Bytes) (c : ℕ) → AreDigits s → is_digit c ≡ true → AreDigits (s ++ (c ∷ []))
AreDigits-append [] c h e = (e, tt)
AreDigits-append (d ∷ s) c h e = (h.0, AreDigits-append s c h.1 e)

print_digits-AreDigits : (k n : ℕ) → AreDigits (print_digits k n)
unfolding print_digits
print_digits-AreDigits zero n = tt
print_digits-AreDigits (suc k) n = elim (Bool-cases (ltb n 10)) [
  | inl e ↦ let d : is_digit (n + b'0') ≡ true = ground arith in rw (e, print_digits) (d, tt)
  | inr e ↦
      let d : is_digit (n % 10 + b'0') ≡ true = ground arith in
      rw (e, print_digits)
        (AreDigits-append (print_digits k (n / 10)) (n % 10 + b'0')
          (print_digits-AreDigits k (n / 10)) d)
]

number-print_digits : (k n : ℕ) → n < limit k → number 0 (print_digits k n) ≡ n
unfolding print_digits
number-print_digits zero n h = omega arith
number-print_digits (suc k) n h = elim (Bool-cases (ltb n 10)) [
  | inl e ↦ rw (e, print_digits) (omega arith)
  | inr e ↦
      rw (e, print_digits)
        (number-append 0 (print_digits k (n / 10)) (n % 10 + b'0')
          ∙ omega (arith, number-print_digits k (n / 10) (omega (arith, h))))
]

some_digit : (k n : ℕ) → 0 < length (print_digits (suc k) n)
unfolding print_digits
some_digit k n = elim (Bool-cases (ltb n 10)) [
  | inl e ↦ rw (e, print_digits) (omega arith)
  | inr e ↦
      rw (e, print_digits)
        (omega (arith, length-append (print_digits k (n / 10)) ((n % 10 + b'0') ∷ [])))
]

scan_number-lead :
    (ds : Bytes) (c : ℕ) (t : Bytes)
    → AreDigits ds
    → 0 < length ds
    → is_digit c ≡ false
    → number 0 ds < int_end
    → scan_number (ds ++ (c ∷ t)) ≡ done (some (record { value = number 0 ds; rest = c ∷ t }))
unfolding scan_number
scan_number-lead [] c t h pos e small = absurd (omega arith)
scan_number-lead (d ∷ ds) c t h pos e small =
    let n = digits-append 0 (d ∷ ds) c t h e in
    let fits : ltb (number 0 (d ∷ ds)) int_end ≡ true = lt→ltb (number 0 (d ∷ ds)) int_end small in
    rw (skip_blanks-stop d (ds ++ (c ∷ t)) (digit-word d h.0), scan_number)
      (rw (h.0) (
        ap (λ x. assert (ltb x.value int_end) >> done (some x)) n
        ∙ ap (λ b. assert b >> done (some (record { value = number 0 (d ∷ ds); rest = c ∷ t })))
            fits))

-- The text of an error of libcurl, as the macro for such errors formats it, behind whatever
-- `globus_error_print_friendly` puts in front of it.
abbrev pub IsDescribed : (Error → Bytes) → ℕ → Bytes → Type 0
IsDescribed describe rc reason =
    strstr curl_text (describe (Error.curl rc))
    ≡ some (curl_text ++ (decimal rc ++ (b':' ∷ reason)))

transient_cases : (rc : ℕ) → (is_transient rc ≡ true) ↔ ((rc ≡ 5) ⊎ (rc ≡ 6) ⊎ (rc ≡ 7))
transient_cases rc = (λ h. ground arith, λ h. ground arith)

-- When the friendly text of an error of libcurl holds the library's own text with the code in
-- decimal, which fits an int, the call ends, and a retry is advised exactly for the codes 5, 6 and 7:
-- an unresolved proxy, an unresolved host and a failed connection.
pub error_is_retryable-curl :
    (describe : Error → Bytes) (rc : ℕ) (reason : Bytes)
    → rc < 2147483648
    → IsDescribed describe rc reason
    → (retry : Bool) × ((error_is_retryable describe (some (Error.curl rc)) ≡ done retry)
        × ((retry ≡ true) ↔ ((rc ≡ 5) ⊎ (rc ≡ 6) ⊎ (rc ≡ 7))))
unfolding error_is_retryable scan_code after_prefix
error_is_retryable-curl describe rc reason small told =
    let code = number-print_digits 10 rc (omega (arith, small)) in
    let n =
      scan_number-lead (decimal rc) b':' reason (print_digits-AreDigits 10 rc) (some_digit 9 rc)
        refl (omega (arith, small, code)) in
    (
      is_transient rc,
      (
        rw (told, error_is_retryable)
            (rw (n, scan_code, ◌>>=◌) (ap (λ c. done (is_transient c)) code)),
        transient_cases rc,
      ),
    )

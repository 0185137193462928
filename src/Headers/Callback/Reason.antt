-- ===== src/Headers/Callback/Reason.antt =====
-- Status lines in header.c.
use globus_dsi_rest.Base.{
  ℕ, zero, suc, ◌+◌, ◌-◌, ◌*◌, ◌<◌, ◌≡◌, ◌≢◌, refl, ◌∙◌, ap, ap₂, Bool, true, false, ◌&&◌, Option,
  none, some, [], ◌∷◌, ◌++◌, ltb, lt→ltb, ◌==◌, if◌then◌else◌, Bytes, length, All, Error, arith,
  ne→==, length-append,
}
use globus_dsi_rest.Base.Runs.{done, ◌>>=◌, ◌>>◌, assert}
use globus_dsi_rest.Transfer.Download.{answer}
use globus_dsi_rest.Headers.Parse.{cut_at}
use globus_dsi_rest.Headers.Status.{
  int_end, is_blank, is_digit, skip_blanks, skip_word, digits, scan_number, scan_reason,
  with_reason, scan_rest, after_prefix, scan_status,
}
use globus_dsi_rest.Headers.Callback.{HeaderState, Responder, note_status, take_status, header}

abbrev pub IsWord : Bytes → Type 0
IsWord s = All (λ c. is_blank c ≡ false) s

abbrev pub AreDigits : Bytes → Type 0
AreDigits s = All (λ c. is_digit c ≡ true) s

abbrev pub HasNoNul : Bytes → Type 0
HasNoNul s = All (λ c. c ≢ 0) s

-- The number that decimal digits stand for.
abbrev pub number : ℕ → Bytes → ℕ
number n [] = n
number n (c ∷ s) = number (n * 10 + (c - b'0')) s

cut_at-all : (s : Bytes) → HasNoNul s → cut_at 0 s ≡ s
unfolding cut_at
cut_at-all [] h = refl
cut_at-all (c ∷ s) h = rw (ne→== c 0 h.0, cut_at) (ap (λ t. c ∷ t) (cut_at-all s h.1))

skip_word-append :
    (v : Bytes) (c : ℕ) (s : Bytes)
    → IsWord v
    → is_blank c ≡ true
    → skip_word (v ++ (c ∷ s)) ≡ c ∷ s
unfolding skip_word
skip_word-append [] c s h e = rw (e, skip_word) refl
skip_word-append (d ∷ v) c s h e = rw (h.0, skip_word) (skip_word-append v c s h.1 e)

pub skip_blanks-stop : (c : ℕ) (s : Bytes) → is_blank c ≡ false → skip_blanks (c ∷ s) ≡ c ∷ s
unfolding skip_blanks
skip_blanks-stop c s e = rw (e, skip_blanks) refl

pub digits-append :
    (n : ℕ) (ds : Bytes) (c : ℕ) (s : Bytes)
    → AreDigits ds
    → is_digit c ≡ false
    → digits n (ds ++ (c ∷ s)) ≡ record { value = number n ds; rest = c ∷ s }
unfolding digits
digits-append n [] c s h e = rw (e, digits) refl
digits-append n (d ∷ ds) c s h e =
    rw (h.0, digits) (digits-append (n * 10 + (d - b'0')) ds c s h.1 e)

pub digit-word : (c : ℕ) → is_digit c ≡ true → is_blank c ≡ false
unfolding is_blank
digit-word c h = ground arith

scan_reason-append :
    (n : ℕ) (t : Bytes) (s : Bytes)
    → All (λ c. c ≢ b'\r') t
    → length t < n
    → scan_reason n (t ++ (b'\r' ∷ s)) ≡ t
unfolding scan_reason
scan_reason-append zero t s h lt = absurd (omega arith)
scan_reason-append (suc n) [] s h lt = refl
scan_reason-append (suc n) (c ∷ t) s h lt =
    rw (ne→== c b'\r' h.0, scan_reason)
      (ap (λ x. c ∷ x) (scan_reason-append n t s h.1 (omega arith)))

-- A status line: a version, a code in digits and a reason.
abbrev pub status_line : Bytes → Bytes → Bytes → Bytes
status_line version code reason =
    b'H'
    ∷ b'T'
    ∷ b'T'
    ∷ b'P'
    ∷ b'/'
    ∷ (version ++ (32 ∷ (code ++ (32 ∷ (reason ++ (b'\r' ∷ b'\n' ∷ []))))))

scan_number-digits :
    (ds t : Bytes)
    → AreDigits ds
    → 0 < length ds
    → number 0 ds < int_end
    → scan_number (32 ∷ (ds ++ (32 ∷ t)))
      ≡ done (some (record { value = number 0 ds; rest = 32 ∷ t }))
unfolding scan_number skip_blanks is_blank
scan_number-digits [] t h pos small = absurd (omega arith)
scan_number-digits (d ∷ ds) t h pos small =
    let q : skip_blanks (32 ∷ (d ∷ (ds ++ (32 ∷ t)))) ≡ d ∷ (ds ++ (32 ∷ t)) =
      skip_blanks-stop d (ds ++ (32 ∷ t)) (digit-word d h.0) in
    let n = digits-append 0 (d ∷ ds) 32 t h refl in
    let fits : ltb (number 0 (d ∷ ds)) int_end ≡ true = lt→ltb (number 0 (d ∷ ds)) int_end small in
    rw (q, scan_number)
      (rw (h.0) (
        ap (λ x. assert (ltb x.value int_end) >> done (some x)) n
        ∙ ap (λ b. assert b >> done (some (record { value = number 0 (d ∷ ds); rest = 32 ∷ t })))
            fits))

skip_blanks-word : (v : Bytes) (s : Bytes) → IsWord v → 0 < length v → skip_blanks (v ++ s) ≡ v ++ s
skip_blanks-word [] s h pos = absurd (omega arith)
skip_blanks-word (c ∷ v) s h pos = skip_blanks-stop c (v ++ s) h.0

-- A version and a code that fits `int`, as a server sends them.
pub record IsStatus (version code : Bytes) : Type 0 where
  pub word : IsWord version
  pub some_word : 0 < length version
  pub digit : AreDigits code
  pub some_digit : 0 < length code
  pub small : number 0 code < int_end

abbrev pub StartsPlain : Bytes → Type 0
StartsPlain [] = Unit
StartsPlain (c ∷ t) = is_blank c ≡ false

-- A reason that starts with a character that is not white space, and fits.
pub record IsReason (reason : Bytes) : Type 0 where
  pub first : StartsPlain reason
  pub some_chars : 0 < length reason
  pub fits : length reason < 64
  pub plain : All (λ c. c ≢ b'\r') reason

skip_blanks-reason : (t s : Bytes) → StartsPlain t → 0 < length t → skip_blanks (t ++ s) ≡ t ++ s
unfolding skip_blanks
skip_blanks-reason [] s h pos = absurd (omega arith)
skip_blanks-reason (c ∷ t) s h pos = skip_blanks-stop c (t ++ s) h

module _ (version code : Bytes) (v : IsStatus version code) where
  scan_rest-reason :
      (reason : Bytes)
      → IsReason reason
      → scan_rest (version ++ (32 ∷ (code ++ (32 ∷ (reason ++ (b'\r' ∷ b'\n' ∷ []))))))
        ≡ done (record { scans = 2; code = some (number 0 code); reason = some reason })
  unfolding scan_rest with_reason skip_blanks is_blank
  scan_rest-reason reason r =
      let tail = reason ++ (b'\r' ∷ b'\n' ∷ []) in
      let line = version ++ (32 ∷ (code ++ (32 ∷ tail))) in
      let word : skip_word (skip_blanks line) ≡ 32 ∷ (code ++ (32 ∷ tail)) =
        ap skip_word (skip_blanks-word version (32 ∷ (code ++ (32 ∷ tail))) v.word v.some_word)
        ∙ skip_word-append version 32 (code ++ (32 ∷ tail)) v.word refl in
      let num = ap scan_number word ∙ scan_number-digits code tail v.digit v.some_digit v.small in
      let text : scan_reason 64 (skip_blanks (32 ∷ tail)) ≡ reason =
        ap (scan_reason 64) (skip_blanks-reason reason (b'\r' ∷ b'\n' ∷ []) r.first r.some_chars)
        ∙ scan_reason-append 64 reason (b'\n' ∷ []) r.plain r.fits in
      let some_text : (length reason == 0) ≡ false =
        ne→== (length reason) 0 (λ e. omega (arith, r.some_chars)) in
      rw (num, scan_rest, ◌>>=◌) (rw text (rw some_text refl))

  scan_rest-empty :
      scan_rest (version ++ (32 ∷ (code ++ (32 ∷ (b'\r' ∷ b'\n' ∷ [])))))
      ≡ done (record { scans = 1; code = some (number 0 code); reason = none })
  unfolding scan_rest with_reason skip_blanks is_blank scan_reason
  scan_rest-empty =
      let tail = b'\r' ∷ b'\n' ∷ [] in
      let line = version ++ (32 ∷ (code ++ (32 ∷ tail))) in
      let word : skip_word (skip_blanks line) ≡ 32 ∷ (code ++ (32 ∷ tail)) =
        ap skip_word (skip_blanks-word version (32 ∷ (code ++ (32 ∷ tail))) v.word v.some_word)
        ∙ skip_word-append version 32 (code ++ (32 ∷ tail)) v.word refl in
      let num = ap scan_number word ∙ scan_number-digits code tail v.digit v.some_digit v.small in
      rw (num, scan_rest, ◌>>=◌) refl

  scan_status-rest :
      (reason : Bytes)
      → scan_status (status_line version code reason)
        ≡ scan_rest (version ++ (32 ∷ (code ++ (32 ∷ (reason ++ (b'\r' ∷ b'\n' ∷ []))))))
  unfolding scan_status after_prefix
  scan_status-rest reason =
      let rest = 32 ∷ (code ++ (32 ∷ (reason ++ (b'\r' ∷ b'\n' ∷ [])))) in
      let q = skip_blanks-word version rest v.word v.some_word in
      let t : (length (skip_blanks (version ++ rest)) == 0) ≡ false =
        ap (λ x. length x == 0) q
        ∙ ne→== (length (version ++ rest)) 0
            (λ e. omega (arith, length-append version rest, v.some_word)) in
      rw (t, scan_status) refl

  module _ {ℓ} {S : Type ℓ} (s : HeaderState S) (reason : Bytes)
      (clean : HasNoNul (status_line version code reason)) where
    -- A status line with a reason.
    pub take_status-reason :
        IsReason reason
        → take_status s (status_line version code reason)
          ≡ done (record {
            total = length (status_line version code reason);
            state = record s { response_code = number 0 code; response_reason = reason };
          })
    unfolding take_status note_status
    take_status-reason r =
        let scanned =
          ap scan_status (cut_at-all (status_line version code reason) clean)
          ∙ scan_status-rest reason
          ∙ scan_rest-reason reason r in
        let fits : ltb (length reason) 64 ≡ true = ground (arith, r.fits) in
        rw (scanned, take_status) (rw (fits, note_status, assert, ◌>>=◌, ◌>>◌) refl)

module _ {ℓ} {S : Type ℓ} (alloc : ℕ → Bool) (responder : Option (Responder S)) (s : HeaderState S)
    (fresh : s.response_code ≡ 0) (blank : s.response_reason ≡ []) where
  pub header-status :
      (line behind : Bytes) → header alloc responder s line behind ≡ take_status s line
  unfolding header
  header-status line behind =
      let t : (s.response_code == 0 && length s.response_reason == 0) ≡ true =
        ap₂ (λ c r. c == 0 && length r == 0) fresh blank in
      rw (t, header) refl

  -- A status line with a version and a decimal code that fits an int but without a reason, as in
  -- every response over HTTP/2, is not accepted where the first line of a response is expected:
  -- header returns 0 for it, at which libcurl gives up, although its code is noted.
  pub header_no_reason :
      (version code behind : Bytes)
      → IsStatus version code
      → HasNoNul (status_line version code [])
      → header alloc responder s (status_line version code []) behind
        ≡ done (record { total = 0; state = record s { response_code = number 0 code } })
  unfolding take_status note_status
  header_no_reason version code behind v clean =
      let line = status_line version code [] in
      let scanned =
        ap scan_status (cut_at-all line clean)
        ∙ scan_status-rest version code v []
        ∙ scan_rest-empty version code v in
      let fits : ltb (length s.response_reason) 64 ≡ true = ap (λ r. ltb (length r) 64) blank in
      let zero_total : answer (some Error.parse) (length line) ≡ 0 =
        ap (λ b. if b then 1 else 0) (ne→== (length line) 0 (λ e. omega arith)) in
      header-status line behind
      ∙ rw (scanned, take_status)
          (rw (fits, note_status, assert, ◌>>=◌, ◌>>◌)
            (ap
              (λ n. done (record { total = n; state = record s { response_code = number 0 code } }))
              zero_total))

-- ===== src/Transfer/Idle.antt =====
-- The idle timeout of progress_idle_timeout.c.
use globus_dsi_rest.Base.{
  ℕ, ◌+◌, ◌-◌, ◌*◌, ◌/◌, ◌%◌, ◌≤◌, ◌<◌, ◌≡◌, ◌≢◌, refl, sym, ◌∙◌, ap, ltb, ◌==◌, none, some, Error,
  inl, inr, ◌⊎◌, ◌↔◌, if◌then◌else◌, size_mod, arith, Bool-cases, ltb→lt, ltb→le, ==→eq, ==→ne,
}
use globus_dsi_rest.Transfer.Progress.{Amounts, Noted}

-- `globus_i_dsi_rest_idle_arg_t`; a time is a number of microseconds, the timeout one of milliseconds.
pub record IdleArg : Type 0 where
  pub idle_timeout : ℕ
  pub last_activity : ℕ
  pub last_amt_read : ℕ
  pub last_amt_written : ℕ

-- `GlobusTimeAbstimeDiff`, which the Globus common library provides: seconds and microseconds.
pub record RelTime : Type 0 where
  pub tv_sec : ℕ
  pub tv_usec : ℕ

abbrev pub Diff : Type 0
Diff = ℕ → ℕ → RelTime

unfoldable pub note_read : ℕ → ℕ → IdleArg → IdleArg
note_read now amt arg =
    if amt == arg.last_amt_read
    then arg
    else record arg { last_amt_read = amt; last_activity = now }

unfoldable pub note_written : ℕ → ℕ → IdleArg → IdleArg
note_written now amt arg =
    if amt == arg.last_amt_written
    then arg
    else record arg { last_amt_written = amt; last_activity = now }

abbrev pub msec : RelTime → ℕ
msec t = (t.tv_sec * 1000 + t.tv_usec / 1000) % size_mod

unfoldable pub judge : Diff → ℕ → IdleArg → Noted IdleArg
judge diff now arg =
    if ltb arg.idle_timeout (msec (diff now arg.last_activity))
    then record { result = some Error.time_out; state = arg }
    else record { result = none; state = arg }

unfoldable pub progress_idle_timeout : Diff → ℕ → IdleArg → Amounts → Noted IdleArg
unfolding note_read note_written judge
progress_idle_timeout diff now arg a =
    judge diff now (note_written now a.ulnow (note_read now a.dlnow arg))

-- The time since the last activity that an idle argument holds, in milliseconds.
abbrev pub idle : ℕ → IdleArg → ℕ
idle now arg = (now - arg.last_activity) / 1000

-- What a poll of the idle timeout leaves behind.
pub record Polls (arg : IdleArg) (now : ℕ) (a : Amounts) (n : Noted IdleArg) : Type 0 where
  pub read : n.state.last_amt_read ≡ a.dlnow
  pub written : n.state.last_amt_written ≡ a.ulnow
  pub timeout : n.state.idle_timeout ≡ arg.idle_timeout
  pub outcome :
      ((a.dlnow ≡ arg.last_amt_read)
        × (a.ulnow ≡ arg.last_amt_written)
        × (n.state.last_activity ≡ arg.last_activity)
        × ((n.result ≡ none) ↔ (idle now arg ≤ arg.idle_timeout)))
      ⊎ (((a.dlnow ≢ arg.last_amt_read) ⊎ (a.ulnow ≢ arg.last_amt_written))
          × (n.state.last_activity ≡ now)
          × (n.result ≡ none))

-- The documented behaviour of the difference of two times.
abbrev pub IsDiff : Diff → Type 0
IsDiff diff =
    (a b : ℕ)
    → b ≤ a
    → ((diff a b).tv_sec * 1000000 + (diff a b).tv_usec ≡ a - b) × ((diff a b).tv_usec < 1000000)

unchanged : (x y : ℕ) → (x ≡ y) ⊎ (x ≢ y)
unchanged x y = elim (Bool-cases (x == y)) [ inl e ↦ inl (==→eq x y e) | inr e ↦ inr (==→ne x y e) ]

module _ (diff : Diff) (differs : IsDiff diff) (now : ℕ) (small : now < size_mod) where
  msec_lem :
      (arg : IdleArg) → arg.last_activity ≤ now → msec (diff now arg.last_activity) ≡ idle now arg
  msec_lem arg h = let d = differs now arg.last_activity h in omega (arith, d.0, d.1)

  judge_lem :
      (arg : IdleArg)
      → arg.last_activity ≤ now
      → ((judge diff now arg).state ≡ arg)
        × ((judge diff now arg).result ≡ none ↔ idle now arg ≤ arg.idle_timeout)
  unfolding judge
  judge_lem arg h = elim (Bool-cases (ltb arg.idle_timeout (msec (diff now arg.last_activity)))) [
    | inl e ↦
        let lt = ltb→lt arg.idle_timeout (msec (diff now arg.last_activity)) e in
        rw (e, judge)
          (refl, ((λ q. absurd cc), (λ le. absurd (omega (arith, msec_lem arg h, lt, le)))))
    | inr e ↦
        let ge = ltb→le arg.idle_timeout (msec (diff now arg.last_activity)) e in
        rw (e, judge) (refl, ((λ q. omega (arith, msec_lem arg h, ge)), (λ le. refl)))
  ]

  -- After the amounts are noted.
  record Notes (arg : IdleArg) (a : Amounts) (arg' : IdleArg) : Type 0 where
    read : arg'.last_amt_read ≡ a.dlnow
    written : arg'.last_amt_written ≡ a.ulnow
    timeout : arg'.idle_timeout ≡ arg.idle_timeout
    past : arg'.last_activity ≤ now
    quiet :
        a.dlnow ≡ arg.last_amt_read
        → a.ulnow ≡ arg.last_amt_written
        → arg'.last_activity ≡ arg.last_activity
    active :
        ((a.dlnow ≢ arg.last_amt_read) ⊎ (a.ulnow ≢ arg.last_amt_written))
        → arg'.last_activity ≡ now

  note_lem :
      (arg : IdleArg) (a : Amounts)
      → arg.last_activity ≤ now
      → Notes arg a (note_written now a.ulnow (note_read now a.dlnow arg))
  unfolding note_read note_written
  note_lem arg a h = elim (Bool-cases (a.dlnow == arg.last_amt_read)) [
    | inl r ↦ elim (Bool-cases (a.ulnow == arg.last_amt_written)) [
      | inl w ↦
          let r' = ==→eq a.dlnow arg.last_amt_read r in
          let w' = ==→eq a.ulnow arg.last_amt_written w in
          rw (r, note_read)
            (rw (w, note_written)
              (record {
                read = sym r';
                written = sym w';
                timeout = refl;
                past = h;
                quiet = λ p q. refl;
                active = λ x. elim x [ inl n ↦ absurd (n r') | inr n ↦ absurd (n w') ];
              }))
      | inr w ↦
          let r' = ==→eq a.dlnow arg.last_amt_read r in
          let w' = ==→ne a.ulnow arg.last_amt_written w in
          rw (r, note_read)
            (rw (w, note_written)
              (record {
                read = sym r';
                written = refl;
                timeout = refl;
                past = omega arith;
                quiet = λ p q. absurd (w' q);
                active = λ x. refl;
              }))
    ]
    | inr r ↦ elim (Bool-cases (a.ulnow == arg.last_amt_written)) [
      | inl w ↦
          let r' = ==→ne a.dlnow arg.last_amt_read r in
          let w' = ==→eq a.ulnow arg.last_amt_written w in
          rw (r, note_read)
            (rw (w, note_written)
              (record {
                read = refl;
                written = sym w';
                timeout = refl;
                past = omega arith;
                quiet = λ p q. absurd (r' p);
                active = λ x. refl;
              }))
      | inr w ↦
          let r' = ==→ne a.dlnow arg.last_amt_read r in
          rw (r, note_read)
            (rw (w, note_written)
              (record {
                read = refl;
                written = refl;
                timeout = refl;
                past = omega arith;
                quiet = λ p q. absurd (r' p);
                active = λ x. refl;
              }))
    ]
  ]

  -- A poll of the idle timeout notes the amounts. When one of them has changed, it notes the time and
  -- succeeds. When neither has, the time of the last activity stays, and the poll succeeds exactly
  -- when the whole milliseconds since then are within the timeout.
  pub progress_idle_timeout-Polls :
      (arg : IdleArg) (a : Amounts)
      → arg.last_activity ≤ now
      → Polls arg now a (progress_idle_timeout diff now arg a)
  unfolding progress_idle_timeout
  progress_idle_timeout-Polls arg a h = record {
    read = ap (λ x. x.last_amt_read) j.0 ∙ n.read;
    written = ap (λ x. x.last_amt_written) j.0 ∙ n.written;
    timeout = ap (λ x. x.idle_timeout) j.0 ∙ n.timeout;
    outcome = elim (unchanged a.dlnow arg.last_amt_read) [
      | inl r ↦ elim (unchanged a.ulnow arg.last_amt_written) [
        | inl w ↦ inl (
          r,
          w,
          ap (λ x. x.last_activity) j.0 ∙ n.quiet r w,
          (
            (λ q. omega (arith, j.1.0 q, n.quiet r w, n.timeout)),
            (λ le. j.1.1 (omega (arith, le, n.quiet r w, n.timeout))),
          ),
        )
        | inr w ↦ inr (changed (inr w))
      ]
      | inr r ↦ inr (changed (inl r))
    ];
  }
    where
      arg' : IdleArg
      arg' = note_written now a.ulnow (note_read now a.dlnow arg)

      n : Notes arg a arg'
      n = note_lem arg a h

      j :
          ((judge diff now arg').state ≡ arg')
          × ((judge diff now arg').result ≡ none ↔ idle now arg' ≤ arg'.idle_timeout)
      j = judge_lem arg' n.past

      changed :
          (x : (a.dlnow ≢ arg.last_amt_read) ⊎ (a.ulnow ≢ arg.last_amt_written))
          → ((a.dlnow ≢ arg.last_amt_read) ⊎ (a.ulnow ≢ arg.last_amt_written))
            × ((judge diff now arg').state.last_activity ≡ now)
            × ((judge diff now arg').result ≡ none)
      changed x = (x, ap (λ y. y.last_activity) j.0 ∙ n.active x, j.1.1 (omega (arith, n.active x)))

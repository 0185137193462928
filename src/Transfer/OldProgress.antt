-- ===== src/Transfer/OldProgress.antt =====
-- The progress callback for versions of libcurl before 7.32, progress.c, whose amounts are of type
-- double.
use globus_dsi_rest.Base.{
  ℕ, ◌*◌, ◌/◌, ◌%◌, ◌^◌, ◌<◌, ◌≡◌, refl, sym, ap, true, Option, none, some, ltb, if◌then◌else◌,
  size_mod, arith,
}
use globus_dsi_rest.Base.Runs.{Run, done, stuck, ◌>>=◌}
use globus_dsi_rest.Transfer.Request.{Request}
use globus_dsi_rest.Transfer.Progress.{Amounts, Watch, Reported, report, cast_amounts, xferinfo}

-- A double that is finite and not negative: `significand * 2 ^ up / 2 ^ down`.
pub record Double : Type 0 where
  pub significand : ℕ
  pub up : ℕ
  pub down : ℕ

-- The integer part, to which a cast rounds.
abbrev pub whole : Double → ℕ
whole d = d.significand * 2 ^ d.up / 2 ^ d.down

pub record DoubleAmounts : Type 0 where
  pub dltotal : Double
  pub dlnow : Double
  pub ultotal : Double
  pub ulnow : Double

-- A cast to `uint64_t`, which is undefined out of range.
unfoldable pub cast : Double → Run ℕ
cast d = if ltb (whole d) size_mod then done (whole d) else stuck

unfoldable pub progress {ℓ} :
    {S : Type ℓ} → Option (Watch S) → Request → S → DoubleAmounts → Run (Reported S)
unfolding cast report
progress none request s a = done (record { rc = 0; request = request; state = s })
progress (some watch) request s a = do
  dltotal' ← cast a.dltotal
  dlnow' ← cast a.dlnow
  ultotal' ← cast a.ultotal
  ulnow' ← cast a.ulnow
  done (
      report request (
        watch s
          (record { dltotal = dltotal'; dlnow = dlnow'; ultotal = ultotal'; ulnow = ulnow' })))

-- The integer parts of the amounts.
abbrev pub wholes : DoubleAmounts → Amounts
wholes a = record {
  dltotal = whole a.dltotal;
  dlnow = whole a.dlnow;
  ultotal = whole a.ultotal;
  ulnow = whole a.ulnow;
}

pub record InRange (a : DoubleAmounts) : Type 0 where
  pub dltotal : whole a.dltotal < size_mod
  pub dlnow : whole a.dlnow < size_mod
  pub ultotal : whole a.ultotal < size_mod
  pub ulnow : whole a.ulnow < size_mod

cast_lem : (d : Double) → whole d < size_mod → cast d ≡ done (whole d)
unfolding cast
cast_lem d h = let t : ltb (whole d) size_mod ≡ true = ground arith in rw (t, cast) refl

fits : (n : ℕ) → n < size_mod → n % size_mod ≡ n
fits n h = omega (arith, h)

cast_amounts_same : (a : DoubleAmounts) → InRange a → cast_amounts (wholes a) ≡ wholes a
cast_amounts_same a h =
    let e₁ : whole a.dltotal % size_mod ≡ whole a.dltotal = fits (whole a.dltotal) h.dltotal in
    let e₂ : whole a.dlnow % size_mod ≡ whole a.dlnow = fits (whole a.dlnow) h.dlnow in
    let e₃ : whole a.ultotal % size_mod ≡ whole a.ultotal = fits (whole a.ultotal) h.ultotal in
    let e₄ : whole a.ulnow % size_mod ≡ whole a.ulnow = fits (whole a.ulnow) h.ulnow in
    let q : cast_amounts (wholes a) ≡ wholes a = simp (e₁, e₂, e₃, e₄) in q

-- progress does the same as xferinfo would do with the integer parts of the amounts, whether there
-- is a progress callback or not, when these fit 64 bits.
pub progress-xferinfo {ℓ} :
    {S : Type ℓ} (watch : Option (Watch S)) (request : Request) (s : S) (a : DoubleAmounts)
    → InRange a
    → progress watch request s a ≡ done (xferinfo watch request s (wholes a))
unfolding progress xferinfo
progress-xferinfo none request s a h = refl
progress-xferinfo (some watch) request s a h =
    rw (cast_lem a.dltotal h.dltotal, progress)
      (rw (cast_lem a.dlnow h.dlnow, ◌>>=◌)
        (rw (cast_lem a.ultotal h.ultotal, ◌>>=◌)
          (rw (cast_lem a.ulnow h.ulnow, ◌>>=◌)
            (ap (λ x. done (report request (watch s x))) (sym (cast_amounts_same a h))))))

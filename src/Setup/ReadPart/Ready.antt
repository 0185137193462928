-- ===== src/Setup/ReadPart/Ready.antt =====
-- What the preparation of a read part allocates is held by the part.
use mathlib.Core.Path.{subst}
use globus_dsi_rest.Base.{ℕ, ◌+◌, ◌≡◌, inl, inr, refl, sym, none, arith}
use globus_dsi_rest.Gridftp.Op.{new_op}
use globus_dsi_rest.Gridftp.Prepare.{prepare_read_lem, end_of_read}
use globus_dsi_rest.Setup.Heap.{null, block, Heap}
use globus_dsi_rest.Setup.Heap.Accounts.{
  at, Accounts, Ends, Ends-pure, Ends-bind, Plenty, malloc-bind,
}
use globus_dsi_rest.Setup.PrepareWrite.{Env, init_of}
use globus_dsi_rest.Setup.ReadPart.{
  Sink, Sinks, no_sink, sink, ReadArg, json_arg, op_arg, multipart_arg, ReadReady, ReadsReady,
  without, prepare_read_json_callback, op_ready, prepare_read_op, prepare_read_callbacks,
  prepare_reads,
}
use globus_dsi_rest.Setup.ReadPart.Owns.{read_holds, read_arg_holds, reads_hold}
use globus_dsi_rest.Setup.ReadPart.Leaves.{ReadIsNew, ReadArgIsNew, ReadsAreNew}

pub record ReadIsReady (held : ℕ → ℕ) (r : ReadReady) (h : Heap) : Type 0 where
  pub success : r.result ≡ none
  pub whole : ReadIsNew r.ready
  pub accounts : Accounts (λ p. held p + read_holds r.ready p) h

pub record ReadsAreReady (held : ℕ → ℕ) (r : ReadsReady) (h : Heap) : Type 0 where
  pub success : r.result ≡ none
  pub whole : ReadsAreNew r.ready
  pub accounts : Accounts (λ p. held p + reads_hold r.ready p) h

ready :
    (held : ℕ → ℕ) (arg : ReadArg) (h : Heap)
    → ReadArgIsNew arg
    → Accounts (λ p. held p + read_arg_holds arg p) h
    → ReadIsReady held (record { result = none; ready = without arg }) h
unfolding ReadIsNew read_holds
ready held arg h w a = record {
  success = refl;
  whole = (inl (refl, refl), w);
  accounts = λ p. omega (arith, a p);
}

mutual
  unfolding prepare_read_callbacks prepare_reads prepare_read_json_callback prepare_read_op op_ready
      ReadArgIsNew ReadsAreNew read_arg_holds reads_hold

  sink_lem :
      (env : Env) (plenty : Plenty env.grants) (mutex : env.mutex_rc ≡ 0) (cond : env.cond_rc ≡ 0)
      (held : ℕ → ℕ) (s : Sink) (h : Heap)
      → Accounts held h
      → Ends (ReadIsReady held) (prepare_read_callbacks env s h)
  sink_lem env plenty mutex cond held Sink.no_callback h a =
      Ends-pure _ h (ready held ReadArg.custom h tt (λ p. omega (arith, a p)))
  sink_lem env plenty mutex cond held Sink.custom h a =
      Ends-pure _ h (ready held ReadArg.custom h tt (λ p. omega (arith, a p)))
  sink_lem env plenty mutex cond held Sink.read_json h a =
      malloc-bind held h env.grants plenty _ a λ n h₁ b.
        Ends-pure _ h₁
          (ready held (json_arg (block n) null) h₁ (inr (n, refl)) (λ p. omega (arith, b p)))
  sink_lem env plenty mutex cond held (Sink.read_gridftp_op x) h a =
      malloc-bind held h env.grants plenty _ a λ n h₁ b.
        let e =
          prepare_read_lem (init_of env) x
            (record { allocated = refl; mutex = mutex; cond = cond }) in
        subst (λ p. Ends (ReadIsReady held) (op_ready (block n) p h₁)) (sym e)
          (Ends-pure _ h₁ (
            ready held (op_arg (block n) (new_op x.offset (end_of_read x))) h₁
              ((refl, refl), (refl, refl, refl)) (λ p. omega (arith, b p))))
  sink_lem env plenty mutex cond held (Sink.read_multipart ss) h a =
      malloc-bind held h env.grants plenty _ a λ n h₁ b.
        malloc-bind (λ p. held p + at (block n) p) h₁ env.grants plenty _ b
          λ m h₂ c.
            Ends-bind (prepare_reads env ss) _ h₂ (sinks_lem env plenty mutex cond _ ss h₂ c)
              λ r h₃ many. rw many.success (
                Ends-pure _ h₃ (
                  ready held (multipart_arg (block n) _ r.ready) h₃ (inr (m, refl), many.whole)
                    (λ p. omega (arith, many.accounts p))))

  sinks_lem :
      (env : Env) (plenty : Plenty env.grants) (mutex : env.mutex_rc ≡ 0) (cond : env.cond_rc ≡ 0)
      (held : ℕ → ℕ) (ss : Sinks) (h : Heap)
      → Accounts held h
      → Ends (ReadsAreReady held) (prepare_reads env ss h)
  sinks_lem env plenty mutex cond held no_sink h a =
      Ends-pure _ h (record { success = refl; whole = tt; accounts = λ p. omega (arith, a p) })
  sinks_lem env plenty mutex cond held (sink s ss) h a =
      Ends-bind (prepare_read_callbacks env s) _ h (sink_lem env plenty mutex cond held s h a)
        λ r h₁ one. rw one.success (
          Ends-bind (prepare_reads env ss) _ h₁
            (sinks_lem env plenty mutex cond (λ p. held p + read_holds r.ready p) ss h₁
              one.accounts)
            λ rest h₂ many. Ends-pure _ h₂ (record {
              success = many.success;
              whole = (one.whole, many.whole);
              accounts = λ p. omega (arith, many.accounts p);
            }))

-- When allocations succeed, and the mutexes and the conditions are initialised, the preparation of a
-- read part succeeds, and every block that was allocated is held by the part exactly once.
pub prepare_read_callbacks-ReadIsReady :
    (env : Env)
    → Plenty env.grants
    → env.mutex_rc ≡ 0
    → env.cond_rc ≡ 0
    → (held : ℕ → ℕ) (s : Sink) (h : Heap) → Accounts held h
    → Ends (ReadIsReady held) (prepare_read_callbacks env s h)
prepare_read_callbacks-ReadIsReady env plenty mutex cond held s h a =
    sink_lem env plenty mutex cond held s h a

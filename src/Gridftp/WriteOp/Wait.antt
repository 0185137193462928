-- ===== src/Gridftp/WriteOp/Wait.antt =====
-- The loop of `globus_l_dsi_rest_write_gridftp_op` that waits.
use globus_dsi_rest.Base.{
  ℕ, zero, suc, ◌≡◌, ◌⊎◌, refl, ◌∙◌, ap, Bool, true, false, ◌||◌, Option, none, some, List, [], ◌∷◌,
  inl, inr, Bytes, Error, Bool-cases, Option-cases,
}
use globus_dsi_rest.Base.Runs.{Run, done, out_of_fuel, ◌>>=◌}
use globus_dsi_rest.Gridftp.Op.{Buffer, OpArg, Server}
use globus_dsi_rest.Gridftp.ReadOp.{Ended}
use globus_dsi_rest.Transfer.Request.{first_error}
use globus_dsi_rest.Gridftp.WriteOp.{
  Arrivals, wait_arrivals, is_transfer_offset_ready, is_reading_complete, register_reads,
  wait_ready,
}
use globus_dsi_rest.Gridftp.WriteOp.Inv.{IsSound}
use globus_dsi_rest.Gridftp.WriteOp.Arrive.{IsHonestServer, wait_arrivals-Held}
use globus_dsi_rest.Gridftp.WriteOp.Register.{list_cases, register_reads-Registered}

-- Whether a waiting thread goes on.
abbrev pub wakes : OpArg → Bool
wakes s = is_transfer_offset_ready s || is_reading_complete s

-- What waiting leaves behind, when it ends: the next bytes, the end of the data or an error.
pub record Woken (file : Bytes) (s : OpArg) (r : Run OpArg) : Type 0 where
  pub op : OpArg
  pub returned : r ≡ done op
  pub sound : IsSound file op
  pub locked : op.locked ≡ true
  pub offset : op.offset ≡ s.offset
  pub why : (wakes op ≡ true) ⊎ ((e : Error) × (op.result ≡ some e))

-- The rest of a round of the loop, when reads have been registered.
abbrev wait_on : Server → Arrivals → ℕ → OpArg → Run OpArg
wait_on srv arrivals waits s = elim s.result as (λ x. Run OpArg) [
  | none ↦ wait_arrivals arrivals s >>= wait_ready srv arrivals waits
  | some e ↦ elim s.registered_buffers as (λ x. Run OpArg) [
    | [] ↦ done s
    | b ∷ bs ↦ wait_arrivals arrivals s >>= wait_ready srv arrivals waits
  ]
]

-- The state with the result of registering reads.
abbrev noted : Ended → OpArg
noted r = record r.op { result = first_error r.op.result r.result }

module _ (srv : Server) (arrivals : Arrivals) where
  wait_ready_step :
      (waits : ℕ) (s : OpArg) (r : Ended)
      → wakes s ≡ false
      → register_reads srv s ≡ done r
      → wait_ready srv arrivals (suc waits) s ≡ wait_on srv arrivals waits (noted r)
  unfolding wait_ready
  wait_ready_step waits s r t q = rw (t, wait_ready) (rw (q, ◌>>=◌) refl)

  pub wait_ready_now :
      (waits : ℕ) (s : OpArg) → wakes s ≡ true → wait_ready srv arrivals (suc waits) s ≡ done s
  unfolding wait_ready
  wait_ready_now waits s t = rw (t, wait_ready) refl

  wait_on_cases :
      (waits : ℕ) (s : OpArg)
      → (wait_on srv arrivals waits s
          ≡ (wait_arrivals arrivals s >>= wait_ready srv arrivals waits))
        ⊎ ((wait_on srv arrivals waits s ≡ done s) × ((e : Error) × (s.result ≡ some e)))
  wait_on_cases waits s =
      let on = wait_arrivals arrivals s >>= wait_ready srv arrivals waits in
      let idle : List Buffer → Run OpArg =
        λ bs. elim bs as (λ x. Run OpArg) [ [] ↦ done s | b ∷ bs ↦ on ] in
      let by_result : Option Error → Run OpArg =
        λ r. elim r as (λ x. Run OpArg) [ none ↦ on | some e ↦ idle s.registered_buffers ] in
      elim (Option-cases s.result) [
        | inl e ↦ inl (ap by_result e)
        | inr (x, e) ↦ elim (list_cases s.registered_buffers) [
          | inl b ↦ inr (ap by_result e ∙ ap idle b, (x, e))
          | inr (b, bs, q) ↦ inl (ap by_result e ∙ ap idle q)
        ]
      ]

  module _ (file : Bytes) (honest : IsHonestServer file arrivals) where
    pub wait_ready-Woken :
        (waits : ℕ) (s : OpArg)
        → IsSound file s
        → s.locked ≡ true
        → (wait_ready srv arrivals waits s ≡ out_of_fuel)
          ⊎ Woken file s (wait_ready srv arrivals waits s)
    unfolding wait_ready
    wait_ready-Woken zero s v l = inl refl
    wait_ready-Woken (suc waits) s v l = elim (Bool-cases (wakes s)) [
      | inl t ↦ inr (record {
        op = s;
        returned = rw (t, wait_ready) refl;
        sound = v;
        locked = l;
        offset = refl;
        why = inl t;
      })
      | inr t ↦
          let r = register_reads-Registered srv file s v in
          let s₁ = noted r.ended in
          let w : IsSound file s₁ = record {
            pieces = r.same.sound.pieces;
            free = r.same.sound.free;
            idle = r.same.sound.idle;
            within = r.same.sound.within;
          } in
          let step = wait_ready_step waits s r.ended t r.returned in
          elim (wait_on_cases waits s₁) [
            | inr (q, why) ↦ inr (record {
              op = s₁;
              returned = step ∙ q;
              sound = w;
              locked = r.same.locked ∙ l;
              offset = r.same.offset;
              why = inr why;
            })
            | inl q ↦
                let h = wait_arrivals-Held file arrivals s₁ honest w in
                let on : wait_ready srv arrivals (suc waits) s
                    ≡ wait_ready srv arrivals waits h.op =
                  step ∙ q ∙ ap (λ x. x >>= wait_ready srv arrivals waits) h.returned in
                elim (wait_ready-Woken waits h.op h.sound h.locked) [
                  | inl f ↦ inl (on ∙ f)
                  | inr p ↦ inr (record {
                    op = p.op;
                    returned = on ∙ p.returned;
                    sound = p.sound;
                    locked = p.locked;
                    offset = p.offset ∙ h.offset ∙ r.same.offset;
                    why = p.why;
                  })
                ]
          ]
    ]

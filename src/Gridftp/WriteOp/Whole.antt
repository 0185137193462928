-- ===== src/Gridftp/WriteOp/Whole.antt =====
-- The calls of one request body: libcurl asks for bytes until a call fails or hands out nothing.
use globus_dsi_rest.Base.{
  ℕ, ◌+◌, ◌^◌, ◌<◌, ◌≡◌, ◌⊎◌, refl, sym, ◌∙◌, ap, ap₂, Bool, true, false, Option, none, some, List,
  [], ◌∷◌, ◌++◌, inl, inr, ◌==◌, Bytes, length, All, Error, size_mod, arith, Bool-cases,
  Option-cases, length-append,
}
use globus_dsi_rest.Base.Runs.{Run, done, out_of_fuel, ◌>>=◌}
use globus_dsi_rest.Gridftp.Op.{OpArg, Server}
use globus_dsi_rest.Gridftp.WriteOp.{Arrivals, Written, read_callbacks, write_gridftp_op}
use globus_dsi_rest.Gridftp.WriteOp.Inv.{IsSound, slice}
use globus_dsi_rest.Gridftp.WriteOp.Arrive.{IsHonestServer, read_callbacks-Arrived}
use globus_dsi_rest.Gridftp.WriteOp.HandOut.{slice-append}
use globus_dsi_rest.Gridftp.WriteOp.Laws.{write_gridftp_op-Wrote}

-- The rest of the calls, when one has returned.
unfoldable pub and_then : Written → Run Written → Run Written
and_then w rest = elim w.result [
  | some e ↦ done w
  | none ↦ elim (length w.copied == 0) [
    | true ↦ done w
    | false ↦ do
      r ← rest
      done (record { result = r.result; copied = w.copied ++ r.copied; op = r.op })
  ]
]

-- Calls with room for so many bytes each; in front of each of them, some reads may arrive. What is
-- copied is what all of them copied.
unfoldable pub send : Server → Arrivals → Arrivals → ℕ → List ℕ → OpArg → Run Written
unfolding read_callbacks write_gridftp_op and_then
send srv between arrivals waits [] s = done (record { result = none; copied = []; op = s })
send srv between arrivals waits (n ∷ ns) s = do
  s' ← read_callbacks (between s) s
  w ← write_gridftp_op srv arrivals waits s' n
  and_then w (send srv between arrivals waits ns w.op)

-- The bytes that were sent are those of the file from the offset on, which has moved behind them.
pub record Sends (file : Bytes) (s : OpArg) (r : Run Written) : Type 0 where
  pub written : Written
  pub returned : r ≡ done written
  pub sound : IsSound file written.op
  pub unlocked : written.op.locked ≡ false
  pub content : written.copied ≡ slice file s.offset (length written.copied)
  pub offset : written.op.offset ≡ s.offset + length written.copied

and_then_cases :
    (w : Written) (rest : Run Written)
    → (and_then w rest ≡ done w)
      ⊎ (and_then w rest ≡ (
          rest >>= λ r.
          done (record { result = r.result; copied = w.copied ++ r.copied; op = r.op })))
unfolding and_then
and_then_cases w rest =
    let on : Run Written =
      rest >>= λ r. done (record { result = r.result; copied = w.copied ++ r.copied; op = r.op }) in
    let by_length : Bool → Run Written =
      λ b. elim b as (λ x. Run Written) [ true ↦ done w | false ↦ on ] in
    let by_result : Option Error → Run Written = λ o. elim o as (λ x. Run Written) [
      | some e ↦ done w
      | none ↦ by_length (length w.copied == 0)
    ] in
    elim (Option-cases w.result) [
      | inr (e, q) ↦ inl (ap by_result q)
      | inl q ↦ elim (Bool-cases (length w.copied == 0)) [
        | inl t ↦ inl (ap by_result q ∙ ap by_length t)
        | inr t ↦ inr (ap by_result q ∙ ap by_length t)
      ]
    ]

module _ (srv : Server) (between arrivals : Arrivals) (file : Bytes)
    (early : IsHonestServer file between) (honest : IsHonestServer file arrivals)
    (small : length file < size_mod) where
  -- A call behind the arrivals, and the ones behind it.
  abbrev call : ℕ → ℕ → List ℕ → OpArg → Run Written
  call waits n ns s' = write_gridftp_op srv arrivals waits s' n >>= λ w.
      and_then w (send srv between arrivals waits ns w.op)

  -- When the server's arrivals are pieces of a file of less than 2^64 bytes, errors or the end of
  -- the data, in whatever order, while a call waits and in front of each call, libcurl's calls of write_gridftp_op on a
  -- sound operation with the mutex free, with room for less than 2^31 bytes each, either come to
  -- one that still waits behind any given number of waits, or all return; then what they hand out
  -- are exactly the bytes of the file from the operation's offset on, in order and without a gap,
  -- the offset has moved behind them, and the mutex is free.
  pub send-Sends :
      (waits : ℕ) (ns : List ℕ) (s : OpArg)
      → IsSound file s
      → s.locked ≡ false
      → All (λ n. n < 2 ^ 31) ns
      → (send srv between arrivals waits ns s ≡ out_of_fuel)
        ⊎ Sends file s (send srv between arrivals waits ns s)
  unfolding send
  send-Sends waits [] s v u rooms = inr (record {
    written = record { result = none; copied = []; op = s };
    returned = refl;
    sound = v;
    unlocked = u;
    content = refl;
    offset = omega arith;
  })
  send-Sends waits (n ∷ ns) s v u rooms =
      let p = read_callbacks-Arrived file (between s) s v u (early s) in
      let start = ap (λ x. x >>= call waits n ns) p.returned in
      elim (write_gridftp_op-Wrote srv arrivals file honest small waits p.op n p.sound p.unlocked
        rooms.0) [
          | inl f ↦ inl (start ∙ rw (f, ◌>>=◌) refl)
          | inr w ↦
              let rest = send srv between arrivals waits ns w.written.op in
              let on : send srv between arrivals waits (n ∷ ns) s ≡ and_then w.written rest =
                start
                ∙ ap (λ x. x >>= λ w. and_then w (send srv between arrivals waits ns w.op))
                    w.returned in
              let offset : w.written.op.offset ≡ s.offset + length w.written.copied =
                w.offset ∙ ap (λ o. o + length w.written.copied) p.offset in
              let content : w.written.copied ≡ slice file s.offset (length w.written.copied) =
                w.content ∙ ap (λ o. slice file o (length w.written.copied)) p.offset in
              elim (and_then_cases w.written rest) [
                | inl q ↦ inr (record {
                  written = w.written;
                  returned = on ∙ q;
                  sound = w.sound;
                  unlocked = w.unlocked;
                  content = content;
                  offset = offset;
                })
                | inr q ↦ elim (send-Sends waits ns w.written.op w.sound w.unlocked rooms.1) [
                  | inl f ↦ inl (
                      on
                      ∙ q
                      ∙ ap
                          (λ x. x >>= λ r. done (record {
                            result = r.result;
                            copied = w.written.copied ++ r.copied;
                            op = r.op;
                          }))
                          f)
                  | inr r ↦
                      let len = length-append w.written.copied r.written.copied in
                      inr (record {
                        written = record {
                          result = r.written.result;
                          copied = w.written.copied ++ r.written.copied;
                          op = r.written.op;
                        };
                        returned =
                            on
                            ∙ q
                            ∙ ap
                                (λ x. x >>= λ r. done (record {
                                  result = r.result;
                                  copied = w.written.copied ++ r.copied;
                                  op = r.op;
                                }))
                                r.returned;
                        sound = r.sound;
                        unlocked = r.unlocked;
                        content =
                            ap₂ (λ x y. x ++ y) content
                              (r.content ∙ ap (λ o. slice file o (length r.written.copied)) offset)
                            ∙ slice-append file s.offset (length w.written.copied)
                                (length r.written.copied)
                            ∙ ap (slice file s.offset) (sym len);
                        offset = omega (arith, r.offset, offset, len);
                      })
                ]
              ]
        ]

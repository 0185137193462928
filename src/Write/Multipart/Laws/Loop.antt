-- ===== src/Write/Multipart/Laws/Loop.antt =====
-- The loop of write_multipart.c, and the contract of a write callback for the whole function.
use mathlib.Core.Path.{subst}
use globus_dsi_rest.Base.{
  ℕ, zero, suc, ◌+◌, ◌-◌, ◌<◌, ◌≡◌, refl, sym, ◌∙◌, ap, ap₂, inl, inr, Bool, true, false, ◌&&◌,
  none, [], ◌++◌, Bytes, length, drop, drop_all, arith, Bool-cases, ltb,
}
use globus_dsi_rest.Base.Runs.{Run, done, ◌>>=◌, elem_at}
use globus_dsi_rest.Write.Source.{Reply, Pull, Source, Delivers}
use globus_dsi_rest.Write.Multipart.{Multipart, State, multipart_loop, write_multipart}
use globus_dsi_rest.Write.Multipart.Content.{
  parts_content, pending_rest, body, IsMultipart, Moves, write_pending_lem,
}
use globus_dsi_rest.Write.Multipart.Laws.Round.{round_lem}

module _ {S : Type 0} {pull : Pull S} (src : Source pull) (d : Bytes) (alloc : ℕ → Bool)
    (always : (n : ℕ) → alloc n ≡ true) where
  -- How the loop ends from `m` with `out` copied.
  record Ends (m : Multipart S) (n : ℕ) (out : Bytes) (r : Run (Reply (Multipart S))) : Type 0 where
    reply : Reply (Multipart S)
    returned : r ≡ done reply
    success : reply.result ≡ none
    moves : Moves src d m n out (reply.state, reply.copied)
    short : length reply.copied < n → body src d reply.state ≡ []

  Moves-trans :
      {m : Multipart S} {n : ℕ} {out : Bytes} {st st' : State S}
      → Moves src d m n out st
      → Moves src d st.0 n st.1 st'
      → Moves src d m n out st'
  Moves-trans p q = record {
    good = q.good;
    prefix = p.prefix ∙ q.prefix;
    fits = q.fits;
    grows = omega (arith, p.grows, q.grows);
    count = q.count ∙ p.count;
    flushed = q.flushed;
  }

  Moves-stay :
      {m : Multipart S} {n : ℕ} {out : Bytes} {st : State S}
      → Moves src d m n out st
      → Moves src d st.0 n st.1 st
  Moves-stay p = record {
    good = p.good;
    prefix = refl;
    fits = p.fits;
    grows = omega arith;
    count = refl;
    flushed = p.flushed;
  }

  idle_of :
      (m : Multipart S) (n : ℕ) (out : Bytes)
      → Moves src d m n out (m, out)
      → length out < n
      → m.current_boundary ≡ none
  idle_of m n out moves room = elim moves.flushed [ inl e ↦ e | inr full ↦ absurd (omega arith) ]

  loop_over :
      (m : Multipart S) (n : ℕ) (out : Bytes)
      → Moves src d m n out (m, out)
      → (ltb (length out) n && ltb m.part_index m.num_parts) ≡ false
      → Ends m n out (done (record { result = none; copied = out; state = m }))
  loop_over m n out moves f = record {
    reply = record { result = none; copied = out; state = m };
    returned = refl;
    success = refl;
    moves = moves;
    short = λ lt. elim moves.flushed [
      | inl e ↦
          ap
            (λ o.
              pending_rest o m.current_boundary_offset
              ++ parts_content src d (drop m.part_index m.parts))
            e
          ∙ ap (parts_content src d)
              (drop_all m.part_index m.parts (ground (arith, moves.good.counted)))
      | inr full ↦ absurd (omega arith)
    ];
  }

  loop_Ends :
      (fuel : ℕ) (m : Multipart S) (n : ℕ) (out : Bytes)
      → Moves src d m n out (m, out)
      → (n - length out) + (m.num_parts - m.part_index) < fuel
      → Ends m n out (multipart_loop pull alloc fuel m n out)
  unfolding multipart_loop
  loop_Ends zero m n out moves h = absurd (omega arith)
  loop_Ends (suc fuel) m n out moves h =
      elim (Bool-cases (ltb (length out) n && ltb m.part_index m.num_parts)) [
        | inr f ↦ subst (Ends m n out) (sym (rw (f, multipart_loop))) (loop_over m n out moves f)
        | inl t ↦
            let lt : m.part_index < m.num_parts = ground arith in
            let room : length out < n = ground arith in
            let (p, e) = elem_at m.part_index m.parts (omega (arith, moves.good.counted)) in
            let (st, r) =
              round_lem src d alloc always m n out moves.good lt room (idle_of m n out moves room) p
                e in
            let rec =
              loop_Ends fuel st.0 n st.1 (Moves-stay r.moves)
                (omega (arith, r.nearer, r.moves.count)) in
            record {
              reply = rec.reply;
              returned = rw (t, multipart_loop) (rw (r.equation, ◌>>=◌) rec.returned);
              success = rec.success;
              moves = Moves-trans r.moves rec.moves;
              short = rec.short;
            }
      ]

  -- When the allocations succeed, a multipart callback over parts that meet the contract of a write
  -- callback meets it too. From a well-formed state with the boundary `d`, a call with a non-empty
  -- buffer ends and succeeds; it hands out a prefix of what is left of the body (the rest of the
  -- pending boundary, then each part's data and the RFC 2046 boundary behind it) and keeps the rest
  -- for the next call; it never writes beyond the buffer, and hands out nothing only at the end.
  pub write_multipart-Delivers :
      (m : Multipart S) (n : ℕ)
      → IsMultipart src d m
      → 0 < n
      → Delivers (body src d) (IsMultipart src d) m n (write_multipart pull alloc m n)
  unfolding write_multipart
  write_multipart-Delivers m n v pos =
      let (st, eq, moves, same) = write_pending_lem src d m n [] v (omega arith) in
      let rec =
        loop_Ends (n + m.num_parts + 1) st.0 n st.1 (Moves-stay moves)
          (omega (arith, moves.count)) in
      let all = Moves-trans moves rec.moves in
      record {
        reply = rec.reply;
        returned = rw (eq, ◌>>=◌) rec.returned;
        success = rec.success;
        good = all.good;
        prefix = all.prefix;
        fits = all.fits;
        progress = λ e.
            all.prefix
            ∙ ap₂ (λ t u. t ++ u) e
                (rec.short (let z : length rec.reply.copied ≡ 0 = ap length e in omega arith));
      }

  abbrev pub multipart_source : Source (write_multipart pull alloc)
  multipart_source = record {
    content = body src d;
    Good = IsMultipart src d;
    delivers = write_multipart-Delivers;
  }

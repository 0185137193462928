-- ===== src/Write/Multipart/Laws/Round.antt =====
-- A round of the loop of write_multipart.c.
use globus_dsi_rest.Base.{
  ℕ, zero, suc, ◌+◌, ◌-◌, ◌≤◌, ◌<◌, ◌≡◌, refl, sym, ◌∙◌, ap, inl, inr, Bool, true, false, none,
  some, List, [], ◌∷◌, ◌++◌, append_assoc, Bytes, length, length-append, drop, get_elem?, set, All,
  arith, Bool-cases, ◌==◌, ==→eq, ==→ne, if◌then◌else◌, leb,
}
use globus_dsi_rest.Base.Runs.{done, ◌>>=◌, drop_elem, drop-set, length-set, get_elem?-set_self}
use globus_dsi_rest.Write.Source.{Reply, Pull, Source, Delivers}
use globus_dsi_rest.Write.Multipart.{Part, Multipart, State, end_part, put_arg, round}
use globus_dsi_rest.Write.Multipart.Content.{
  closing, parts_content, pending_rest, body, IsPart, IsMultipart, Moves,
}
use globus_dsi_rest.Write.Multipart.Laws.EndPart.{All-elem, end_part_lem}

All-set :
    {S : Type 0} (P : S → Type 0) (i : ℕ) (xs : List S) (x : S)
    → All P xs
    → P x
    → All P (set xs i x)
All-set P i [] x h p = tt
All-set P zero (y ∷ xs) x h p = (p, h.1)
All-set P (suc i) (y ∷ xs) x h p = (h.0, All-set P i xs x h.1 p)

nil_of_length : (xs : Bytes) → length xs ≡ 0 → xs ≡ []
nil_of_length [] h = refl
nil_of_length (x ∷ xs) h = absurd (omega arith)

leb_lem : (a b : ℕ) → a ≤ b → leb a b ≡ true
leb_lem a b h = ground arith

module _ {S : Type 0} {pull : Pull S} (src : Source pull) (d : Bytes) (alloc : ℕ → Bool)
    (always : (n : ℕ) → alloc n ≡ true) where
  -- One round of the loop on the part `p`.
  module _ (m : Multipart S) (n : ℕ) (out : Bytes) (v : IsMultipart src d m)
      (lt : m.part_index < m.num_parts) (room : length out < n) (idle : m.current_boundary ≡ none)
      (p : Part S) (e : get_elem? m.parts m.part_index ≡ some p) where
    part_good : src.Good p.arg
    part_good = (All-elem (IsPart src d) m.part_index m.parts v.each e).0

    part-Delivers :
        Delivers src.content src.Good p.arg (n - length out) (pull p.arg (n - length out))
    part-Delivers = src.delivers p.arg (n - length out) part_good (omega arith)

    abbrev reply : Reply S
    reply = part-Delivers.reply

    abbrev advanced : Multipart S
    advanced = put_arg m p reply.state

    advanced-IsMultipart : IsMultipart src d advanced
    advanced-IsMultipart = record {
      delimiter = v.delimiter;
      counted = v.counted ∙ sym (length-set m.parts m.part_index _);
      word = v.word;
      within = v.within;
      each =
          All-set (IsPart src d) m.part_index m.parts _ v.each
            (part-Delivers.good, (All-elem (IsPart src d) m.part_index m.parts v.each e).1);
      last = v.last;
      pending = v.pending;
    }

    abbrev behind : Bytes
    behind =
        let rest = drop (suc m.part_index) m.parts in closing d rest ++ parts_content src d rest

    advanced-body : body src d advanced ≡ src.content reply.state ++ behind
    advanced-body =
        ap
          (λ o.
            pending_rest o m.current_boundary_offset
            ++ parts_content src d (drop m.part_index advanced.parts))
          idle
        ∙ ap (parts_content src d) (
            drop-set m.part_index m.parts (record p { arg = reply.state })
              (omega (arith, v.counted))
            ∙ refl)

    advanced-prefix : out ++ body src d m ≡ (out ++ reply.copied) ++ body src d advanced
    advanced-prefix =
        ap (λ t. out ++ t)
          (ap
              (λ o.
                pending_rest o m.current_boundary_offset
                ++ parts_content src d (drop m.part_index m.parts))
              idle
            ∙ ap (parts_content src d) (drop_elem m.part_index m.parts e)
            ∙ ap (λ t. t ++ behind) part-Delivers.prefix
            ∙ append_assoc reply.copied (src.content reply.state) behind)
        ∙ sym (append_assoc out reply.copied (src.content reply.state ++ behind))
        ∙ ap (λ t. (out ++ reply.copied) ++ t) (sym advanced-body)

    -- The round is that of the source for a callback that succeeds.
    round_eq : round pull alloc m n out ≡ (
        if length reply.copied == 0
        then end_part alloc advanced n (out ++ reply.copied)
        else done (none, (advanced, out ++ reply.copied)))
    unfolding round
    round_eq =
        rw (e, part-Delivers.returned)
          (rw (part-Delivers.success, ◌>>=◌)
            (rw (leb_lem (length out + length reply.copied) n (omega (arith, part-Delivers.fits)))))

    -- It moves on, and brings the end of the loop nearer.
    pub record Rounds (st : State S) : Type 0 where
      pub equation : round pull alloc m n out ≡ done (none, st)
      pub moves : Moves src d m n out st
      pub nearer :
          (n - length st.1) + (m.num_parts - st.0.part_index)
          < (n - length out) + (m.num_parts - m.part_index)

    copied_some : (length reply.copied == 0) ≡ false → Rounds (advanced, out ++ reply.copied)
    copied_some f = record {
      equation = round_eq ∙ rw f refl;
      moves = record {
        good = advanced-IsMultipart;
        prefix = advanced-prefix;
        fits = omega (arith, length-append out reply.copied, part-Delivers.fits);
        grows = omega (arith, length-append out reply.copied);
        count = refl;
        flushed = inl idle;
      };
      nearer = omega (
        arith,
        length-append out reply.copied,
        part-Delivers.fits,
        ==→ne (length reply.copied) 0 f,
      );
    }

    copied_none : (length reply.copied == 0) ≡ true → (st : State S) × Rounds st
    copied_none f =
        let nothing = nil_of_length reply.copied (==→eq (length reply.copied) 0 f) in
        let over : src.content reply.state ≡ [] =
          ap (λ t. t ++ src.content reply.state) (sym nothing)
          ∙ sym part-Delivers.prefix
          ∙ part-Delivers.progress nothing in
        let (st, eq, moves, next) =
          end_part_lem src d alloc always advanced advanced-IsMultipart lt idle
            (record p { arg = reply.state }) n (out ++ reply.copied)
            (get_elem?-set_self m.parts m.part_index _ (omega (arith, v.counted))) over
            (omega (arith, length-append out reply.copied, part-Delivers.fits)) in
        (
          st,
          record {
            equation = round_eq ∙ rw f eq;
            moves = record {
              good = moves.good;
              prefix = advanced-prefix ∙ moves.prefix;
              fits = moves.fits;
              grows = omega (arith, moves.grows, length-append out reply.copied);
              count = moves.count;
              flushed = moves.flushed;
            };
            nearer = omega (arith, next, moves.grows, moves.fits, length-append out reply.copied);
          },
        )

    pub round_lem : (st : State S) × Rounds st
    round_lem = elim (Bool-cases (length reply.copied == 0)) [
      | inl f ↦ copied_none f
      | inr f ↦ ((advanced, out ++ reply.copied), copied_some f)
    ]

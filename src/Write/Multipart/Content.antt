-- ===== src/Write/Multipart/Content.antt =====
-- The body that a multipart state still has to produce, and its well-formedness.
use globus_dsi_rest.Base.{
  ℕ, ◌+◌, ◌-◌, ◌≤◌, ◌<◌, ◌≡◌, refl, sym, ◌∙◌, ap, ◌≢◌, ◌⊎◌, inl, inr, true, false, Option, none,
  some, List, [], ◌∷◌, ◌++◌, append_assoc, Bytes, length, length-append, take, drop,
  take-append-drop, drop-drop, drop_all, min, size_mod, sub_size, All, arith, Option-cases,
  Bool-cases, ◌==◌, ==→eq, ==→ne, if◌then◌else◌,
}
use mathlib.Core.Path.{subst}
use globus_dsi_rest.Base.Runs.{Run, done, read_mem_lem, length-read}
use globus_dsi_rest.Write.Source.{Pull, Source}
use globus_dsi_rest.Write.Boundary.Laws.{boundary_text}
use globus_dsi_rest.Write.Multipart.{Part, Multipart, State, write_boundary, write_pending}

-- The text between a part and those behind it.
abbrev pub closing : {S : Type 0} → Bytes → List (Part S) → Bytes
closing d [] = boundary_text d true none
closing d (q ∷ qs) = boundary_text d false (some q.headers)

-- The rest of the boundary that is being sent.
abbrev pub pending_rest : Option Bytes → ℕ → Bytes
pending_rest none offset = []
pending_rest (some b) offset = drop offset b

-- A pending boundary is one that is not sent to its end.
abbrev pub IsPending : Option Bytes → ℕ → ℕ → Type 0
IsPending none offset len = (offset ≡ 0) × (len ≡ 0)
IsPending (some b) offset len = (len ≡ length b) × (offset < len) × (len < size_mod)

module _ {S : Type 0} {pull : Pull S} (src : Source pull) (d : Bytes) where
  -- Every part's data, and the boundary behind it.
  abbrev pub parts_content : List (Part S) → Bytes
  parts_content [] = []
  parts_content (p ∷ ps) = src.content p.arg ++ (closing d ps ++ parts_content ps)

  abbrev pub body : Multipart S → Bytes
  body m =
      pending_rest m.current_boundary m.current_boundary_offset
      ++ parts_content (drop m.part_index m.parts)

  abbrev pub IsPart : Part S → Type 0
  IsPart p = src.Good p.arg × (length (boundary_text d false (some p.headers)) + 1 < size_mod)

  pub record IsMultipart (m : Multipart S) : Type 0 where
    pub delimiter : m.boundary ≡ some d
    pub counted : m.num_parts ≡ length m.parts
    pub word : m.num_parts < size_mod
    pub within : m.part_index ≤ m.num_parts
    pub each : All IsPart m.parts
    pub last : length (boundary_text d true none) + 1 < size_mod
    pub pending : IsPending m.current_boundary m.current_boundary_offset m.current_boundary_length

  -- From `m` with `out` copied to `st`: nothing is lost, doubled or written beyond the buffer, and a
  -- boundary stays pending only when the buffer is full.
  pub record Moves (m : Multipart S) (n : ℕ) (out : Bytes) (st : State S) : Type 0 where
    pub good : IsMultipart st.0
    pub prefix : out ++ body m ≡ st.1 ++ body st.0
    pub fits : length st.1 ≤ n
    pub grows : length out ≤ length st.1
    pub count : st.0.num_parts ≡ m.num_parts
    pub flushed : (st.0.current_boundary ≡ none) ⊎ (n ≤ length st.1)

  module _ (b : Bytes) (m : Multipart S) (n : ℕ) (out : Bytes) (v : IsMultipart m)
      (e : m.current_boundary ≡ some b) (h : length out ≤ n) where
    at_boundary : IsPending (some b) m.current_boundary_offset m.current_boundary_length
    at_boundary =
        subst (λ o. IsPending o m.current_boundary_offset m.current_boundary_length) e v.pending

    abbrev to_copy : ℕ
    to_copy = min (n - length out) (m.current_boundary_length - m.current_boundary_offset)

    abbrev sent : Bytes
    sent = take to_copy (drop m.current_boundary_offset b)

    abbrev behind : Bytes
    behind = parts_content (drop m.part_index m.parts)

    length-sent : length sent ≡ to_copy
    length-sent = length-read b m.current_boundary_offset to_copy (omega (arith, at_boundary))

    body_lem : body m ≡ drop m.current_boundary_offset b ++ behind
    body_lem = ap (λ o. pending_rest o m.current_boundary_offset ++ behind) e

    split_lem :
        out ++ body m ≡ (out ++ sent) ++ (drop (m.current_boundary_offset + to_copy) b ++ behind)
    split_lem =
        ap (λ t. out ++ t)
          (body_lem
            ∙ ap (λ t. t ++ behind)
                (sym (take-append-drop to_copy (drop m.current_boundary_offset b))
                  ∙ ap (λ t. sent ++ t) (drop-drop m.current_boundary_offset to_copy b))
            ∙ append_assoc sent (drop (m.current_boundary_offset + to_copy) b) behind)
        ∙ sym (append_assoc out sent (drop (m.current_boundary_offset + to_copy) b ++ behind))

    abbrev whole : Multipart S
    whole = record m {
      current_boundary = none;
      current_boundary_offset = 0;
      current_boundary_length = 0;
    }

    abbrev partial : Multipart S
    partial = record m { current_boundary_offset = m.current_boundary_offset + to_copy }

    write_boundary_eq :
        write_boundary b m n out
        ≡ done (
          if m.current_boundary_offset + to_copy == m.current_boundary_length
              then whole
              else partial,
          out ++ sent,
        )
    unfolding write_boundary
    write_boundary_eq =
        let s : sub_size m.current_boundary_length m.current_boundary_offset
            ≡ m.current_boundary_length - m.current_boundary_offset =
          omega (arith, at_boundary) in
        rw s (rw (read_mem_lem b m.current_boundary_offset to_copy (omega (arith, at_boundary))))

    whole-Moves :
        m.current_boundary_offset + to_copy ≡ m.current_boundary_length
        → Moves m n out (whole, out ++ sent)
    whole-Moves f = record {
      good = record {
        delimiter = v.delimiter;
        counted = v.counted;
        word = v.word;
        within = v.within;
        each = v.each;
        last = v.last;
        pending = (refl, refl);
      };
      prefix =
          split_lem
          ∙ ap (λ t. (out ++ sent) ++ (t ++ behind)) (drop_all _ b (omega (arith, at_boundary)));
      fits = omega (arith, length-append out sent, length-sent);
      grows = omega (arith, length-append out sent);
      count = refl;
      flushed = inl refl;
    }

    partial-Moves :
        m.current_boundary_offset + to_copy ≢ m.current_boundary_length
        → Moves m n out (partial, out ++ sent)
    partial-Moves f = record {
      good = record {
        delimiter = v.delimiter;
        counted = v.counted;
        word = v.word;
        within = v.within;
        each = v.each;
        last = v.last;
        pending =
            subst (λ o. IsPending o (m.current_boundary_offset + to_copy) m.current_boundary_length)
              (sym e) (omega (arith, at_boundary));
      };
      prefix =
          split_lem
          ∙ ap
              (λ o.
                (out ++ sent) ++ (pending_rest o (m.current_boundary_offset + to_copy) ++ behind))
              (sym e);
      fits = omega (arith, length-append out sent, length-sent);
      grows = omega (arith, length-append out sent);
      count = refl;
      flushed = inr (omega (arith, length-append out sent, length-sent, at_boundary));
    }

    write_boundary_lem :
        (st : State S) × (write_boundary b m n out ≡ done st)
        × Moves m n out st
        × (st.0.part_index ≡ m.part_index)
    write_boundary_lem =
        elim (Bool-cases (m.current_boundary_offset + to_copy == m.current_boundary_length)) [
          | inl f ↦
              ((whole, out ++ sent), write_boundary_eq ∙ rw f refl, whole-Moves (==→eq _ _ f), refl)
          | inr f ↦ (
            (partial, out ++ sent),
            write_boundary_eq ∙ rw f refl,
            partial-Moves (==→ne _ _ f),
            refl,
          )
        ]

  -- The pending boundary is sent as far as the buffer takes it.
  pub write_pending_lem :
      (m : Multipart S) (n : ℕ) (out : Bytes)
      → IsMultipart m
      → length out ≤ n
      → (st : State S) × (write_pending m n out ≡ done st)
        × Moves m n out st
        × (st.0.part_index ≡ m.part_index)
  unfolding write_pending
  write_pending_lem m n out v h = elim (Option-cases m.current_boundary) [
    | inl e ↦ (
      (m, out),
      ap pend e,
      record {
        good = v;
        prefix = refl;
        fits = h;
        grows = omega arith;
        count = refl;
        flushed = inl e;
      },
      refl,
    )
    | inr (b, e) ↦
        let (st, eq, moves, same) = write_boundary_lem b m n out v e h in
        (st, ap pend e ∙ eq, moves, same)
  ]
    where
      pend : Option Bytes → Run (State S)
      pend o = elim o [ none ↦ done (m, out) | some b ↦ write_boundary b m n out ]

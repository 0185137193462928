-- ===== src/Write/Multipart/Laws/EndPart.antt =====
-- The end of a part: the boundary behind it is prepared and sent as far as the buffer takes it.
use mathlib.Core.Path.{subst}
use mathlib.Core.Option.{some-injective}
use native.Mathlib.Numerals.{add-one}
use globus_dsi_rest.Base.{
  ℕ, zero, suc, ◌+◌, ◌≤◌, ◌<◌, ◌≡◌, refl, sym, ◌∙◌, ap, ap₂, inl, inr, Bool, true, false, Option,
  none, some, List, [], ◌∷◌, ◌++◌, Bytes, length, drop, drop_all, get_elem?, size_mod, sub_size,
  All, arith, Bool-cases, ◌==◌, Error,
}
use globus_dsi_rest.Base.Runs.{Run, done, ◌>>=◌, drop_elem, elem_at}
use globus_dsi_rest.KeyArray.{KeyArray}
use globus_dsi_rest.Write.Source.{Pull, Source}
use globus_dsi_rest.Write.Boundary.{boundary_prepare}
use globus_dsi_rest.Write.Boundary.Laws.{boundary_text, boundary_prepare_lem}
use globus_dsi_rest.Write.Multipart.{
  Part, Multipart, State, write_pending, next_headers, prepared, end_part,
}
use globus_dsi_rest.Write.Multipart.Content.{
  closing, parts_content, body, pending_rest, IsPart, IsPending, IsMultipart, Moves,
  write_pending_lem,
}

module _ {S : Type 0} (P : S → Type 0) where
  pub All-elem : (i : ℕ) (xs : List S) {x : S} → All P xs → get_elem? xs i ≡ some x → P x
  All-elem i [] h e = cc
  All-elem zero (x ∷ xs) h e = subst P (some-injective x _ e) h.0
  All-elem (suc i) (x ∷ xs) h e = All-elem i xs h.1 e

module _ {S : Type 0} {pull : Pull S} (src : Source pull) (d : Bytes) (m : Multipart S)
    (v : IsMultipart src d m) (lt : m.part_index < m.num_parts) where
  abbrev final : Bool
  final = m.part_index == sub_size m.num_parts 1

  abbrev behind : List (Part S)
  behind = drop (suc m.part_index) m.parts

  -- The headers that are passed give the text that belongs behind the part.
  record Closes (hs : Option KeyArray) : Type 0 where
    headers : next_headers m ≡ done hs
    text : boundary_text d final hs ≡ closing d behind
    word : length (closing d behind) + 1 < size_mod

  closes : (hs : Option KeyArray) × Closes hs
  unfolding next_headers
  closes = elim (Bool-cases final) [
    | inl f ↦ (none, last_closes f)
    | inr f ↦
        let (q, e) = elem_at (suc m.part_index) m.parts (ground (arith, v.counted, v.word)) in
        (some q.headers, inner_closes f q e)
  ]
    where
      last_closes : final ≡ true → Closes none
      last_closes f =
          let z : behind ≡ [] =
            drop_all (suc m.part_index) m.parts (ground (arith, v.counted, v.word)) in
          record { headers = rw (f, next_headers); text = rw (f, z) refl; word = rw z v.last }

      inner_closes :
          final ≡ false
          → (q : Part S) → get_elem? m.parts (suc m.part_index) ≡ some q
          → Closes (some q.headers)
      inner_closes f q e =
          let z : behind ≡ q ∷ drop (suc (suc m.part_index)) m.parts =
            drop_elem (suc m.part_index) m.parts e in
          record {
            headers = rw (f, next_headers, add-one, e);
            text = rw (f, z) refl;
            word = rw z (All-elem (IsPart src d) (suc m.part_index) m.parts v.each e).1;
          }

module _ {S : Type 0} {pull : Pull S} (src : Source pull) (d : Bytes) (alloc : ℕ → Bool)
    (always : (n : ℕ) → alloc n ≡ true) (m : Multipart S) (v : IsMultipart src d m)
    (lt : m.part_index < m.num_parts) (idle : m.current_boundary ≡ none) where
  abbrev text : Bytes
  text = closing d (behind src d m v lt)

  -- The state with the boundary prepared.
  abbrev opened : Multipart S
  opened = record m {
    current_boundary = some text;
    current_boundary_length = length text;
    part_index = m.part_index + 1;
  }

  no_offset : m.current_boundary_offset ≡ 0
  no_offset =
      (subst (λ o. IsPending o m.current_boundary_offset m.current_boundary_length) idle
        v.pending).0

  closing_pos : (ps : List (Part S)) → 0 < length (closing d ps)
  closing_pos [] = omega arith
  closing_pos (q ∷ qs) = omega arith

  prepare_lem :
      (hs : Option KeyArray)
      → Closes src d m v lt hs
      → boundary_prepare alloc d (m.part_index == sub_size m.num_parts 1) hs
        ≡ done (record { result = none; boundary = some text; boundary_length = length text })
  prepare_lem hs c =
      let t = boundary_text d (final src d m v lt) hs in
      boundary_prepare_lem alloc d (final src d m v lt) hs (rw c.text c.word)
        (always (length t + 1))
      ∙ ap (λ u. done (record { result = none; boundary = some u; boundary_length = length u }))
          c.text

  opened-IsMultipart : IsMultipart src d opened
  opened-IsMultipart = record {
    delimiter = v.delimiter;
    counted = v.counted;
    word = v.word;
    within = omega (arith, lt);
    each = v.each;
    last = v.last;
    pending = (
      refl,
      rw no_offset (closing_pos (behind src d m v lt)),
      omega (arith, (closes src d m v lt).1.word),
    );
  }

  opened-body :
      (p : Part S)
      → get_elem? m.parts m.part_index ≡ some p
      → src.content p.arg ≡ []
      → body src d m ≡ body src d opened
  opened-body p e over =
      let b = behind src d m v lt in
      ap
        (λ o.
          pending_rest o m.current_boundary_offset
          ++ parts_content src d (drop m.part_index m.parts))
        idle
      ∙ ap (parts_content src d) (drop_elem m.part_index m.parts e)
      ∙ ap (λ t. t ++ (closing d b ++ parts_content src d b)) over
      ∙ ap₂ (λ k i. drop k text ++ parts_content src d (drop i m.parts)) (sym no_offset)
          (sym (add-one m.part_index))

  pub end_part_lem :
      (p : Part S) (n : ℕ) (out : Bytes)
      → get_elem? m.parts m.part_index ≡ some p
      → src.content p.arg ≡ []
      → length out ≤ n
      → (st : State S) × (end_part alloc m n out ≡ done (none, st))
        × Moves src d m n out st
        × (st.0.part_index ≡ m.part_index + 1)
  unfolding end_part
  end_part_lem p n out e over h =
      let (hs, c) = closes src d m v lt in
      let (st, eq, moves, same) = write_pending_lem src d opened n out opened-IsMultipart h in
      (
        st,
        ap chosen v.delimiter ∙ rw (c.headers, prepare_lem hs c) (rw eq refl),
        record {
          good = moves.good;
          prefix = ap (λ t. out ++ t) (opened-body p e over) ∙ moves.prefix;
          fits = moves.fits;
          grows = moves.grows;
          count = moves.count;
          flushed = moves.flushed;
        },
        same,
      )
    where
      chosen : Option Bytes → Run (Option Error × State S)
      chosen o = elim o [
        | none ↦ (write_pending m n out >>= λ st. done (none, st))
        | some d ↦
            (next_headers m >>= λ headers.
            boundary_prepare alloc d (m.part_index == sub_size m.num_parts 1) headers >>= λ p.
            elim p.result [
              | some e ↦ done (some e, (prepared m p, out))
              | none ↦
                  (write_pending (record (prepared m p) { part_index = m.part_index + 1 }) n out
                    >>= λ st. done (none, st))
            ])
      ]

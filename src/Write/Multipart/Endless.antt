-- ===== src/Write/Multipart/Endless.antt =====
-- Where the loop of write_multipart.c does not end.
use globus_dsi_rest.Base.{
  ℕ, zero, suc, ◌+◌, ◌-◌, ◌≤◌, ◌<◌, ◌≡◌, refl, sym, ◌∙◌, ap, Bool, true, none, some, List, [], ◌∷◌,
  append-nil, Bytes, length, get_elem?, set, arith, lt→ltb, leb, drop, take,
}
use mathlib.Core.Option.{some-injective}
use globus_dsi_rest.Base.Runs.{done, out_of_fuel, ◌>>=◌}
use globus_dsi_rest.Write.Block.{Block, amount, write_block}
use globus_dsi_rest.Write.Block.Laws.{IsBlock, after, write_block_lem, amount_lem}
use globus_dsi_rest.Write.Multipart.{
  Part, Multipart, round, write_pending, end_part, multipart_loop,
}

set_same : {S : Type 0} (i : ℕ) (xs : List S) {x : S} → get_elem? xs i ≡ some x → set xs i x ≡ xs
set_same i [] h = refl
set_same zero (y ∷ xs) h = ap (λ t. t ∷ xs) (sym (some-injective y _ h))
set_same (suc i) (y ∷ xs) h = ap (λ t. y ∷ t) (set_same i xs h)

-- A call of a block that is sent to its end changes nothing.
finished_lem :
    (b : Block) (n : ℕ)
    → IsBlock b
    → b.offset ≡ b.block_len
    → write_block b n ≡ done (record { result = none; copied = []; state = b })
finished_lem b n v e =
    let z : amount b n ≡ 0 = omega (arith, amount_lem b n v) in
    write_block_lem b n v
    ∙ ap
        (λ a. done (record {
          result = none;
          copied = take a (drop b.offset b.block_data);
          state = after b a;
        }))
        z
    ∙ ap (λ o. done (record { result = none; copied = []; state = record b { offset = o } }))
        (omega arith)

-- Without a boundary string the end of a part is no step at all.
end_part_plain :
    (alloc : ℕ → Bool) (m : Multipart Block) (n : ℕ) (out : Bytes)
    → m.boundary ≡ none
    → m.current_boundary ≡ none
    → end_part alloc m n out ≡ done (none, (m, out))
unfolding end_part write_pending
end_part_plain alloc m n out plain idle = simp (plain, idle, end_part, write_pending)

leb_lem : (a b : ℕ) → a ≤ b → leb a b ≡ true
leb_lem a b h = ground arith

module _ (alloc : ℕ → Bool) (m : Multipart Block) (n : ℕ) (out : Bytes) (p : Part Block)
    (plain : m.boundary ≡ none) (idle : m.current_boundary ≡ none)
    (e : get_elem? m.parts m.part_index ≡ some p) (v : IsBlock p.arg)
    (sent : p.arg.offset ≡ p.arg.block_len) (room : length out < n) where
  round_same : round write_block alloc m n out ≡ done (none, (m, out))
  unfolding round
  round_same =
      rw (e, finished_lem p.arg (n - length out) v sent)
        (rw (leb_lem (length out + 0) n (omega arith), set_same m.part_index m.parts e)
          (ap (λ o. end_part alloc m n o) (append-nil out)
            ∙ end_part_plain alloc m n out plain idle))

  -- When no boundary is used and none is pending, the current part is a block that is sent to its
  -- end, and the buffer has room, the loop goes on for ever: no fuel is enough.
  pub multipart_endless :
      (fuel : ℕ)
      → m.part_index < m.num_parts
      → multipart_loop write_block alloc fuel m n out ≡ out_of_fuel
  unfolding multipart_loop
  multipart_endless zero lt = refl
  multipart_endless (suc fuel) lt =
      rw (multipart_loop, lt→ltb (length out) n room, lt→ltb m.part_index m.num_parts lt)
        (rw (round_same, ◌>>=◌) (multipart_endless fuel lt))

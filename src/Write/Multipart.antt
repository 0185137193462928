-- ===== src/Write/Multipart.antt =====
-- `globus_l_dsi_rest_write_multipart` of write_multipart.c. The parts' callbacks are a parameter:
-- `pull` calls the callback of a part, and the parts' states are of one type.
pub mod Content
pub mod Laws
pub mod Endless
use globus_dsi_rest.Base.{
  ℕ, zero, suc, ◌+◌, ◌-◌, Bool, true, false, not, ◌&&◌, Option, none, some, List, [], ◌∷◌, ◌++◌,
  ltb, leb, ◌==◌, if◌then◌else◌, Bytes, length, get_elem?, set, min, Error, sub_size,
}
use globus_dsi_rest.Base.Runs.{
  Run, done, stuck, out_of_fuel, ◌>>=◌, ◌>>◌, assert, some_of, read_mem,
}
use globus_dsi_rest.KeyArray.{KeyArray}
use globus_dsi_rest.Write.Source.{Reply, Pull}
use globus_dsi_rest.Write.Boundary.{Prepared, boundary_prepare}

-- `globus_i_dsi_rest_write_part_t`
pub record Part (S : Type 0) : Type 0 where
  pub headers : KeyArray
  pub arg : S

-- `globus_i_dsi_rest_write_multipart_arg_t`
pub record Multipart (S : Type 0) : Type 0 where
  pub boundary : Option Bytes
  pub num_parts : ℕ
  pub part_index : ℕ
  pub current_boundary : Option Bytes
  pub current_boundary_offset : ℕ
  pub current_boundary_length : ℕ
  pub parts : List (Part S)

-- The state beside the bytes that have been copied.
abbrev pub State : Type 0 → Type 0
State S = Multipart S × Bytes

module _ {S : Type 0} where
  -- `globus_l_dsi_rest_write_boundary`, and the test for the boundary's end that follows each call.
  unfoldable pub write_boundary : Bytes → Multipart S → ℕ → Bytes → Run (State S)
  write_boundary b m n out = do
    let left = sub_size m.current_boundary_length m.current_boundary_offset
    let to_copy = min (n - length out) left
    bytes ← read_mem b m.current_boundary_offset to_copy
    let offset = m.current_boundary_offset + to_copy
    done (
      if offset == m.current_boundary_length
          then record m {
            current_boundary = none;
            current_boundary_offset = 0;
            current_boundary_length = 0;
          }
          else record m { current_boundary_offset = offset },
      out ++ bytes,
    )

  -- The boundary that is pending, if one is.
  unfoldable pub write_pending : Multipart S → ℕ → Bytes → Run (State S)
  unfolding write_boundary
  write_pending m n out = elim m.current_boundary [
    | none ↦ done (m, out)
    | some b ↦ write_boundary b m n out
  ]

  -- The headers of the next part, or a null pointer behind the last one.
  unfoldable pub next_headers : Multipart S → Run (Option KeyArray)
  next_headers m =
      if m.part_index == sub_size m.num_parts 1
      then done none
      else elim (get_elem? m.parts (m.part_index + 1)) [
        | none ↦ stuck
        | some p ↦ done (some p.headers)
      ]

  -- The state that a call of `prepare_boundary` leaves behind.
  abbrev pub prepared : Multipart S → Prepared → Multipart S
  prepared m p = record m {
    current_boundary = p.boundary;
    current_boundary_length = p.boundary_length;
  }

  -- What follows a part's callback that copied nothing: its result, and the state.
  unfoldable pub end_part : (ℕ → Bool) → Multipart S → ℕ → Bytes → Run (Option Error × State S)
  unfolding next_headers write_pending
  end_part alloc m n out = elim m.boundary [
    | none ↦ do st ← write_pending m n out; done (none, st)
    | some d ↦ do
      headers ← next_headers m
      p ← boundary_prepare alloc d (m.part_index == sub_size m.num_parts 1) headers
      elim p.result [
        | some e ↦ done (some e, (prepared m p, out))
        | none ↦ do
          st ← write_pending (record (prepared m p) { part_index = m.part_index + 1 }) n out
          done (none, st)
      ]
  ]

-- The part's state after a call of its callback.
abbrev pub put_arg : {S : Type 0} → Multipart S → Part S → S → Multipart S
put_arg m p arg = record m { parts = set m.parts m.part_index (record p { arg = arg }) }

module _ {S : Type 0} (pull : Pull S) (alloc : ℕ → Bool) where
  -- One round of the loop: the error that breaks it off, and the state.
  unfoldable pub round : Multipart S → ℕ → Bytes → Run (Option Error × State S)
  unfolding end_part
  round m n out = do
    part ← some_of (get_elem? m.parts m.part_index)
    r ← pull part.arg (n - length out)
    let m' = put_arg m part r.state
    elim r.result [
      | some e ↦ done (some e, (m', out))
      | none ↦
          assert (leb (length out + length r.copied) n)
          >> (if length r.copied == 0
              then end_part alloc m' n (out ++ r.copied)
              else done (none, (m', out ++ r.copied)))
    ]

  unfoldable pub multipart_loop : ℕ → Multipart S → ℕ → Bytes → Run (Reply (Multipart S))
  multipart_loop zero m n out = out_of_fuel
  multipart_loop (suc fuel) m n out = elim (ltb (length out) n && ltb m.part_index m.num_parts) [
    | false ↦ done (record { result = none; copied = out; state = m })
    | true ↦ do
      r ← round m n out
      elim r.0 [
        | some e ↦ done (record { result = some e; copied = r.1.1; state = r.1.0 })
        | none ↦ multipart_loop fuel r.1.0 n r.1.1
      ]
  ]

  -- Each round copies a byte or ends a part.
  unfoldable pub write_multipart : Pull (Multipart S)
  unfolding multipart_loop write_pending
  write_multipart m n = do
    st ← write_pending m n []
    multipart_loop (n + m.num_parts + 1) st.0 n st.1

-- ===== src/Transfer/ReadMultipart.antt =====
-- `globus_l_dsi_rest_read_multipart` of read_multipart.c, which splits a response into its parts. The
-- parts' callbacks are a parameter.
pub mod Scan
pub mod Parts
pub mod Split
use mathlib.Core.Option
use globus_dsi_rest.Base.{
  ℕ, zero, suc, ◌+◌, ◌-◌, Bool, true, false, ◌&&◌, ◌||◌, Option, none, some, List, [], ◌∷◌, ◌++◌,
  ltb, leb, ◌==◌, if◌then◌else◌, Bytes, codes, length, get_elem?, get_or, set, take, drop, Error,
  add_size, sub_size, size_mod,
}
use globus_dsi_rest.Base.Runs.{Run, done, stuck, out_of_fuel, ◌>>=◌, ◌>>◌, assert, some_of}
use globus_dsi_rest.Headers.Parse.{HeaderArray, Parsed, header_parse}

-- `globus_i_dsi_rest_read_part_t`; `responds` tells whether there is a response callback.
pub record ReadingPart {ℓ} (S : Type ℓ) : Type ℓ where
  pub headers : HeaderArray
  pub responds : Bool
  pub arg : S

-- `globus_i_dsi_rest_read_multipart_arg_t`. `buffered` is what is in the boundary buffer up to its
-- offset, `header_text` the C string in the header buffer, or nothing where bytes in front of its NUL
-- have never been written.
pub record PartReader {ℓ} (S : Type ℓ) : Type ℓ where
  pub num_parts : ℕ
  pub part_index : ℕ
  pub parts : List (ReadingPart S)
  pub boundary : Bytes
  pub boundary_length : ℕ
  pub boundary_buffer_length : ℕ
  pub buffered : Bytes
  pub match_counter : ℕ
  pub need_header : Bool
  pub header_text : Option Bytes
  pub header_buffer_offset : ℕ

-- The callbacks of the parts; their results are not looked at.
pub record PartCalls {ℓ} (S : Type ℓ) : Type ℓ where
  pub read : S → Bytes → Run S
  pub respond : S → HeaderArray → Run S

-- `(size_t) -1`, before the first part.
abbrev pub in_preface : ℕ
in_preface = size_mod - 1

-- The delimiter that is looked for.
unfoldable pub sought {ℓ} : {S : Type ℓ} → PartReader S → Bytes
sought s =
    if s.need_header
    then codes "\r\n\r\n"
    else if s.part_index == in_preface
    then codes "--" ++ (s.boundary ++ codes "\r\n")
    else if s.part_index == sub_size s.num_parts 1
    then codes "\r\n--" ++ (s.boundary ++ codes "--\r\n")
    else codes "\r\n--" ++ (s.boundary ++ codes "\r\n")

module _ {ℓ} {S : Type ℓ} (calls : PartCalls S) where
  -- The callback of the current part.
  unfoldable pub deliver_to : PartReader S → Bytes → Run (PartReader S)
  deliver_to s bytes = do
    p ← some_of (get_elem? s.parts s.part_index)
    a ← calls.read p.arg bytes
    done (record s { parts = set s.parts s.part_index (record p { arg = a }) })

  -- Nothing is delivered before the first part.
  unfoldable pub deliver_part : PartReader S → Bytes → Run (PartReader S)
  unfolding deliver_to
  deliver_part s bytes = elim (s.part_index == in_preface) [
    | true ↦ done s
    | false ↦ deliver_to s bytes
  ]

  -- What was held back as a delimiter's start and is none.
  unfoldable pub flush_held : PartReader S → Run (PartReader S)
  unfolding deliver_part
  flush_held s = elim s.buffered [
    | [] ↦ done s
    | b ∷ bs ↦ do s' ← deliver_part s (b ∷ bs); done (record s' { buffered = [] })
  ]

  -- A byte against the delimiter's next one; when they differ, against its first one.
  unfoldable pub match_byte : Bytes → PartReader S → ℕ → Run (PartReader S)
  unfolding flush_held
  match_byte d s c = elim (c == get_or d s.match_counter 0) [
    | true ↦ done (record s { match_counter = s.match_counter + 1 })
    | false ↦ do
      s' ← flush_held (record s { match_counter = 0 })
      done (if c == get_or d 0 0 then record s' { match_counter = 1 } else s')
  ]

-- The next part begins with its headers.
unfoldable pub next_part {ℓ} : {S : Type ℓ} → PartReader S → PartReader S
next_part s =
    let i = add_size s.part_index 1 in
    record s {
      part_index = i;
      need_header = if ltb i s.num_parts then true else s.need_header;
      match_counter = 0;
      buffered = [];
    }

-- Where the scan stops.
pub record ScanEnd {ℓ} (S : Type ℓ) : Type ℓ where
  pub reader : PartReader S
  pub scanned : ℕ

module _ {ℓ} {S : Type ℓ} (calls : PartCalls S) where
  -- The loop over the buffer, up to the end of a delimiter.
  unfoldable pub scan : Bytes → PartReader S → ℕ → Bytes → Run (ScanEnd S)
  unfolding match_byte
  scan d s n [] = done (record { reader = s; scanned = n })
  scan d s n (c ∷ cs) = elim (ltb s.match_counter (length d)) [
    | false ↦ done (record { reader = s; scanned = n })
    | true ↦ do s' ← match_byte calls d s c; scan d s' (n + 1) cs
  ]

  -- A delimiter is complete: the part ends.
  unfoldable pub close_part : PartReader S → Bytes → ℕ → ℕ → Run (PartReader S)
  unfolding deliver_to
  close_part s buffer scanned boundary_length = elim (s.part_index == in_preface) [
    | true ↦ done s
    | false ↦ do
      s' ←
          if ltb boundary_length scanned
          then deliver_to calls s (take (scanned - boundary_length) buffer)
          else done s
      deliver_to calls s' []
  ]

  -- What is before the start of a delimiter is delivered, and the start is held back. A length that
  -- wraps around is out of bounds.
  unfoldable pub hold_back : PartReader S → Bytes → ℕ → Run (PartReader S)
  unfolding deliver_part
  hold_back s buffer scanned = do
    assert (leb s.match_counter scanned)
    s' ← deliver_part calls s (take (scanned - s.match_counter) buffer)
    assert (leb (length s'.buffered + s'.match_counter) s'.boundary_buffer_length)
    done (record s' {
      buffered = s'.buffered ++ take s'.match_counter (drop (scanned - s'.match_counter) buffer);
    })

  unfoldable pub pass_on : PartReader S → Bytes → Run (PartReader S)
  unfolding deliver_part
  pass_on s buffer = do s' ← deliver_part calls s buffer; done (record s' { buffered = [] })

  -- The branches outside of a part's header.
  unfoldable pub use_data : PartReader S → Bytes → ℕ → ℕ → Run (PartReader S)
  unfolding close_part next_part hold_back pass_on
  use_data s buffer scanned boundary_length = elim (s.match_counter == boundary_length) [
    | true ↦ do s' ← close_part s buffer scanned boundary_length; done (next_part s')
    | false ↦ elim (ltb 0 s.match_counter) [
      | true ↦ hold_back s buffer scanned
      | false ↦ pass_on s buffer
    ]
  ]

-- What `memcpy` to the start of the header buffer makes of the string there, which ended at `offset`.
-- The new NUL lies behind the old end by the number of bytes that are copied.
unfoldable pub header_copy : Option Bytes → ℕ → Bytes → Option Bytes
header_copy text offset copied =
    if offset == 0 || length copied == offset
    then some copied
    else if ltb offset (length copied)
    then none
    else Option.map (λ t. copied ++ drop (length copied) t) text

-- `strstr(…, "\r\n")` from an index on.
unfoldable pub find_crlf : ℕ → Bytes → Option ℕ
find_crlf i [] = none
find_crlf i (c ∷ []) = none
find_crlf i (c ∷ d ∷ s) =
    let rest = find_crlf (i + 1) (d ∷ s) in if c == 13 && d == 10 then some i else rest

-- The loop over the lines, with `text` from `start` on and `next` behind it: a line that starts with
-- white space continues the one before.
unfoldable pub parse_lines : (ℕ → Bool) → ℕ → HeaderArray → Option Error → Bytes → ℕ → Run Parsed
unfolding find_crlf header_parse
parse_lines alloc zero headers result text next = out_of_fuel
parse_lines alloc (suc fuel) headers result text next = elim (find_crlf next (drop next text)) [
  | none ↦ done (record { result = result; headers = headers })
  | some crlf ↦
      let c = get_or text (crlf + 2) 0 in
      elim (c == 32 || c == 9) [
        | true ↦ parse_lines alloc fuel headers result text (crlf + 2)
        | false ↦ do
          p ← header_parse alloc headers text crlf
          parse_lines alloc fuel p.headers p.result (drop (crlf + 2) text) 0
      ]
]

-- A result and the reader.
pub record ReadEnd {ℓ} (S : Type ℓ) : Type ℓ where
  pub result : Option Error
  pub reader : PartReader S

module _ {ℓ} {S : Type ℓ} (alloc : ℕ → Bool) (calls : PartCalls S) where
  -- The headers of the current part, and its response callback.
  unfoldable pub respond_part : PartReader S → Option Error → Option Bytes → Run (ReadEnd S)
  unfolding parse_lines
  respond_part s result header_text = do
    p ← some_of (get_elem? s.parts s.part_index)
    elim p.responds [
      | false ↦ done (record { result = result; reader = s })
      | true ↦ do
        text ← some_of header_text
        h ← parse_lines alloc (length text + 1) p.headers result text 0
        a ← calls.respond p.arg h.headers
        done (record {
          result = h.result;
          reader = record s {
            parts = set s.parts s.part_index (record p { headers = h.headers; arg = a });
          };
        })
    ]

  -- The bytes that were scanned go to the header buffer; its end starts the part's data.
  unfoldable pub use_header : PartReader S → Option Error → Bytes → ℕ → Run (ReadEnd S)
  unfolding header_copy respond_part
  use_header s result copied boundary_length = do
    let text = header_copy s.header_text s.header_buffer_offset copied
    let offset = add_size s.header_buffer_offset (length copied)
    assert (alloc (add_size offset 1))
    elim (s.match_counter == boundary_length) [
      | false ↦ done (record {
        result = result;
        reader = record s { header_text = text; header_buffer_offset = offset };
      })
      | true ↦ do
        e ← respond_part (record s { header_text = text }) result text
        done (record {
          result = e.result;
          reader = record e.reader {
            need_header = false;
            header_buffer_offset = 0;
            match_counter = 0;
          };
        })
    ]

  unfoldable pub use_scanned : ScanEnd S → Option Error → Bytes → ℕ → Run (ReadEnd S)
  unfolding use_header use_data
  use_scanned x result buffer boundary_length = elim x.reader.need_header [
    | true ↦ use_header x.reader result (take x.scanned buffer) boundary_length
    | false ↦ do
      s ← use_data calls x.reader buffer x.scanned boundary_length
      done (record { result = result; reader = s })
  ]

  -- The loop over the buffer; each round scans a byte at least.
  unfoldable pub read_loop : ℕ → PartReader S → Option Error → Bytes → Run (ReadEnd S)
  unfolding sought scan use_scanned
  read_loop zero s result buffer = out_of_fuel
  read_loop (suc fuel) s result buffer = elim (length buffer == 0) [
    | true ↦ done (record { result = result; reader = s })
    | false ↦ do
      assert (ltb (length (sought s)) (s.boundary_length + 9))
      x ← scan calls (sought s) s 0 buffer
      e ← use_scanned x result buffer (length (sought s))
      read_loop fuel e.reader e.result (drop x.scanned buffer)
  ]

  unfoldable pub read_multipart : PartReader S → Bytes → Run (ReadEnd S)
  unfolding read_loop
  read_multipart s buffer = read_loop (length buffer + 1) s none buffer

  -- Chunk after chunk, up to an error.
  unfoldable pub read_chunks : PartReader S → List Bytes → Run (ReadEnd S)
  unfolding read_multipart
  read_chunks s [] = done (record { result = none; reader = s })
  read_chunks s (c ∷ cs) = do
    e ← read_multipart s c
    elim e.result [ some x ↦ done e | none ↦ read_chunks e.reader cs ]

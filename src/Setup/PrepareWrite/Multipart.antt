-- ===== src/Setup/PrepareWrite/Multipart.antt =====
-- `globus_l_dsi_rest_prepare_write_multipart_callback` of request.c, and the recursion between it and
-- `globus_l_dsi_rest_prepare_write_callbacks`.
use globus_dsi_rest.Base.{
  ℕ, ◌+◌, Bool, false, ◌&&◌, Option, none, some, [], ◌++◌, if◌then◌else◌, Bytes, codes, Error, ltb,
}
use globus_dsi_rest.KeyArray.{KeyArray}
use globus_dsi_rest.Write.Boundary.{Prepared, boundary_prepare}
use globus_dsi_rest.Setup.Delimiter.{headers_search, given_boundary}
use globus_dsi_rest.Setup.Heap.{
  Pointer, null, block, M, pure, stop, lift, ◌>>=◌, ◌>>◌, is_null, malloc, must_malloc, free,
}
use globus_dsi_rest.Setup.WritePart.{
  Body, Parts, no_part, part, PartHeaders, WritePart, write_part, WriteArg, multipart_arg,
  WriteParts, no_parts, one_part, num_parts, PartReady, PartsReady,
}
use globus_dsi_rest.Setup.PrepareWrite.{
  Env, copy_headers, add_content_type, prepare_block, prepare_blocks, prepare_write_json_callback,
  prepare_write_form_callback, prepare_gridftp_op, free_headers, without_headers,
}

-- The result, the headers that are left, and `boundary` with what it leads to.
pub record Chosen : Type 0 where
  pub result : Option Error
  pub left : PartHeaders
  pub boundary : Pointer
  pub delimiter : Bytes

-- A Content-Type decides; one that is not multipart leaves the boundary out.
unfoldable pub copy_delimiter : (ℕ → Bool) → PartHeaders → Option Bytes → M Chosen
unfolding malloc
copy_delimiter grants hs none =
    pure (record { result = none; left = hs; boundary = null; delimiter = [] })
copy_delimiter grants hs (some d) = do
  p ← malloc grants
  elim p [
    | null ↦
        pure (record { result = some Error.memory; left = hs; boundary = null; delimiter = [] })
    | block n ↦ pure (record { result = none; left = hs; boundary = block n; delimiter = d })
  ]

-- The boundary that is made of a UUID.
abbrev pub own_boundary : Env → Bytes
own_boundary env = codes "globus_" ++ env.uuid

abbrev pub own_type : Env → Bytes
own_type env = codes "multipart/related; boundary=" ++ own_boundary env

-- Without a Content-Type the part gets one, with a boundary of its own.
unfoldable pub new_boundary : Env → PartHeaders → M Chosen
unfolding malloc add_content_type free
new_boundary env hs = do
  p ← malloc env.grants
  elim p [
    | null ↦
        pure (record { result = some Error.memory; left = hs; boundary = null; delimiter = [] })
    | block n ↦ do
      added ← add_content_type env.grants hs (own_type env)
      elim added.result [
        | some e ↦
            free (block n)
            >> pure (record { result = some e; left = added.left; boundary = null; delimiter = [] })
        | none ↦ pure (record {
          result = none;
          left = added.left;
          boundary = block n;
          delimiter = own_boundary env;
        })
      ]
  ]

unfoldable pub choose_boundary : Env → PartHeaders → M Chosen
unfolding headers_search given_boundary copy_delimiter new_boundary
choose_boundary env hs = do
  content_type ← lift (headers_search hs.headers)
  elim content_type [
    | none ↦ new_boundary env hs
    | some value ↦ copy_delimiter env.grants hs (given_boundary value)
  ]

-- `current_boundary`, with what it leads to and its length.
pub record Current : Type 0 where
  pub result : Option Error
  pub current_boundary : Pointer
  pub current_text : Bytes
  pub current_boundary_length : ℕ

abbrev pub no_current : Option Error → Current
no_current e = record {
  result = e;
  current_boundary = null;
  current_text = [];
  current_boundary_length = 0;
}

-- What the out parameters of the preparation of a boundary are set to.
abbrev pub current_of : Pointer → Prepared → Current
current_of p b = elim b.boundary [
  | none ↦ no_current b.result
  | some text ↦ record {
    result = b.result;
    current_boundary = p;
    current_text = text;
    current_boundary_length = b.boundary_length;
  }
]

-- The delimiter in front of the first part, which has to be there.
unfoldable pub first_boundary : (ℕ → Bool) → Bytes → WriteParts → M Current
unfolding boundary_prepare
first_boundary grants d no_parts h = stop h
first_boundary grants d (one_part (write_part hs arg) ps) h =
    (do
      b ← lift (boundary_prepare (λ _. grants h.next) d false (some hs.headers))
      pure (current_of (block h.next) b))
      (record h { next = h.next + 1 })

unfoldable pub start_parts : (ℕ → Bool) → Chosen → WriteParts → M Current
unfolding first_boundary
start_parts grants c ps = elim c.boundary [
  | null ↦ pure (no_current none)
  | block n ↦ first_boundary grants c.delimiter ps
]

-- The array of the parts; a null pointer is used if there is a part.
unfoldable pub alloc_parts : (ℕ → Bool) → ℕ → M Pointer
unfolding malloc
alloc_parts grants n = do p ← malloc grants; if is_null p && ltb 0 n then stop else pure p

-- A part of the array before it is prepared.
abbrev pub blank : WritePart
blank =
    write_part (record { headers = []; key_value = null; malloced = []; malloced_key_value = null })
      WriteArg.custom

unfoldable pub blanks : Parts → WriteParts
blanks no_part = no_parts
blanks (part hs src ps) = one_part blank (blanks ps)

-- The argument when the boundary and the parts are as given.
abbrev pub multipart_of :
    Pointer → Parts → Chosen → Pointer → Option Error → Current → WriteParts → PartReady
multipart_of arg ps c array e current ready = record {
  result = e;
  ready = write_part c.left (
      multipart_arg arg
        (record {
          num_parts = num_parts ps;
          parts = array;
          boundary = c.boundary;
          delimiter = c.delimiter;
          current_boundary = current.current_boundary;
          current_text = current.current_text;
          current_boundary_length = current.current_boundary_length;
        })
        ready);
}

-- What follows the preparation of the parts. An error frees the boundary.
unfoldable pub finish_multipart :
    (ℕ → Bool) → Pointer → Parts → Chosen → Pointer → PartsReady → M PartReady
unfolding start_parts free num_parts
finish_multipart grants arg ps c array r = do
  current ← elim r.result [
    | none ↦ start_parts grants c r.ready
    | some e ↦ pure (no_current (some e))
  ]
  elim current.result [
    | none ↦ pure (multipart_of arg ps c array none current r.ready)
    | some e ↦
        free c.boundary
        >> pure (multipart_of arg ps (record c { boundary = null }) array (some e) current r.ready)
  ]

-- What `globus_l_dsi_rest_prepare_write_callbacks` does before and after the callback's own
-- preparation.
unfoldable pub with_headers :
    (ℕ → Bool) → KeyArray → Body → (PartHeaders → M PartReady) → M PartReady
unfolding copy_headers free_headers
with_headers grants headers src prepare = do
  copied ← copy_headers grants headers
  elim copied [
    | none ↦ pure (without_headers headers src)
    | some hs ↦ do r ← prepare hs; free_headers r
  ]

unfoldable mutual
  unfolding with_headers prepare_block prepare_blocks prepare_write_json_callback
      prepare_write_form_callback prepare_gridftp_op must_malloc choose_boundary alloc_parts
      num_parts finish_multipart blanks

  -- The callbacks that are predefined.
  pub prepare_source : Env → PartHeaders → Body → M PartReady
  prepare_source env hs Body.no_callback =
      pure (record { result = none; ready = write_part hs WriteArg.custom })
  prepare_source env hs Body.custom =
      pure (record { result = none; ready = write_part hs WriteArg.custom })
  prepare_source env hs (Body.write_block bytes) = prepare_block env.grants hs bytes
  prepare_source env hs (Body.write_blocks blocks) = prepare_blocks env.grants hs blocks
  prepare_source env hs (Body.write_json json) = prepare_write_json_callback env.grants hs json
  prepare_source env hs (Body.write_form form) = prepare_write_form_callback env.grants hs form
  prepare_source env hs (Body.write_gridftp_op a) = prepare_gridftp_op env hs a
  prepare_source env hs (Body.write_multipart ps) = do
    arg ← must_malloc env.grants
    c ← choose_boundary env hs
    elim c.result [
      | some e ↦ pure (multipart_of arg ps c null (some e) (no_current none) no_parts)
      | none ↦ do
        array ← alloc_parts env.grants (num_parts ps)
        r ← prepare_parts env ps
        finish_multipart env.grants arg ps c array r
    ]

  -- The loop over the parts, which an error leaves.
  pub prepare_parts : Env → Parts → M PartsReady
  prepare_parts env no_part = pure (record { result = none; ready = no_parts })
  prepare_parts env (part hs src ps) = do
    r ← with_headers env.grants hs src λ copied. prepare_source env copied src
    elim r.result [
      | some e ↦ pure (record { result = some e; ready = one_part r.ready (blanks ps) })
      | none ↦ do
        rest ← prepare_parts env ps
        pure (record { result = rest.result; ready = one_part r.ready rest.ready })
    ]

unfoldable pub prepare_write_callbacks : Env → KeyArray → Body → M PartReady
unfolding with_headers prepare_source
prepare_write_callbacks env headers src =
    with_headers env.grants headers src λ hs. prepare_source env hs src

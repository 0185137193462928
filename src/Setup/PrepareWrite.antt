-- ===== src/Setup/PrepareWrite.antt =====
-- `globus_l_dsi_rest_prepare_write_callbacks` of request.c and the functions that it calls.
pub mod Multipart
pub mod Boundary
pub mod Owns
pub mod Whole
use mathlib.Core.Option
use globus_dsi_rest.Base.{
  ℕ, ◌+◌, Bool, true, false, ◌||◌, Option, none, some, List, [], ◌∷◌, ◌++◌, map, if◌then◌else◌,
  Bytes, codes, length, Error, Result, ok, err, fault, ltb,
}
use globus_dsi_rest.Base.Runs.{Run, done, stuck}
use globus_dsi_rest.KeyArray.{KeyArray, KeyValue, key_value}
use globus_dsi_rest.Uri.Form.{encode_form_data}
use globus_dsi_rest.Write.Block.{Block}
use globus_dsi_rest.Write.Blocks.{Blocks}
use globus_dsi_rest.Gridftp.Prepare.{Section, Init, Prepared, prepare_write_gridftp_op_callback}
use globus_dsi_rest.Setup.Heap.{
  Pointer, null, block, Heap, M, pure, stop, lift, ◌>>=◌, ◌>>◌, is_null, malloc, must_malloc, free,
  realloc,
}
use globus_dsi_rest.Setup.WritePart.{
  Body, MallocedHeader, PartHeaders, WritePart, write_part, WriteArg, unprepared, block_arg,
  blocks_arg, text_arg, op_arg, PartReady,
}

-- What the world outside decides: which allocations succeed, what `globus_mutex_init` and
-- `globus_cond_init` return, and the text of `globus_uuid_create`.
pub record Env : Type 0 where
  pub grants : ℕ → Bool
  pub mutex_rc : ℕ
  pub cond_rc : ℕ
  pub uuid : Bytes

abbrev pub new_block : Bytes → Block
new_block bytes = record { block_data = bytes; block_len = length bytes; offset = 0 }

-- The copy of the headers, unless memory runs out.
unfoldable pub copy_headers : (ℕ → Bool) → KeyArray → M (Option PartHeaders)
unfolding malloc
copy_headers grants [] =
    pure
      (some (record { headers = []; key_value = null; malloced = []; malloced_key_value = null }))
copy_headers grants (kv ∷ kvs) = do
  p ← malloc grants
  elim p [
    | null ↦ pure none
    | block n ↦ pure (
        some (record {
          headers = kv ∷ kvs;
          key_value = block n;
          malloced = [];
          malloced_key_value = null;
        }))
  ]

-- A result with the headers that are left.
pub record HeaderAdded : Type 0 where
  pub result : Option Error
  pub left : PartHeaders

-- `globus_l_dsi_rest_add_part_header` for allocated strings. Without memory for the second array the
-- header is left out, and the result is still GLOBUS_SUCCESS.
unfoldable pub add_part_header :
    (ℕ → Bool) → PartHeaders → MallocedHeader → KeyValue → M HeaderAdded
unfolding realloc
add_part_header grants hs strings kv = elim (is_null strings.key || is_null strings.value) [
  | true ↦ pure (record { result = some Error.memory; left = hs })
  | false ↦ do
    tmp ← realloc grants hs.malloced_key_value
    elim tmp [
      | null ↦ pure (record { result = some Error.memory; left = hs })
      | block n ↦ do
        tmp' ← realloc grants hs.key_value
        let owned = record hs {
          malloced = hs.malloced ++ (strings ∷ []);
          malloced_key_value = block n;
        }
        elim tmp' [
          | null ↦ pure (record { result = none; left = owned })
          | block m ↦ pure (record {
            result = none;
            left = record owned { headers = hs.headers ++ (kv ∷ []); key_value = block m };
          })
        ]
    ]
]

-- The two strings of a Content-Type, and the header.
unfoldable pub add_content_type : (ℕ → Bool) → PartHeaders → Bytes → M HeaderAdded
unfolding malloc add_part_header
add_content_type grants hs value = do
  k ← malloc grants
  v ← malloc grants
  add_part_header grants hs (record { key = k; value = v }) (key_value (codes "Content-Type") value)

unfoldable pub prepare_block : (ℕ → Bool) → PartHeaders → Bytes → M PartReady
unfolding must_malloc
prepare_block grants hs bytes = do
  copied_arg ← must_malloc grants
  pure (record { result = none; ready = write_part hs (block_arg copied_arg (new_block bytes)) })

-- A null pointer for no blocks is never used.
unfoldable pub prepare_blocks : (ℕ → Bool) → PartHeaders → List Bytes → M PartReady
unfolding malloc must_malloc
prepare_blocks grants hs blocks = do
  block_args ← malloc grants
  copied_arg ←
      if is_null block_args
      then (if ltb 0 (length blocks) then stop else must_malloc grants)
      else must_malloc grants
  pure (record {
    result = none;
    ready = write_part hs (
        blocks_arg copied_arg block_args (record {
          blocks = map new_block blocks;
          block_count = length blocks;
          current_block = 0;
        }));
  })

-- The argument for a text, and its type.
unfoldable pub prepare_text : (ℕ → Bool) → PartHeaders → Pointer → Bytes → Bytes → M PartReady
unfolding must_malloc add_content_type
prepare_text grants hs text bytes type = do
  arg ← must_malloc grants
  added ← add_content_type grants hs type
  pure (record {
    result = added.result;
    ready = write_part added.left (text_arg arg text (new_block bytes));
  })

-- `globus_l_dsi_rest_prepare_write_json_callback`
unfoldable pub prepare_write_json_callback : (ℕ → Bool) → PartHeaders → Option Bytes → M PartReady
unfolding malloc prepare_text
prepare_write_json_callback grants hs none =
    pure (record { result = some Error.memory; ready = write_part hs unprepared })
prepare_write_json_callback grants hs (some json) = do
  jstring ← malloc grants
  elim jstring [
    | null ↦ pure (record { result = some Error.memory; ready = write_part hs unprepared })
    | block n ↦ prepare_text grants hs (block n) json (codes "application/json; charset=UTF-8")
  ]

-- `globus_i_dsi_rest_encode_form_data` makes one allocation.
unfoldable pub encode_form : (ℕ → Bool) → KeyArray → M (Result Bytes)
unfolding encode_form_data
encode_form grants form h =
    done (encode_form_data (λ _. grants h.next) form, record h { next = h.next + 1 })

-- What follows the encoding of a form.
unfoldable pub prepare_form_text : (ℕ → Bool) → PartHeaders → Pointer → Result Bytes → M PartReady
unfolding prepare_text
prepare_form_text grants hs form_data (err e) =
    pure (record { result = some e; ready = write_part hs unprepared })
prepare_form_text grants hs form_data fault = stop
prepare_form_text grants hs form_data (ok text) =
    prepare_text grants hs form_data text (codes "application/x-www-form-urlencoded")

-- `globus_l_dsi_rest_prepare_write_form_callback`
unfoldable pub prepare_write_form_callback : (ℕ → Bool) → PartHeaders → KeyArray → M PartReady
unfolding encode_form prepare_form_text
prepare_write_form_callback grants hs form h =
    (do r ← encode_form grants form; prepare_form_text grants hs (block h.next) r) h

-- What the initialisation of an allocated operation does.
abbrev pub init_of : Env → Init
init_of env = record { allocated = true; mutex_rc = env.mutex_rc; cond_rc = env.cond_rc }

-- `globus_l_dsi_rest_prepare_write_gridftp_op_callback`: after an error the part still has the
-- application's argument.
unfoldable pub prepare_gridftp_op : Env → PartHeaders → Section → M PartReady
unfolding must_malloc prepare_write_gridftp_op_callback
prepare_gridftp_op env hs a = do
  arg ← must_malloc env.grants
  p ← lift (prepare_write_gridftp_op_callback (init_of env) a)
  pure (record {
    result = p.result;
    ready = write_part hs (elim p.op [ none ↦ unprepared | some s ↦ op_arg arg s ]);
  })

-- The callback and its argument as the application gave them.
abbrev pub left_as_is : Body → WriteArg
left_as_is Body.no_callback = WriteArg.custom
left_as_is Body.custom = WriteArg.custom
left_as_is _ = unprepared

-- After an error the array of the headers is freed.
unfoldable pub free_headers : PartReady → M PartReady
unfolding free
free_headers r = elim r.result [
  | none ↦ pure r
  | some e ↦ elim r.ready [
    | write_part hs arg ↦
        free hs.key_value
        >> pure
            (record { result = r.result; ready = write_part (record hs { key_value = null }) arg })
  ]
]

-- The part after a failed copy of its headers, which sets their count.
abbrev pub without_headers : KeyArray → Body → PartReady
without_headers hs src = record {
  result = some Error.memory;
  ready =
      write_part
        (record { headers = hs; key_value = null; malloced = []; malloced_key_value = null })
        (left_as_is src);
}

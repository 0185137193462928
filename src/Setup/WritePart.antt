-- ===== src/Setup/WritePart.antt =====
-- `globus_i_dsi_rest_write_part_t` of globus_i_dsi_rest.h with the arguments of the predefined write
-- callbacks, and what an application asks to be written.
use globus_dsi_rest.Base.{ℕ, suc, Option, List, Bytes, Error}
use globus_dsi_rest.KeyArray.{KeyArray}
use globus_dsi_rest.Write.Block.{Block}
use globus_dsi_rest.Write.Blocks.{Blocks}
use globus_dsi_rest.Gridftp.Op.{OpArg}
use globus_dsi_rest.Gridftp.Prepare.{Section}
use globus_dsi_rest.Setup.Heap.{Pointer}

-- `data_write_callback` with its argument, as the application gives them: none, its own callback
-- (`custom`), or a predefined one. JSON is given by what `json_dumps` makes of it.
mutual
  pub data Body : Type 0 where
    no_callback custom : Body
    write_block : Bytes → Body
    write_blocks : List Bytes → Body
    write_json : Option Bytes → Body
    write_form : KeyArray → Body
    write_gridftp_op : Section → Body
    write_multipart : Parts → Body

  pub data Parts : Type 0 where
    no_part : Parts
    part : KeyArray → Body → Parts → Parts

-- The strings of an entry of `malloced_headers`.
pub record MallocedHeader : Type 0 where
  pub key : Pointer
  pub value : Pointer

-- `headers` and `malloced_headers` of a part: what the first array holds, its address, the strings
-- that the second one owns, and its address.
pub record PartHeaders : Type 0 where
  pub headers : KeyArray
  pub key_value : Pointer
  pub malloced : List MallocedHeader
  pub malloced_key_value : Pointer

-- `globus_i_dsi_rest_write_multipart_arg_t` without what the parts are. `delimiter` and
-- `current_text` are what the two pointers lead to.
pub record MultipartArg : Type 0 where
  pub num_parts : ℕ
  pub parts : Pointer
  pub boundary : Pointer
  pub delimiter : Bytes
  pub current_boundary : Pointer
  pub current_text : Bytes
  pub current_boundary_length : ℕ

-- A part, by what its `data_write_callback` takes its argument for: nothing to free (`custom`), what
-- the application gave to a predefined callback (`unprepared`), or what the library allocated, with
-- its addresses. A `text_arg` is that of a form or of JSON.
mutual
  pub data WritePart : Type 0 where
    write_part : PartHeaders → WriteArg → WritePart

  pub data WriteArg : Type 0 where
    custom unprepared : WriteArg
    block_arg : Pointer → Block → WriteArg
    blocks_arg : Pointer → Pointer → Blocks → WriteArg
    text_arg : Pointer → Pointer → Block → WriteArg
    op_arg : Pointer → OpArg → WriteArg
    multipart_arg : Pointer → MultipartArg → WriteParts → WriteArg

  pub data WriteParts : Type 0 where
    no_parts : WriteParts
    one_part : WritePart → WriteParts → WriteParts

-- `num_parts`
unfoldable pub num_parts : Parts → ℕ
num_parts no_part = 0
num_parts (part hs src ps) = suc (num_parts ps)

-- The result of a preparation, and the part that it leaves.
pub record PartReady : Type 0 where
  pub result : Option Error
  pub ready : WritePart

pub record PartsReady : Type 0 where
  pub result : Option Error
  pub ready : WriteParts

-- ===== src/Setup/CleanUp.antt =====
-- `globus_l_dsi_rest_request_cleanup_write_part` of request_cleanup.c.
pub mod Frees
pub mod Leaves
use globus_dsi_rest.Base.{ℕ, Bool, true, false, ◌&&◌, List, [], ◌∷◌, ltb, if◌then◌else◌}
use globus_dsi_rest.Gridftp.Op.{Buffer, OpArg}
use globus_dsi_rest.Setup.Heap.{Pointer, null, block, M, pure, stop, ◌>>=◌, ◌>>◌, is_null, free}
use globus_dsi_rest.Setup.WritePart.{
  MallocedHeader, PartHeaders, WritePart, write_part, WriteArg, custom, unprepared, block_arg,
  blocks_arg, text_arg, op_arg, multipart_arg, WriteParts, no_parts, one_part,
}

-- The loop over `malloced_headers`.
unfoldable pub free_strings : List MallocedHeader → M (Unit {0})
unfolding free
free_strings [] = pure tt
free_strings (s ∷ ss) = free s.key >> (free s.value >> free_strings ss)

-- The loop over `free_buffers`; a buffer is the block at its address.
unfoldable pub free_chain : List Buffer → M (Unit {0})
unfolding free
free_chain [] = pure tt
free_chain (b ∷ bs) = free (block b.address) >> free_chain bs

unfoldable mutual
  unfolding free free_strings free_chain

  pub cleanup_write_part : WritePart → M (Unit {0})
  cleanup_write_part (write_part hs arg) =
      free hs.key_value
      >> (free_strings hs.malloced >> (free hs.malloced_key_value >> cleanup_write_arg arg))

  -- An argument of the application that is taken for one of the library's has fields read and freed
  -- that it does not have.
  pub cleanup_write_arg : WriteArg → M (Unit {0})
  cleanup_write_arg custom = pure tt
  cleanup_write_arg unprepared = stop
  cleanup_write_arg (text_arg arg text b) = free text >> free arg
  cleanup_write_arg (block_arg arg b) = free arg
  cleanup_write_arg (blocks_arg arg blocks bs) = free blocks >> free arg
  cleanup_write_arg (op_arg arg s) = free_chain s.free_buffers >> free arg
  cleanup_write_arg (multipart_arg arg m ps) =
      let rest =
        cleanup_write_parts ps
        >> (free m.boundary >> (free m.current_boundary >> (free m.parts >> free arg))) in
      if is_null m.parts && ltb 0 m.num_parts then stop else rest

  pub cleanup_write_parts : WriteParts → M (Unit {0})
  cleanup_write_parts no_parts = pure tt
  cleanup_write_parts (one_part p ps) = cleanup_write_part p >> cleanup_write_parts ps

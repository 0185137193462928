-- ===== src/Tests/WriteTests.antt =====
-- The write callbacks at concrete inputs.
use globus_dsi_rest.Base.{
  inl, inr, ◌+◌, ℕ, ◌<◌, ◌≡◌, refl, Bool, true, false, none, some, List, [], ◌∷◌, Bytes, codes,
  length, arith,
}
use globus_dsi_rest.Base.Runs.{stuck, done, out_of_fuel, read_mem}
use globus_dsi_rest.KeyArray.{KeyArray, key_value, pairs, present}
use globus_dsi_rest.Write.Source.{Delivers}
use globus_dsi_rest.Write.Block.{Block, write_block}
use globus_dsi_rest.Write.Block.Laws.{IsBlock, rest, write_block-Delivers, block_source}
use globus_dsi_rest.Write.Blocks.{Blocks, write_blocks}
use globus_dsi_rest.Write.Blocks.Laws.{IsBlocks, Sends, write_blocks-Sends}
use globus_dsi_rest.Write.Blocks.Room.{Fits}
use globus_dsi_rest.Write.Blocks.Overrun.{write_blocks_overrun}
use globus_dsi_rest.Write.Boundary.{boundary_prepare}
use globus_dsi_rest.Write.Boundary.Laws.{boundary_text, boundary_prepare_lem}
use globus_dsi_rest.Write.Multipart.{Part, Multipart, multipart_loop, write_multipart}
use globus_dsi_rest.Write.Multipart.Content.{body, IsMultipart}
use globus_dsi_rest.Write.Multipart.Laws.Loop.{write_multipart-Delivers}
use globus_dsi_rest.Write.Multipart.Endless.{multipart_endless}
use globus_dsi_rest.Transfer.Request.{Request}
use globus_dsi_rest.Transfer.Upload.{Uploads, upload}
use globus_dsi_rest.Transfer.Body.{upload-multipart}

abbrev alloc : ℕ → Bool
alloc n = true

abbrev block : Bytes → ℕ → Block
block s o = record { block_data = s; block_len = length s; offset = o }

abbrev hello : Block
hello = block (codes "hello") 1

write_block_test :
    write_block hello 2
    ≡ done (record { result = none; copied = codes "el"; state = block (codes "hello") 3 })
unfolding write_block read_mem
write_block_test = refl

hello-IsBlock : IsBlock hello
hello-IsBlock = record { in_memory = omega arith; word = omega arith; within = omega arith }

write_block-Delivers_example : Delivers rest IsBlock hello 2 (write_block hello 2)
write_block-Delivers_example = write_block-Delivers hello 2 hello-IsBlock (omega arith)

abbrev two_blocks : Blocks
two_blocks = record {
  block_count = 2;
  current_block = 0;
  blocks = block (codes "ab") 0 ∷ block (codes "cdefg") 0 ∷ [];
}

two_blocks-IsBlocks : IsBlocks two_blocks
two_blocks-IsBlocks = record {
  counted = refl;
  within = omega arith;
  each = (
    record { in_memory = omega arith; word = omega arith; within = omega arith },
    (record { in_memory = omega arith; word = omega arith; within = omega arith }, tt),
  );
}

two_blocks-Fits : Fits two_blocks.blocks 7
unfolding Fits
two_blocks-Fits = inl (inr (omega arith, inr (omega arith, tt)))

two_blocks_cut : ¬ Fits two_blocks.blocks 3
unfolding Fits
two_blocks_cut (inl (inl e)) = absurd (omega (arith, e))
two_blocks_cut (inl (inr (le, inl e))) = absurd (omega (arith, e))
two_blocks_cut (inl (inr (le, inr (le', w)))) = absurd (omega (arith, le'))
two_blocks_cut (inr (inl h)) = absurd (omega (arith, h))
two_blocks_cut (inr (inr (e, f))) = absurd (omega (arith, e))

write_blocks-Sends_example : Sends two_blocks 7 [] (write_blocks two_blocks 7)
write_blocks-Sends_example =
    write_blocks-Sends two_blocks 7 two_blocks-IsBlocks (omega arith) two_blocks-Fits

-- Five bytes behind two, for a buffer of three.
write_blocks_overrun_example : write_blocks two_blocks 3 ≡ stuck
write_blocks_overrun_example =
    write_blocks_overrun two_blocks 3 two_blocks-IsBlocks (omega arith) two_blocks_cut

abbrev headers : KeyArray
headers = key_value (codes "K") (codes "v") ∷ []

boundary_test : boundary_text (codes "b") false (some headers) ≡ codes "\r\n--b\r\nK: v\r\n\r\n"
unfolding pairs present
boundary_test = refl

boundary_prepare_lem_example :
    boundary_prepare alloc (codes "b") false (some headers)
    ≡ done (record {
      result = none;
      boundary = some (boundary_text (codes "b") false (some headers));
      boundary_length = length (boundary_text (codes "b") false (some headers));
    })
unfolding pairs present
boundary_prepare_lem_example =
    boundary_prepare_lem alloc (codes "b") false (some headers) (omega arith) refl

abbrev parts : List (Part Block)
parts =
    record { headers = []; arg = block (codes "one") 0 }
    ∷ record { headers = headers; arg = block (codes "two") 0 }
    ∷ []

abbrev multipart : Multipart Block
multipart = record {
  boundary = some (codes "b");
  num_parts = 2;
  part_index = 0;
  current_boundary = none;
  current_boundary_offset = 0;
  current_boundary_length = 0;
  parts = parts;
}

multipart-IsMultipart : IsMultipart block_source (codes "b") multipart
unfolding pairs present
multipart-IsMultipart = record {
  delimiter = refl;
  counted = refl;
  word = omega arith;
  within = omega arith;
  each = (
    (good (codes "one") (omega arith), omega arith),
    ((good (codes "two") (omega arith), omega arith), tt),
  );
  last = omega arith;
  pending = (refl, refl);
}
  where
    good : (s : Bytes) → length s < 100 → IsBlock (block s 0)
    good s h = record { in_memory = omega arith; word = omega arith; within = omega arith }

multipart-body :
    body block_source (codes "b") multipart ≡ codes "one\r\n--b\r\nK: v\r\n\r\ntwo\r\n--b--\r\n"
unfolding pairs present
multipart-body = refl

write_multipart-Delivers_example :
    Delivers
      (body block_source (codes "b"))
      (IsMultipart block_source (codes "b"))
      multipart
      7
      (write_multipart write_block alloc multipart 7)
write_multipart-Delivers_example =
    write_multipart-Delivers block_source (codes "b") alloc (λ n. refl) multipart 7
      multipart-IsMultipart (omega arith)

abbrev sent_part : Part Block
sent_part = record { headers = []; arg = block (codes "one") 3 }

abbrev plain : Multipart Block
plain = record multipart { boundary = none; num_parts = 1; parts = sent_part ∷ [] }

multipart_endless_example : multipart_loop write_block alloc 1000 plain 9 [] ≡ out_of_fuel
multipart_endless_example =
    multipart_endless alloc plain 9 [] sent_part refl refl refl
      (record { in_memory = omega arith; word = omega arith; within = omega arith }) refl
      (omega arith) 1000 (omega arith)

abbrev fresh : Request
fresh = record {
  result = none;
  response_code = 0;
  request_bytes_uploaded = 0;
  response_bytes_downloaded = 0;
}

upload-multipart_example : Uploads (body block_source (codes "b") multipart) fresh [] (
    upload
      (write_multipart write_block alloc)
      (length (body block_source (codes "b") multipart) + 1)
      fresh
      multipart
      7
      [])
upload-multipart_example =
    upload-multipart block_source (codes "b") alloc multipart 7 fresh (λ n. refl)
      multipart-IsMultipart (omega arith) (omega arith) refl

-- ===== src/Tests/MultipartTests.antt =====
-- Runs of the model of read_multipart.c.
use globus_dsi_rest.Base.{
  true, false, none, some, List, [], ◌∷◌, ◌≡◌, ◌++◌, refl, Bytes, codes, arith,
}
use globus_dsi_rest.Base.Runs.{stuck}
use globus_dsi_rest.Transfer.ReadMultipart.{
  ReadingPart, PartReader, sought, read_chunks, read_multipart,
}
use globus_dsi_rest.Transfer.ReadMultipart.Split.{holding, read_multipart_stuck}
use globus_dsi_rest.Transfer.ReadMultipart.Scan.{at, calls_of}
use globus_dsi_rest.Transfer.ReadMultipart.Parts.{InPart, IsPlain, PartEnds, read_chunks-PartEnds}

-- Parts whose callbacks collect what they get.
abbrev part : Bytes → ReadingPart (List Bytes)
part name = record {
  headers = record { entries = []; capacity = none };
  responds = false;
  arg = name ∷ [];
}

abbrev reader : PartReader (List Bytes)
reader = record {
  num_parts = 2;
  part_index = 0;
  parts = part (codes "one") ∷ part (codes "two") ∷ [];
  boundary = codes "b";
  boundary_length = 1;
  boundary_buffer_length = 10;
  buffered = [];
  match_counter = 0;
  need_header = false;
  header_text = some [];
  header_buffer_offset = 0;
}

abbrev collect : List Bytes → Bytes → List Bytes
collect a b = a ++ (b ∷ [])

reader-InPart : InPart reader (part (codes "one"))
unfolding sought
reader-InPart = record { current = refl; begun = refl; fits = omega arith }

hi-IsPlain : IsPlain (104 ∷ 105 ∷ [])
hi-IsPlain = (omega arith, (λ q. absurd (omega (arith, q)), (λ q. absurd (omega (arith, q)), _)))

read_chunks-PartEnds_example :
    PartEnds collect reader (part (codes "one")) ((104 ∷ 105 ∷ []) ∷ (104 ∷ 105 ∷ []) ∷ []) (
      read_chunks
        (λ n. true)
        (calls_of collect (λ a h. a))
        (at 0 reader)
        ((104 ∷ 105 ∷ []) ∷ (((104 ∷ 105 ∷ []) ++ sought (at 0 reader)) ∷ [])))
read_chunks-PartEnds_example =
    read_chunks-PartEnds (λ n. true) collect (λ a h. a) reader (part (codes "one"))
      ((104 ∷ 105 ∷ []) ∷ []) (104 ∷ 105 ∷ []) reader-InPart (hi-IsPlain, _) hi-IsPlain

read_multipart_stuck_example :
    read_multipart
      (λ n. true)
      (calls_of collect (λ a h. a))
      (holding 2 (13 ∷ 10 ∷ []) reader)
      (45 ∷ [])
    ≡ stuck
unfolding sought
read_multipart_stuck_example =
    read_multipart_stuck (λ n. true) (calls_of collect (λ a h. a)) reader 2 45 (13 ∷ 10 ∷ [])
      (omega arith) (omega arith) (omega arith) refl

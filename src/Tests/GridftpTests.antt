-- ===== src/Tests/GridftpTests.antt =====
-- The theorems on the GridFTP operations at concrete inputs, and runs of the models.
use globus_dsi_rest.Base.{
  ℕ, ◌<◌, ◌≡◌, ◌⊎◌, refl, ap, true, false, none, some, List, [], ◌∷◌, inl, inr, Bytes, length,
  arith, eq→==,
}
use globus_dsi_rest.Base.Runs.{done, stuck, out_of_fuel, ◌>>=◌}
use globus_dsi_rest.Gridftp.Op.{Buffer, OpArg, Server, remove, new_op, new_buffer, no_offset}
use globus_dsi_rest.Gridftp.Prepare.{
  Section, Init, Succeeds, prepared, prepare_write_gridftp_op_callback, prepare_read_gridftp_op,
  prepare_write-Sends, prepare_read-Delivered,
}
use globus_dsi_rest.Gridftp.ReadOp.{Others, read_gridftp_op}
use globus_dsi_rest.Gridftp.ReadOp.Inv.{Finishes, IsFair}
use globus_dsi_rest.Gridftp.ReadOp.Rounds.{Grants}
use globus_dsi_rest.Gridftp.ReadOp.Whole.{Delivered, receive, receive-Delivered}
use globus_dsi_rest.Gridftp.ReadOp.Deadlock.{read_gridftp_op_deadlock}
use globus_dsi_rest.Gridftp.WriteOp.{
  Arrival, Arrivals, Written, write_gridftp_op, insert_pending, is_transfer_offset_ready,
  read_callback, register_reads,
}
use globus_dsi_rest.Gridftp.WriteOp.Inv.{piece, IsSound}
use globus_dsi_rest.Gridftp.WriteOp.Arrive.{Answers, IsHonestServer}
use globus_dsi_rest.Gridftp.WriteOp.Laws.{Wrote, write_gridftp_op-Wrote, write_gridftp_op_ready}
use globus_dsi_rest.Gridftp.WriteOp.Order.{
  IsOrdered, insert_pending-IsOrdered, insert_pending_ready,
}
use globus_dsi_rest.Gridftp.WriteOp.Whole.{send, Sends, send-Sends}
use globus_dsi_rest.Gridftp.WriteOp.Empty.{empty_read, empty_read_stuck}

-- A server with small blocks that takes everything.
abbrev willing : Server
willing = record {
  block_size = 4;
  optimal_concurrency = 2;
  register_write = λ w. none;
  register_read = λ r. none;
  alloc = λ n. true;
}

abbrev barren : Server
barren = record willing { alloc = λ n. false }

-- The server finishes the write that was registered last.
abbrev last_address : List Buffer → List ℕ
last_address [] = []
last_address (b ∷ bs) = b.address ∷ []

abbrev finish_last : Others
finish_last s = last_address s.registered_buffers

removed_first :
    (b : Buffer) (bs : List Buffer)
    → remove b.address (b ∷ bs) ≡ record { buffer = some b; rest = bs }
unfolding remove
removed_first b bs = rw (eq→== b.address b.address refl) refl

last_address-Finishes : (bs : List Buffer) → Finishes bs (last_address bs)
last_address-Finishes [] = tt
last_address-Finishes (b ∷ bs) = ((b, ap (λ r. r.buffer) (removed_first b bs)), tt)

last_address_fair : (bs : List Buffer) → (length bs ≡ 0) ⊎ (0 < length (last_address bs))
last_address_fair [] = inl refl
last_address_fair (b ∷ bs) = inr (omega arith)

finish_last-Finishes : (s : OpArg) → Finishes s.registered_buffers (finish_last s)
finish_last-Finishes s = last_address-Finishes s.registered_buffers

finish_last-IsFair : IsFair finish_last
finish_last-IsFair s = (finish_last-Finishes s, last_address_fair s.registered_buffers)

willing-Grants : Grants willing
willing-Grants = record { accepts = λ w. refl; allocates = λ n. refl; concurrent = omega arith }

abbrev chunks : List Bytes
chunks = (1 ∷ 2 ∷ 3 ∷ []) ∷ (4 ∷ 5 ∷ 6 ∷ 7 ∷ 8 ∷ 9 ∷ []) ∷ []

receive-Delivered_example :
    Delivered 10
      (1 ∷ 2 ∷ 3 ∷ 4 ∷ 5 ∷ 6 ∷ 7 ∷ 8 ∷ 9 ∷ [])
      (receive willing finish_last finish_last (new_op 10 no_offset) chunks)
receive-Delivered_example =
    receive-Delivered willing willing-Grants finish_last finish_last-IsFair finish_last
      finish_last-Finishes 10 no_offset chunks (omega arith, (omega arith, tt))

read_gridftp_op_deadlock_example :
    (s' : OpArg) × (read_gridftp_op barren finish_last (new_op 10 no_offset) (7 ∷ [])
      ≡ done (record { result = none; op = s' }))
    × (s'.writes ≡ [])
    × ((others' : Others) (more : Bytes) → read_gridftp_op barren others' s' more ≡ out_of_fuel)
read_gridftp_op_deadlock_example =
    read_gridftp_op_deadlock barren finish_last (new_op 10 no_offset) (7 ∷ []) (λ n. refl) refl refl
      refl (omega arith) (omega arith)

abbrev file : Bytes
file = 7 ∷ 8 ∷ 9 ∷ []

-- The server reads the file at once into the buffer that was registered last.
abbrev read_all : List Buffer → List Arrival
read_all [] = []
read_all (b ∷ bs) =
    record { result = none; address = b.address; bytes = file; offset = 0; eof = true } ∷ []

abbrev reads_file : Arrivals
reads_file s = read_all s.registered_buffers

read_all-Answers : (bs : List Buffer) → Answers file bs (read_all bs)
read_all-Answers [] = tt
read_all-Answers (b ∷ bs) =
    (piece (omega arith) (omega arith) refl, (b, ap (λ r. r.buffer) (removed_first b bs)), tt)

reads_file-IsHonestServer : IsHonestServer file reads_file
reads_file-IsHonestServer s = read_all-Answers s.registered_buffers

new_op-IsSound : IsSound file (new_op 0 no_offset)
new_op-IsSound = record { pieces = tt; free = inr tt; idle = refl; within = omega arith }

send_run :
    (send willing (λ s. []) reads_file 3 (2 ∷ 2 ∷ 2 ∷ []) (new_op 0 no_offset) >>= λ w.
    done w.copied)
    ≡ done file
unfolding send write_gridftp_op
send_run = refl

send-Sends_example :
    (send willing reads_file reads_file 3 (2 ∷ 2 ∷ 2 ∷ []) (new_op 0 no_offset) ≡ out_of_fuel)
    ⊎ Sends file
        (new_op 0 no_offset)
        (send willing reads_file reads_file 3 (2 ∷ 2 ∷ 2 ∷ []) (new_op 0 no_offset))
send-Sends_example =
    send-Sends willing reads_file reads_file file reads_file-IsHonestServer
      reads_file-IsHonestServer (omega arith) 3 (2 ∷ 2 ∷ 2 ∷ []) (new_op 0 no_offset) new_op-IsSound
      refl (omega arith, (omega arith, (omega arith, tt)))

write_gridftp_op-Wrote_example :
    (write_gridftp_op willing reads_file 3 (new_op 0 no_offset) 2 ≡ out_of_fuel)
    ⊎ Wrote file
        (new_op 0 no_offset)
        2
        (write_gridftp_op willing reads_file 3 (new_op 0 no_offset) 2)
write_gridftp_op-Wrote_example =
    write_gridftp_op-Wrote willing reads_file file reads_file-IsHonestServer (omega arith) 3
      (new_op 0 no_offset) 2 new_op-IsSound refl (omega arith)

abbrev held : ℕ → ℕ → Bytes → Buffer
held address offset bytes = record (new_buffer address 4) {
  buffer_used = length bytes;
  transfer_offset = offset;
  memory = bytes;
}

abbrev waiting_op : OpArg
waiting_op = record (new_op 1 no_offset) { pending_buffers = held 0 1 (8 ∷ 9 ∷ []) ∷ [] }

waiting_op-IsSound : IsSound file waiting_op
waiting_op-IsSound = record {
  pieces = (
    record { some_used = omega arith; filled = omega arith; within = omega arith; content = refl },
    tt,
  );
  free = inr tt;
  idle = refl;
  within = omega arith;
}

write_gridftp_op_ready_example :
    (w : Written) × ((write_gridftp_op willing reads_file 1 waiting_op 5 ≡ done w)
      × (w.result ≡ none)
      × (0 < length w.copied))
unfolding is_transfer_offset_ready
write_gridftp_op_ready_example =
    write_gridftp_op_ready willing reads_file file reads_file-IsHonestServer (omega arith) 0
      waiting_op 5 waiting_op-IsSound refl (omega arith) (omega arith) refl
      (λ e. absurd (omega arith)) refl

abbrev around : List Buffer
around = held 0 1 (8 ∷ 9 ∷ []) ∷ held 1 5 (2 ∷ []) ∷ []

insert_pending-IsOrdered_test : IsOrdered (insert_pending (held 2 3 (0 ∷ 1 ∷ [])) around)
insert_pending-IsOrdered_test =
    insert_pending-IsOrdered (held 2 3 (0 ∷ 1 ∷ [])) around ((omega arith, tt), (tt, tt))
      (inl (omega arith), (inr (omega arith), tt)) (omega arith, (omega arith, tt)) (omega arith)

insert_pending_ready_test :
    is_transfer_offset_ready (record waiting_op {
      pending_buffers = insert_pending (held 2 1 (8 ∷ [])) (held 1 5 (2 ∷ []) ∷ []);
    })
    ≡ true
insert_pending_ready_test =
    insert_pending_ready (held 2 1 (8 ∷ []))
      (record waiting_op { pending_buffers = held 1 5 (2 ∷ []) ∷ [] }) refl (omega arith, tt)
      (omega arith, tt) (omega arith, tt)

abbrev reading_op : OpArg
reading_op = record (new_op 0 no_offset) { registered_buffers = new_buffer 3 4 ∷ [] }

empty_read_stuck_example :
    (read_callback (empty_read 3 0) reading_op >>= register_reads willing) ≡ stuck
unfolding remove
empty_read_stuck_example =
    empty_read_stuck reading_op 3 0 (new_buffer 3 4) refl refl refl willing refl refl (omega arith)
      refl (omega arith)

abbrev good : Init
good = record { allocated = true; mutex_rc = 0; cond_rc = 0 }

good-Succeeds : Succeeds good
good-Succeeds = record { allocated = refl; mutex = refl; cond = refl }

abbrev tail_section : Section
tail_section = record { offset = 1; length = no_offset }

prepare_write-Sends_test :
    ((prepare_write_gridftp_op_callback good tail_section
        >>= prepared (send willing reads_file reads_file 3 (2 ∷ 2 ∷ [])))
      ≡ out_of_fuel)
    ⊎ Sends file (new_op 1 no_offset) (
        prepare_write_gridftp_op_callback good tail_section
        >>= prepared (send willing reads_file reads_file 3 (2 ∷ 2 ∷ [])))
prepare_write-Sends_test =
    prepare_write-Sends good tail_section willing reads_file reads_file file good-Succeeds
      reads_file-IsHonestServer reads_file-IsHonestServer (omega arith) (omega arith) 3 (2 ∷ 2 ∷ [])
      (omega arith, (omega arith, tt))

prepare_read-Delivered_test : Delivered 1 (1 ∷ 2 ∷ 3 ∷ 4 ∷ 5 ∷ 6 ∷ 7 ∷ 8 ∷ 9 ∷ []) (
    prepared
      (λ s. receive willing finish_last finish_last s chunks)
      (prepare_read_gridftp_op good tail_section))
prepare_read-Delivered_test =
    prepare_read-Delivered good tail_section willing finish_last finish_last good-Succeeds
      willing-Grants finish_last-IsFair finish_last-Finishes chunks (omega arith, (omega arith, tt))

-- ===== src/Wal/Examples.antt =====
-- Small logs.
use lightkv.Prelude.{ℕ, ◌≡◌, refl, arith, Bool, true, false, List, [], ◌∷◌, ◌++◌, replicate}
use lightkv.Encoding.{varint_loop, varint_length, length_loop, fixed_bytes}
use lightkv.Crc.{crc_extend, crc_loop, crc_table}
use lightkv.Wal.{
  value_type, BatchOp, Writer, Outcome, done, failed, fault, sized, sized_length, entry_body,
  entry_length, range_body, op_bytes, op_length, ops_bytes, ops_length, batch_body, batch_length,
  frame, grow_file, store, append_record, append, append_range_delete, append_batch, read_record,
}
use lightkv.Wal.Replay.{recover}
use lightkv.Wal.Recovery.{
  LogWrite, entry, range, batch, write, write_all, all_calls, last_of, recover-write_all, Stops,
}
use lightkv.Wal.Space.{IsMapped, append_record-IsMapped}

abbrev always : ℕ → Bool
always size = true

abbrev never : ℕ → Bool
never size = false

abbrev put_op : BatchOp
put_op = record { type = value_type; key = b'a' ∷ []; value = 7 ∷ []; begin_key = []; end_key = [] }

abbrev three_writes : List LogWrite
three_writes =
    entry 5 value_type (b'k' ∷ []) (1 ∷ 2 ∷ [])
    ∷ range 6 (b'a' ∷ []) (b'c' ∷ [])
    ∷ batch 7 put_op []
    ∷ []

abbrev empty_log : Writer
empty_log = record { file = []; file_size = 8192; mapped = true }

-- The writer that an outcome leaves.
abbrev writer_of : Outcome → Writer
writer_of (done w) = w
writer_of (failed w) = w
writer_of fault = empty_log

all_written :
    write_all always three_writes empty_log
    ≡ done (writer_of (write_all always three_writes empty_log))
unfolding write_all write append append_range_delete append_batch append_record grow_file store
    frame entry_body entry_length range_body batch_body batch_length ops_bytes op_bytes ops_length
    op_length sized sized_length varint_loop varint_length length_loop fixed_bytes crc_extend
    crc_loop crc_table
all_written = refl

nothing_read : Stops []
unfolding read_record
nothing_read old = refl

recover-write_all_example :
    recover ((writer_of (write_all always three_writes empty_log)).file ++ []) 0
    ≡ (all_calls three_writes, last_of 0 three_writes)
unfolding entry_body range_body batch_body ops_bytes op_bytes sized varint_loop fixed_bytes
recover-write_all_example =
    recover-write_all always three_writes (writer_of (write_all always three_writes empty_log)) 8192
      0 [] (omega arith) all_written nothing_read

abbrev body : List ℕ
body = 1 ∷ 2 ∷ 3 ∷ []

append_record-IsMapped_example :
    (w : Writer) × (append_record always 3 body empty_log ≡ done w) × IsMapped w
append_record-IsMapped_example =
    append_record-IsMapped always body empty_log (record { present = refl; inside = omega arith })
      (omega arith) (omega arith) refl

abbrev long_file : Writer
long_file = record { file = replicate 10 0; file_size = 4200; mapped = true }

broken : append_record never 4000 body long_file ≡ failed (record long_file { mapped = false })
unfolding append_record grow_file store frame fixed_bytes crc_extend crc_loop crc_table
broken = refl

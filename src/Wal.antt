-- ===== src/Wal.antt =====
-- src/wal.cpp: the records of the write-ahead log, its writer and its reader. A file is the list of
-- its bytes up to `write_pos_`; the writer's mapping is its size and whether it is there. What
-- `ftruncate` and `mmap` answer is a parameter.
pub mod Fields
pub mod Records
pub mod Frames
pub mod Replay
pub mod Recovery
pub mod Space
pub mod Examples
use lightkv.Prelude.{
  ℕ, zero, suc, ◌+◌, ◌*◌, ◌%◌, ◌^◌, max, Bool, true, false, Option, none, some, List, [], ◌∷◌, ◌++◌,
  length, take, drop, ltb, leb, ◌==◌, if◌then◌else◌, ◌>>=◌,
}
use lightkv.Encoding.{
  varint_loop, varint_length, fixed_bytes, decode_fixed32, decode_fixed64, get_varint32, take_slice,
}
use lightkv.Crc.{crc_extend}

-- WALRecord::Type; a type read from a file may be any byte.
abbrev pub value_type : ℕ
value_type = 1

abbrev pub deletion_type : ℕ
deletion_type = 2

abbrev pub range_deletion_type : ℕ
range_deletion_type = 3

abbrev pub batch_type : ℕ
batch_type = 4

-- WALRecord::BatchOp
pub record BatchOp : Type 0 where
  pub type : ℕ
  pub key : List ℕ
  pub value : List ℕ
  pub begin_key : List ℕ
  pub end_key : List ℕ

-- WALRecord
pub record WalRecord : Type 0 where
  pub seq : ℕ
  pub type : ℕ
  pub key : List ℕ
  pub value : List ℕ
  pub begin_key : List ℕ
  pub end_key : List ℕ
  pub batch_ops : List BatchOp

-- `EncodeVarint32(p, n); memcpy(p, s, n)` with the size cast to `uint32_t`.
unfoldable pub sized : List ℕ → List ℕ
sized s = varint_loop 4 (length s % 2 ^ 32) ++ take (length s % 2 ^ 32) s

-- What `sized` takes, as the writer computes it beforehand.
unfoldable pub sized_length : List ℕ → ℕ
sized_length s = varint_length (length s % 2 ^ 32) + length s % 2 ^ 32

-- The bytes of Append behind the header.
unfoldable pub entry_body : ℕ → ℕ → List ℕ → List ℕ → List ℕ
entry_body seq type key value = (type % 256) ∷ (sized key ++ (sized value ++ fixed_bytes 8 seq))

unfoldable pub entry_length : List ℕ → List ℕ → ℕ
entry_length key value = (1 + sized_length key + sized_length value + 8) % 2 ^ 32

-- The bytes of AppendRangeDelete behind the header.
unfoldable pub range_body : ℕ → List ℕ → List ℕ → List ℕ
range_body seq begin_key end_key =
    range_deletion_type ∷ (sized begin_key ++ (sized end_key ++ fixed_bytes 8 seq))

-- One operation of AppendBatch.
pub op_bytes : BatchOp → List ℕ
op_bytes op =
    (op.type % 256)
    ∷ (sized op.key
        ++ (if op.type == range_deletion_type
            then sized op.begin_key ++ sized op.end_key
            else sized op.value))

pub op_length : BatchOp → ℕ
op_length op =
    1
    + sized_length op.key
    + (if op.type == range_deletion_type
        then sized_length op.begin_key + sized_length op.end_key
        else sized_length op.value)

pub ops_bytes : List BatchOp → List ℕ
ops_bytes [] = []
ops_bytes (op ∷ ops) = op_bytes op ++ ops_bytes ops

pub ops_length : List BatchOp → ℕ
ops_length [] = 0
ops_length (op ∷ ops) = op_length op + ops_length ops

-- The bytes of AppendBatch behind the header.
pub batch_body : ℕ → List BatchOp → List ℕ
batch_body seq ops =
    batch_type ∷ (varint_loop 4 (length ops % 2 ^ 32) ++ (ops_bytes ops ++ fixed_bytes 8 seq))

pub batch_length : List BatchOp → ℕ
batch_length ops = (1 + varint_length (length ops % 2 ^ 32) + ops_length ops + 8) % 2 ^ 32

-- A record: checksum, length, body.
unfoldable pub frame : ℕ → List ℕ → List ℕ
frame record_len body =
    fixed_bytes 4 (crc_extend 0 (take record_len body)) ++ (fixed_bytes 4 record_len ++ body)

-- WALWriter
pub record Writer : Type 0 where
  pub file : List ℕ
  pub file_size : ℕ
  pub mapped : Bool

-- `fault` is a store outside the mapping.
pub data Outcome : Type 0 where
  done : Writer → Outcome
  failed : Writer → Outcome
  fault : Outcome

-- WALWriter::GrowFile, where `can_grow` says whether a size can be had. The old mapping is gone
-- either way.
unfoldable pub grow_file : (ℕ → Bool) → Writer → Option Writer
grow_file can_grow w =
    if can_grow (w.file_size * 2)
    then some (record w { file_size = w.file_size * 2; mapped = true })
    else none

-- The stores of an append, and the new write position.
unfoldable pub store : ℕ → List ℕ → Writer → Outcome
store record_len body w =
    let bytes = frame record_len body in
    if leb (length w.file + length bytes) w.file_size
    then (if w.mapped
        then done (record w { file = w.file ++ take ((8 + record_len) % 2 ^ 32) bytes })
        else fault)
    else fault

-- What Append, AppendRangeDelete and AppendBatch have in common.
unfoldable pub append_record : (ℕ → Bool) → ℕ → List ℕ → Writer → Outcome
append_record can_grow record_len body w =
    if leb w.file_size (length w.file + (8 + record_len) % 2 ^ 32 + 4096)
    then elim (grow_file can_grow w) [
      | none ↦ failed (record w { mapped = false })
      | some grown ↦ store record_len body grown
    ]
    else store record_len body w

-- WALWriter::Append
unfoldable pub append : (ℕ → Bool) → ℕ → ℕ → List ℕ → List ℕ → Writer → Outcome
append can_grow seq type key value =
    append_record can_grow (entry_length key value) (entry_body seq type key value)

-- WALWriter::AppendRangeDelete
pub append_range_delete : (ℕ → Bool) → ℕ → List ℕ → List ℕ → Writer → Outcome
append_range_delete can_grow seq begin_key end_key =
    append_record can_grow (entry_length begin_key end_key) (range_body seq begin_key end_key)

-- WALWriter::AppendBatch
pub append_batch : (ℕ → Bool) → ℕ → List BatchOp → Writer → Outcome
append_batch can_grow seq [] w = done w
append_batch can_grow seq (op ∷ ops) w =
    append_record can_grow (batch_length (op ∷ ops)) (batch_body seq (op ∷ ops)) w

-- `GetVarint32`, the check against the end of the record, `assign`.
pub read_field : List ℕ → Option (List ℕ × List ℕ)
read_field p = do (len, rest) ← get_varint32 p; take_slice len rest

-- What an operation holds behind its key.
pub read_operands : ℕ → List ℕ → List ℕ → Option (BatchOp × List ℕ)
read_operands type key p =
    if type == range_deletion_type
    then (do
      (begin_key, p1) ← read_field p
      (end_key, p2) ← read_field p1
      some (
        record { type = type; key = key; value = []; begin_key = begin_key; end_key = end_key },
        p2,
      ))
    else (do
      (value, p1) ← read_field p
      some (record { type = type; key = key; value = value; begin_key = []; end_key = [] }, p1))

-- One round of the loop of ReadRecord over a batch.
pub read_op : List ℕ → Option (BatchOp × List ℕ)
unfolding read_operands
read_op [] = none
read_op (type ∷ p) = do (key, p1) ← read_field p; read_operands type key p1

pub read_ops : ℕ → List ℕ → Option (List BatchOp × List ℕ)
read_ops zero p = some ([], p)
read_ops (suc count) p = do (op, p1) ← read_op p; (ops, p2) ← read_ops count p1; some (op ∷ ops, p2)

-- ReadRecord behind the checksum; `old` is what the caller's record holds. The sequence number is
-- read without a check, so that the bytes behind the record follow in `behind`.
pub read_body : WalRecord → List ℕ → List ℕ → Option WalRecord
read_body old behind [] = none
read_body old behind (type ∷ p) =
    if type == range_deletion_type
    then (do
      (begin_key, p1) ← read_field p
      (end_key, p2) ← read_field p1
      some (record old {
        type = type;
        begin_key = begin_key;
        end_key = end_key;
        seq = decode_fixed64 (p2 ++ behind);
      }))
    else if type == batch_type
    then (do
      (count, p1) ← get_varint32 p
      (ops, p2) ← read_ops count p1
      some (record old { type = type; batch_ops = ops; seq = decode_fixed64 (p2 ++ behind) }))
    else (do
      (key, p1) ← read_field p
      (value, p2) ← read_field p1
      some (record old {
        type = type;
        key = key;
        value = value;
        seq = decode_fixed64 (p2 ++ behind);
      }))

-- WALReader::ReadRecord from `read_pos_` on; the callers stop at the first `false`.
unfoldable pub read_record : WalRecord → List ℕ → Option (WalRecord × List ℕ)
read_record old file =
    let crc = decode_fixed32 file in
    let len = decode_fixed32 (drop 4 file) in
    let body = take len (drop 8 file) in
    let behind = drop len (drop 8 file) in
    if ltb (length file) 8
    then none
    else if ltb (length file) (8 + len)
    then none
    else if crc == crc_extend 0 body
    then (read_body old behind body >>= λ r. some (r, behind))
    else none

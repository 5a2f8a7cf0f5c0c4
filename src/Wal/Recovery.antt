-- ===== src/Wal/Recovery.antt =====
-- The replay of a log that the writer has left: which calls it makes, and where it stops.
use lightkv.Prelude.{
  ℕ, zero, suc, ◌+◌, ◌%◌, ◌^◌, ◌<◌, max, ◌≡◌, ◌≢◌, refl, ap, ◌∙◌, arith, Bool, true, none, some,
  List, [], ◌∷◌, ◌++◌, length, take, ◌>>=◌, length-append, append_assoc, append-nil, All, ◌==◌,
  if◌then◌else◌, Bool-cases, inl, inr,
}
use lightkv.Encoding.{IsU32, IsU64, IsByte}
use lightkv.Wal.{
  range_deletion_type, deletion_type, batch_type, BatchOp, WalRecord, Writer, Outcome, done, failed,
  fault, entry_body, entry_length, range_body, batch_body, batch_length, frame, read_body,
  read_record, grow_file, store, append_record, append, append_range_delete, append_batch,
}
use lightkv.Wal.Replay.{
  MemCall, insert, insert_deletion, insert_range_deletion, register_tombstone, replay_op,
  replay_ops, replay, recover_loop, recover,
}
use lightkv.Wal.Fields.{take-length}
use lightkv.Wal.Records.{
  Fits, settled, settle_all, read_body-entry, read_body-range, read_body-batch,
}
use lightkv.Wal.Frames.{
  length-entry_body, length-range_body, length-batch_body, length-frame, read_record-frame,
}

-- A call of the writer.
pub data LogWrite : Type 0 where
  entry : (seq type : ℕ) (key value : List ℕ) → LogWrite
  range : (seq : ℕ) (begin_key end_key : List ℕ) → LogWrite
  batch : (seq : ℕ) (op : BatchOp) (ops : List BatchOp) → LogWrite

unfoldable pub write : (ℕ → Bool) → LogWrite → Writer → Outcome
write can_grow (entry seq type key value) = append can_grow seq type key value
write can_grow (range seq begin_key end_key) = append_range_delete can_grow seq begin_key end_key
write can_grow (batch seq op ops) = append_batch can_grow seq (op ∷ ops)

unfoldable pub write_all : (ℕ → Bool) → List LogWrite → Writer → Outcome
write_all can_grow [] w = done w
write_all can_grow (x ∷ xs) w = elim (write can_grow x w) [
  | done w' ↦ write_all can_grow xs w'
  | failed w' ↦ failed w'
  | fault ↦ fault
]

abbrev pub body_of : LogWrite → List ℕ
body_of (entry seq type key value) = entry_body seq type key value
body_of (range seq begin_key end_key) = range_body seq begin_key end_key
body_of (batch seq op ops) = batch_body seq (op ∷ ops)

abbrev pub seq_of : LogWrite → ℕ
seq_of (entry seq type key value) = seq
seq_of (range seq begin_key end_key) = seq
seq_of (batch seq op ops) = seq

-- The sizes that the format can hold, and a plain type for a plain record.
abbrev Contents : LogWrite → Type 0
Contents (entry seq type key value) =
    IsByte type
    × (type ≢ range_deletion_type)
    × (type ≢ batch_type)
    × IsU32 (length key)
    × IsU32 (length value)
Contents (range seq begin_key end_key) = IsU32 (length begin_key) × IsU32 (length end_key)
Contents (batch seq op ops) = IsU32 (length (op ∷ ops)) × All Fits (op ∷ ops)

pub record IsLoggable (x : LogWrite) : Type 0 where
  pub seq_size : IsU64 (seq_of x)
  pub total_size : 8 + length (body_of x) < 2 ^ 32
  pub contents : Contents x

-- The calls on the memtable that the write stands for.
unfoldable pub calls_of : LogWrite → List MemCall
calls_of (entry seq type key value) =
    if type == deletion_type then insert_deletion seq key ∷ [] else insert seq key value ∷ []
calls_of (range seq begin_key end_key) =
    insert_range_deletion seq begin_key end_key ∷ register_tombstone seq begin_key end_key ∷ []
calls_of (batch seq op ops) = replay_ops seq (op ∷ ops)

unfoldable pub all_calls : List LogWrite → List MemCall
all_calls [] = []
all_calls (x ∷ xs) = calls_of x ++ all_calls xs

unfoldable pub last_of : ℕ → List LogWrite → ℕ
last_of last [] = last
last_of last (x ∷ xs) = last_of (max last ((seq_of x + 1) % 2 ^ 64)) xs

-- The bytes of a whole log.
pub log_bytes : List LogWrite → List ℕ
log_bytes [] = []
log_bytes (x ∷ xs) = frame (length (body_of x)) (body_of x) ++ log_bytes xs

replay_op-settled : (seq : ℕ) (op : BatchOp) → replay_op seq (settled op) ≡ replay_op seq op
unfolding replay_op settled
replay_op-settled seq op = elim (Bool-cases (op.type == range_deletion_type)) [
  | inl is_range ↦ ground arith
  | inr other ↦ ground arith
]

replay_ops-settle_all :
    (seq : ℕ) (ops : List BatchOp) → replay_ops seq (settle_all ops) ≡ replay_ops seq ops
unfolding replay_ops settle_all
replay_ops-settle_all seq [] = refl
replay_ops-settle_all seq (op ∷ ops) =
    rw (replay_op-settled seq op) (rw (replay_ops-settle_all seq ops) refl)

-- What ReadRecord makes of a write.
record Reread (x : LogWrite) (old : WalRecord) (behind : List ℕ) : Type 0 where
  result : WalRecord
  found : read_body old behind (body_of x) ≡ some result
  number : result.seq ≡ seq_of x
  calls : replay result ≡ calls_of x

reread : (x : LogWrite) (old : WalRecord) (behind : List ℕ) → IsLoggable x → Reread x old behind
unfolding replay calls_of
reread (entry seq type key value) old behind ok =
    let (byte, not_range, not_batch, k, v) = ok.contents in
    record {
      result = record old { type = type; key = key; value = value; seq = seq };
      found =
          read_body-entry old seq type key value behind ok.seq_size byte not_range not_batch k v;
      number = refl;
      calls = ground arith;
    }
reread (range seq begin_key end_key) old behind ok = record {
  result = record old {
    type = range_deletion_type;
    begin_key = begin_key;
    end_key = end_key;
    seq = seq;
  };
  found = read_body-range old seq begin_key end_key behind ok.seq_size ok.contents.0 ok.contents.1;
  number = refl;
  calls = refl;
}
reread (batch seq op ops) old behind ok = record {
  result = record old { type = batch_type; batch_ops = settle_all (op ∷ ops); seq = seq };
  found = read_body-batch old seq (op ∷ ops) behind ok.seq_size ok.contents.0 ok.contents.1;
  number = refl;
  calls = replay_ops-settle_all seq (op ∷ ops);
}

-- The reader gets no record from the bytes, whatever its record held before.
abbrev pub Stops : List ℕ → Type 0
Stops tail = (old : WalRecord) → read_record old tail ≡ none

recover_loop_stop :
    (fuel last : ℕ) (old : WalRecord) (tail : List ℕ)
    → Stops tail
    → recover_loop fuel old tail last ≡ ([], last)
unfolding recover_loop
recover_loop_stop zero last old tail stop = refl
recover_loop_stop (suc fuel) last old tail stop = rw (stop old, recover_loop) refl

recover_loop-log :
    (xs : List LogWrite) (fuel last : ℕ) (old : WalRecord) (tail : List ℕ)
    → All IsLoggable xs
    → Stops tail
    → length (log_bytes xs) < fuel
    → recover_loop fuel old (log_bytes xs ++ tail) last ≡ (all_calls xs, last_of last xs)
unfolding log_bytes all_calls last_of recover_loop
recover_loop-log [] fuel last old tail ok stop h = recover_loop_stop fuel last old tail stop
recover_loop-log (x ∷ xs) zero last old tail ok stop h = absurd (omega arith)
recover_loop-log (x ∷ xs) (suc fuel) last old tail ok stop h =
    let body : List ℕ = body_of x in
    let r = reread x old (log_bytes xs ++ tail) ok.0 in
    let read : read_record old ((frame (length body) body ++ log_bytes xs) ++ tail)
        ≡ some (r.result, log_bytes xs ++ tail) =
      ap (read_record old) (append_assoc (frame (length body) body) (log_bytes xs) tail)
      ∙ read_record-frame old body (log_bytes xs ++ tail) (omega (arith, (ok.0).total_size))
      ∙ ap (λ o. o >>= λ q. some (q, log_bytes xs ++ tail)) r.found in
    let ih =
      recover_loop-log xs fuel (max last ((r.result.seq + 1) % 2 ^ 64)) r.result tail ok.1 stop (
        omega (
          arith,
          length-append (frame (length body) body) (log_bytes xs),
          length-frame (length body) body,
        )) in
    rw (read, recover_loop)
      (ap (λ c. (replay r.result ++ c.0, c.1)) ih
        ∙ ap (λ l. (l ++ all_calls xs, last_of (max last ((r.result.seq + 1) % 2 ^ 64)) xs)) r.calls
        ∙ ap (λ n. (calls_of x ++ all_calls xs, last_of (max last ((n + 1) % 2 ^ 64)) xs)) r.number)

-- The write position moves behind the whole record.
whole :
    (n : ℕ) (body : List ℕ)
    → n ≡ length body
    → 8 + length body < 2 ^ 32
    → take ((8 + n) % 2 ^ 32) (frame n body) ≡ frame (length body) body
whole n body len small =
    ap (λ k. take k (frame n body)) {x = (8 + n) % 2 ^ 32} {y = length (frame n body)}
      (omega (arith, length-frame n body))
    ∙ take-length (frame n body)
    ∙ ap (λ k. frame k body) len

-- What an append that succeeds leaves in the file.
stored :
    (can_grow : ℕ → Bool) (n : ℕ) (body : List ℕ) (w w' : Writer)
    → n ≡ length body
    → 8 + length body < 2 ^ 32
    → append_record can_grow n body w ≡ done w'
    → w'.file ≡ w.file ++ frame (length body) body
unfolding append_record store grow_file
stored can_grow n body w w' len small ok = ground (arith, whole n body len small)

write_stored :
    (can_grow : ℕ → Bool) (x : LogWrite) (w w' : Writer)
    → IsLoggable x
    → write can_grow x w ≡ done w'
    → w'.file ≡ w.file ++ frame (length (body_of x)) (body_of x)
unfolding write append append_range_delete append_batch
write_stored can_grow (entry seq type key value) w w' ok e =
    stored can_grow (entry_length key value) (entry_body seq type key value) w w'
      (length-entry_body seq type key value (omega (arith, ok.total_size))) ok.total_size e
write_stored can_grow (range seq begin_key end_key) w w' ok e =
    stored can_grow (entry_length begin_key end_key) (range_body seq begin_key end_key) w w'
      (length-range_body seq begin_key end_key (omega (arith, ok.total_size))) ok.total_size e
write_stored can_grow (batch seq op ops) w w' ok e =
    stored can_grow (batch_length (op ∷ ops)) (batch_body seq (op ∷ ops)) w w'
      (length-batch_body seq (op ∷ ops) (omega (arith, ok.total_size))) ok.total_size e

data IsOutcome (o : Outcome) : Type 0 where
  went : (m : Writer) → o ≡ done m → IsOutcome o
  broke : (m : Writer) → o ≡ failed m → IsOutcome o
  crashed : o ≡ fault → IsOutcome o

Outcome-cases : (o : Outcome) → IsOutcome o
Outcome-cases (done m) = went m refl
Outcome-cases (failed m) = broke m refl
Outcome-cases fault = crashed refl

write_all-log_bytes :
    (can_grow : ℕ → Bool) (xs : List LogWrite) (w w' : Writer)
    → All IsLoggable xs
    → write_all can_grow xs w ≡ done w'
    → w'.file ≡ w.file ++ log_bytes xs
unfolding write_all log_bytes
write_all-log_bytes can_grow [] w w' ok e = ground (arith, append-nil w.file)
write_all-log_bytes can_grow (x ∷ xs) w w' ok e = elim (Outcome-cases (write can_grow x w)) [
  | went m first ↦
      write_all-log_bytes can_grow xs m w' ok.1 (rw (first, write_all) at e)
      ∙ ap (λ f. f ++ log_bytes xs) (write_stored can_grow x w m ok.0 first)
      ∙ append_assoc w.file (frame (length (body_of x)) (body_of x)) (log_bytes xs)
  | broke m first ↦ absurd (ground arith)
  | crashed first ↦ absurd (ground arith)
]

-- A log that the writer has filled with well-sized puts, deletions, range deletions and batches is
-- replayed as exactly their calls on the memtable, in order, and the next sequence number is the
-- highest behind any of them; bytes behind the log from which no record can be read change nothing.
pub recover-write_all :
    (can_grow : ℕ → Bool) (xs : List LogWrite) (w : Writer) (file_size last : ℕ) (tail : List ℕ)
    → All IsLoggable xs
    → write_all can_grow xs (record { file = []; file_size = file_size; mapped = true }) ≡ done w
    → Stops tail
    → recover (w.file ++ tail) last ≡ (all_calls xs, last_of last xs)
unfolding recover
recover-write_all can_grow xs w file_size last tail ok e stop =
    let file =
      write_all-log_bytes can_grow xs (record { file = []; file_size = file_size; mapped = true }) w
        ok e in
    rw file (
      recover_loop-log xs (length (log_bytes xs ++ tail) + 1) last _ tail ok stop
        (omega (arith, length-append (log_bytes xs) tail)))

-- ===== src/Wal/Space.antt =====
-- The writer's mapping: when an append stays inside it.
use lightkv.Prelude.{
  ℕ, zero, suc, ◌+◌, ◌*◌, ◌%◌, ◌^◌, ◌≤◌, ◌<◌, ◌≡◌, refl, arith, Bool, true, none, List, ◌++◌,
  length, take, drop, length-append, leb, replicate, length-take, Bool-cases, inl, inr,
}
use lightkv.Encoding.{decode_fixed, decode_fixed32}
use lightkv.Wal.{
  WalRecord, Writer, done, failed, fault, frame, grow_file, store, append_record, read_body,
  read_record,
}
use lightkv.Wal.Frames.{length-frame}

-- The writer's file lies in its mapping.
pub record IsMapped (w : Writer) : Type 0 where
  pub present : w.mapped ≡ true
  pub inside : length w.file ≤ w.file_size

length-record :
    (w : Writer) (body : List ℕ)
    → length (w.file ++ take ((8 + length body) % 2 ^ 32) (frame (length body) body))
      ≤ length w.file + (8 + length body)
length-record w body = omega (
  arith,
  length-append w.file (take ((8 + length body) % 2 ^ 32) (frame (length body) body)),
  length-take ((8 + length body) % 2 ^ 32) (frame (length body) body),
  length-frame (length body) body,
)

-- The stores of a record for which there is room.
store-IsMapped :
    (body : List ℕ) (w : Writer)
    → w.mapped ≡ true
    → length w.file + (8 + length body) ≤ w.file_size
    → (w' : Writer) × (store (length body) body w ≡ done w') × IsMapped w'
unfolding store
store-IsMapped body w present room = (
  record w { file = w.file ++ take ((8 + length body) % 2 ^ 32) (frame (length body) body) },
  ground (arith, length-frame (length body) body),
  record { present = present; inside = omega (arith, length-record w body) },
)

-- An append to a mapped file, of a record that is no longer than the mapping, where the file can be
-- grown to twice its size: it never stores outside the mapping, and the file is mapped afterwards.
pub append_record-IsMapped :
    (can_grow : ℕ → Bool) (body : List ℕ) (w : Writer)
    → IsMapped w
    → 8 + length body < 2 ^ 32
    → 8 + length body ≤ w.file_size
    → can_grow (w.file_size * 2) ≡ true
    → (w' : Writer) × (append_record can_grow (length body) body w ≡ done w') × IsMapped w'
unfolding append_record grow_file
append_record-IsMapped can_grow body w ok small fits grows =
    elim (Bool-cases (leb w.file_size (length w.file + (8 + length body) % 2 ^ 32 + 4096))) [
      | inl full ↦ rw full (
          rw grows (
            store-IsMapped body (record w { file_size = w.file_size * 2; mapped = true }) refl
              (omega (arith, ok.inside))))
      | inr room ↦ rw room (store-IsMapped body w ok.present (ground arith))
    ]

-- A failed growth leaves the file without a mapping and its size as it was, so that a later and
-- smaller record for which the size leaves room is stored through the missing mapping.
pub append_after_failure :
    (can_grow : ℕ → Bool) (n : ℕ) (body later : List ℕ) (w m : Writer)
    → append_record can_grow n body w ≡ failed m
    → length w.file + (8 + length later) % 2 ^ 32 + 4096 < w.file_size
    → append_record can_grow (length later) later m ≡ fault
unfolding append_record grow_file store
append_after_failure can_grow n body later w m broke room = ground arith

-- Zeros, as the file that was laid out in advance has behind the last record.
decode_fixed-zeros : (n k : ℕ) → decode_fixed n (replicate k 0) ≡ 0
unfolding decode_fixed
decode_fixed-zeros zero k = refl
decode_fixed-zeros (suc n) zero = refl
decode_fixed-zeros (suc n) (suc k) = omega (arith, decode_fixed-zeros n k)

drop-zeros : (n k : ℕ) → (j : ℕ) × (drop {A = ℕ} n (replicate k 0) ≡ replicate j 0)
drop-zeros zero k = (k, refl)
drop-zeros (suc n) zero = (0, refl)
drop-zeros (suc n) (suc k) = drop-zeros n k

-- A header that says an empty record.
empty_stops :
    (old : WalRecord) (file : List ℕ)
    → decode_fixed32 (drop 4 file) ≡ 0
    → read_record old file ≡ none
unfolding read_record read_body
empty_stops old file e = rw e (ground arith)

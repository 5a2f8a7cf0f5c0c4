-- ===== src/Wal/Frames.antt =====
-- A framed record on its own: its computed length, and ReadRecord on it.
use lightkv.Prelude.{
  ℕ, zero, suc, ◌+◌, ◌%◌, ◌^◌, ◌≡◌, refl, sym, ap, ◌∙◌, arith, true, false, some, List, [], ◌∷◌,
  ◌++◌, length, take, drop, ◌>>=◌, length-append, append_assoc, ◌==◌, ltb, take-append_length,
  drop-append_length,
}
use lightkv.Encoding.{IsU32, varint_loop, fixed_bytes, decode_fixed, decode_fixed32}
use lightkv.Encoding.Fixed.{decode_fixed-fixed_bytes, length-fixed_bytes}
use lightkv.Crc.{crc_extend}
use lightkv.Crc.Laws.{crc_extend-lt}
use lightkv.Wal.{
  BatchOp, WalRecord, sized, sized_length, entry_body, entry_length, range_body, op_bytes,
  op_length, ops_bytes, ops_length, batch_body, batch_length, frame, read_body, read_record,
}
use lightkv.Wal.Fields.{length-sized, length-varint, take-length}

pub length-entry_body :
    (seq type : ℕ) (key value : List ℕ)
    → IsU32 (length (entry_body seq type key value))
    → entry_length key value ≡ length (entry_body seq type key value)
unfolding entry_body entry_length
length-entry_body seq type key value h =
    let e : length (sized key ++ (sized value ++ fixed_bytes 8 seq)) + 1
        ≡ 1 + sized_length key + sized_length value + 8 =
      omega (
        arith,
        length-append (sized key) (sized value ++ fixed_bytes 8 seq),
        length-append (sized value) (fixed_bytes 8 seq),
        length-fixed_bytes 8 seq,
        length-sized key,
        length-sized value,
      ) in
    omega (arith, e, h)

pub length-range_body :
    (seq : ℕ) (begin_key end_key : List ℕ)
    → IsU32 (length (range_body seq begin_key end_key))
    → entry_length begin_key end_key ≡ length (range_body seq begin_key end_key)
unfolding range_body entry_length
length-range_body seq begin_key end_key h =
    let e : length (sized begin_key ++ (sized end_key ++ fixed_bytes 8 seq)) + 1
        ≡ 1 + sized_length begin_key + sized_length end_key + 8 =
      omega (
        arith,
        length-append (sized begin_key) (sized end_key ++ fixed_bytes 8 seq),
        length-append (sized end_key) (fixed_bytes 8 seq),
        length-fixed_bytes 8 seq,
        length-sized begin_key,
        length-sized end_key,
      ) in
    omega (arith, e, h)

length-op_bytes : (op : BatchOp) → length (op_bytes op) ≡ op_length op
unfolding op_bytes op_length
length-op_bytes op = ground (
  arith,
  length-append (sized op.key) (sized op.begin_key ++ sized op.end_key),
  length-append (sized op.key) (sized op.value),
  length-append (sized op.begin_key) (sized op.end_key),
  length-sized op.key,
  length-sized op.value,
  length-sized op.begin_key,
  length-sized op.end_key,
)

length-ops_bytes : (ops : List BatchOp) → length (ops_bytes ops) ≡ ops_length ops
unfolding ops_bytes ops_length
length-ops_bytes [] = refl
length-ops_bytes (op ∷ ops) =
    omega
      (arith, length-append (op_bytes op) (ops_bytes ops), length-op_bytes op, length-ops_bytes ops)

pub length-batch_body :
    (seq : ℕ) (ops : List BatchOp)
    → IsU32 (length (batch_body seq ops))
    → batch_length ops ≡ length (batch_body seq ops)
unfolding batch_body batch_length
length-batch_body seq ops h =
    let n : ℕ = length ops % 2 ^ 32 in
    let e : length (varint_loop 4 n ++ (ops_bytes ops ++ fixed_bytes 8 seq))
        ≡ length (varint_loop 4 n) + ops_length ops + 8 =
      omega (
        arith,
        length-append (varint_loop 4 n) (ops_bytes ops ++ fixed_bytes 8 seq),
        length-append (ops_bytes ops) (fixed_bytes 8 seq),
        length-fixed_bytes 8 seq,
        length-ops_bytes ops,
      ) in
    omega (arith, e, h, length-varint n)

pub length-frame : (n : ℕ) (body : List ℕ) → length (frame n body) ≡ 8 + length body
unfolding frame
length-frame n body =
    let crc : ℕ = crc_extend 0 (take n body) in
    omega (
      arith,
      length-append (fixed_bytes 4 crc) (fixed_bytes 4 n ++ body),
      length-append (fixed_bytes 4 n) body,
      length-fixed_bytes 4 crc,
      length-fixed_bytes 4 n,
    )

drop_fixed : (n v : ℕ) (rest : List ℕ) → drop n (fixed_bytes n v ++ rest) ≡ rest
drop_fixed n v rest =
    ap (λ k. drop k (fixed_bytes n v ++ rest)) (sym (length-fixed_bytes n v))
    ∙ drop-append_length (fixed_bytes n v) rest

-- The header in front of anything.
header_crc :
    (crc n : ℕ) (rest : List ℕ)
    → IsU32 crc
    → decode_fixed32 (fixed_bytes 4 crc ++ (fixed_bytes 4 n ++ rest)) ≡ crc
unfolding decode_fixed32
header_crc crc n rest h =
    decode_fixed-fixed_bytes 4 crc (fixed_bytes 4 n ++ rest) (omega (arith, h))

header_len :
    (crc n : ℕ) (rest : List ℕ)
    → IsU32 n
    → decode_fixed32 (drop 4 (fixed_bytes 4 crc ++ (fixed_bytes 4 n ++ rest))) ≡ n
unfolding decode_fixed32
header_len crc n rest h =
    ap (decode_fixed 4) (drop_fixed 4 crc (fixed_bytes 4 n ++ rest))
    ∙ decode_fixed-fixed_bytes 4 n rest (omega (arith, h))

drop_nil : (k : ℕ) → drop {A = ℕ} k [] ≡ []
drop_nil zero = refl
drop_nil (suc k) = refl

drop-drop : (n m : ℕ) (xs : List ℕ) → drop (n + m) xs ≡ drop m (drop n xs)
drop-drop zero m xs = ap (λ k. drop k xs) (omega arith)
drop-drop (suc n) m [] = drop_nil (suc n + m) ∙ sym (drop_nil m)
drop-drop (suc n) m (x ∷ xs) =
    ap (λ k. drop k (x ∷ xs)) {x = suc n + m} {y = suc (n + m)} (omega arith) ∙ drop-drop n m xs

header_rest :
    (crc n : ℕ) (rest : List ℕ) → drop 8 (fixed_bytes 4 crc ++ (fixed_bytes 4 n ++ rest)) ≡ rest
header_rest crc n rest =
    drop-drop 4 4 (fixed_bytes 4 crc ++ (fixed_bytes 4 n ++ rest))
    ∙ ap (drop 4) (drop_fixed 4 crc (fixed_bytes 4 n ++ rest))
    ∙ drop_fixed 4 n rest

-- Taken off a list that begins with it.
take_all : (n : ℕ) (body rest : List ℕ) → n ≡ length body → take n (body ++ rest) ≡ body
take_all n body rest e = ap (λ k. take k (body ++ rest)) e ∙ take-append_length body rest

drop_all : (n : ℕ) (body rest : List ℕ) → n ≡ length body → drop n (body ++ rest) ≡ rest
drop_all n body rest e = ap (λ k. drop k (body ++ rest)) e ∙ drop-append_length body rest

-- A header of the right checksum and length in front of a body and anything else.
read_record-header :
    (old : WalRecord) (crc n : ℕ) (body rest : List ℕ)
    → crc ≡ crc_extend 0 body
    → n ≡ length body
    → IsU32 n
    → read_record old (fixed_bytes 4 crc ++ (fixed_bytes 4 n ++ (body ++ rest)))
      ≡ (read_body old rest body >>= λ r. some (r, rest))
unfolding read_record
read_record-header old crc n body rest right len small =
    let file : List ℕ = fixed_bytes 4 crc ++ (fixed_bytes 4 n ++ (body ++ rest)) in
    let size : length file ≡ 8 + length body + length rest = omega (
      arith,
      length-append (fixed_bytes 4 crc) (fixed_bytes 4 n ++ (body ++ rest)),
      length-append (fixed_bytes 4 n) (body ++ rest),
      length-append body rest,
      length-fixed_bytes 4 crc,
      length-fixed_bytes 4 n,
    ) in
    let c = header_crc crc n (body ++ rest) (rw right (crc_extend-lt 0 body (omega arith))) in
    let l = header_len crc n (body ++ rest) small in
    let t = ap (take n) (header_rest crc n (body ++ rest)) ∙ take_all n body rest len in
    let d = ap (drop n) (header_rest crc n (body ++ rest)) ∙ drop_all n body rest len in
    let long : ltb (length file) 8 ≡ false = ground arith in
    let whole : ltb (length file) (8 + n) ≡ false = ground arith in
    let same : (crc == crc_extend 0 body) ≡ true = ground arith in
    rw l (rw c (rw t (rw d (rw long (rw whole (rw same refl))))))

-- A whole record in front of anything else.
pub read_record-frame :
    (old : WalRecord) (body rest : List ℕ)
    → IsU32 (length body)
    → read_record old (frame (length body) body ++ rest)
      ≡ (read_body old rest body >>= λ r. some (r, rest))
unfolding frame
read_record-frame old body rest small =
    let crc : ℕ = crc_extend 0 (take (length body) body) in
    ap (read_record old) (
      append_assoc (fixed_bytes 4 crc) (fixed_bytes 4 (length body) ++ body) rest
      ∙ ap (λ l. fixed_bytes 4 crc ++ l) (append_assoc (fixed_bytes 4 (length body)) body rest))
    ∙ read_record-header old crc (length body) body rest (ap (crc_extend 0) (take-length body)) refl
        small

-- ===== src/Wal/Records.antt =====
-- ReadRecord behind the checksum reads back what the three appends wrote.
use lightkv.Prelude.{
  ℕ, ◌≡◌, ◌≢◌, refl, ap, ◌∙◌, arith, true, false, some, List, [], ◌∷◌, ◌++◌, length, ◌>>=◌,
  append_assoc, All, ◌==◌, if◌then◌else◌, Bool-cases, inl, inr,
}
use native.Mathlib.Nat.{mod-eq_of_lt}
use lightkv.Encoding.{IsU32, IsU64, IsByte, fixed_bytes, decode_fixed64}
use lightkv.Encoding.Fixed.{decode_fixed-fixed_bytes}
use lightkv.Encoding.Varint.{get_varint32-put}
use lightkv.Wal.{
  range_deletion_type, batch_type, BatchOp, WalRecord, sized, entry_body, range_body, op_bytes,
  ops_bytes, batch_body, read_field, read_operands, read_op, read_ops, read_body,
}
use lightkv.Wal.Fields.{read_field-sized}

-- An operation that the log can hold.
pub record Fits (op : BatchOp) : Type 0 where
  pub type_byte : IsByte op.type
  pub key_size : IsU32 (length op.key)
  pub value_size : IsU32 (length op.value)
  pub begin_size : IsU32 (length op.begin_key)
  pub end_size : IsU32 (length op.end_key)

-- The operation without what its type does not use.
unfoldable pub settled : BatchOp → BatchOp
settled op =
    if op.type == range_deletion_type
    then record op { value = [] }
    else record op { begin_key = []; end_key = [] }

read_two :
    (a b rest : List ℕ)
    → IsU32 (length a)
    → IsU32 (length b)
    → (read_field ((sized a ++ sized b) ++ rest) ≡ some (a, sized b ++ rest))
      × (read_field (sized b ++ rest) ≡ some (b, rest))
read_two a b rest h k = (
  ap read_field (append_assoc (sized a) (sized b) rest) ∙ read_field-sized a (sized b ++ rest) h,
  read_field-sized b rest k,
)

read_operands-range :
    (type : ℕ) (key begin_key end_key rest : List ℕ)
    → (type == range_deletion_type) ≡ true
    → IsU32 (length begin_key)
    → IsU32 (length end_key)
    → read_operands type key ((sized begin_key ++ sized end_key) ++ rest)
      ≡ some (
        record { type = type; key = key; value = []; begin_key = begin_key; end_key = end_key },
        rest,
      )
unfolding read_operands
read_operands-range type key begin_key end_key rest range h k =
    let (first, second) = read_two begin_key end_key rest h k in
    rw range (rw (first, ◌>>=◌) (rw (second, ◌>>=◌) refl))

read_operands-value :
    (type : ℕ) (key value rest : List ℕ)
    → (type == range_deletion_type) ≡ false
    → IsU32 (length value)
    → read_operands type key (sized value ++ rest)
      ≡ some (record { type = type; key = key; value = value; begin_key = []; end_key = [] }, rest)
unfolding read_operands
read_operands-value type key value rest other h =
    rw other (rw (read_field-sized value rest h, ◌>>=◌) refl)

-- The operands of an operation, as op_bytes lays them out.
abbrev operands : BatchOp → List ℕ
operands op =
    if op.type == range_deletion_type
    then sized op.begin_key ++ sized op.end_key
    else sized op.value

read_operands-operands :
    (op : BatchOp) (rest : List ℕ)
    → Fits op
    → read_operands op.type op.key (operands op ++ rest) ≡ some (settled op, rest)
unfolding settled
read_operands-operands op rest fits = elim (Bool-cases (op.type == range_deletion_type)) [
  | inl range ↦ rw range (
      read_operands-range op.type op.key op.begin_key op.end_key rest range fits.begin_size
        fits.end_size)
  | inr other ↦ rw other (read_operands-value op.type op.key op.value rest other fits.value_size)
]

read_op-op_bytes :
    (op : BatchOp) (rest : List ℕ)
    → Fits op
    → read_op (op_bytes op ++ rest) ≡ some (settled op, rest)
unfolding read_op op_bytes
read_op-op_bytes op rest fits =
    ap (λ t. read_op (t ∷ ((sized op.key ++ operands op) ++ rest))) (mod-eq_of_lt fits.type_byte)
    ∙ ap (λ o. o >>= λ (key, p). read_operands op.type key p)
        (ap read_field (append_assoc (sized op.key) (operands op) rest)
          ∙ read_field-sized op.key (operands op ++ rest) fits.key_size)
    ∙ read_operands-operands op rest fits

unfoldable pub settle_all : List BatchOp → List BatchOp
settle_all [] = []
settle_all (op ∷ ops) = settled op ∷ settle_all ops

read_ops-ops_bytes :
    (ops : List BatchOp) (rest : List ℕ)
    → All Fits ops
    → read_ops (length ops) (ops_bytes ops ++ rest) ≡ some (settle_all ops, rest)
unfolding read_ops ops_bytes settle_all
read_ops-ops_bytes [] rest fits = refl
read_ops-ops_bytes (op ∷ ops) rest fits =
    ap (λ l. read_op l >>= λ (o, p1). read_ops (length ops) p1 >>= λ (os, p2). some (o ∷ os, p2))
      (append_assoc (op_bytes op) (ops_bytes ops) rest)
    ∙ ap (λ o. o >>= λ (o, p1). read_ops (length ops) p1 >>= λ (os, p2). some (o ∷ os, p2))
        (read_op-op_bytes op (ops_bytes ops ++ rest) fits.0)
    ∙ ap (λ o. o >>= λ (os, p2). some (settled op ∷ os, p2)) (read_ops-ops_bytes ops rest fits.1)

-- The sequence number stands last.
seq_lem :
    (seq : ℕ) (behind : List ℕ) → IsU64 seq → decode_fixed64 (fixed_bytes 8 seq ++ behind) ≡ seq
unfolding decode_fixed64
seq_lem seq behind h = decode_fixed-fixed_bytes 8 seq behind (omega (arith, h))

-- What Append wrote is read back, whatever the bytes behind the record.
pub read_body-entry :
    (old : WalRecord) (seq type : ℕ) (key value behind : List ℕ)
    → IsU64 seq
    → IsByte type
    → type ≢ range_deletion_type
    → type ≢ batch_type
    → IsU32 (length key)
    → IsU32 (length value)
    → read_body old behind (entry_body seq type key value)
      ≡ some (record old { type = type; key = key; value = value; seq = seq })
unfolding read_body entry_body
read_body-entry old seq type key value behind hs ht not_range not_batch hk hv =
    let tail : List ℕ = fixed_bytes 8 seq in
    let k = read_field-sized key (sized value ++ tail) hk in
    let v = read_field-sized value tail hv in
    let range : (type == range_deletion_type) ≡ false = ground arith in
    let batch : (type == batch_type) ≡ false = ground arith in
    rw (mod-eq_of_lt ht)
      (rw range (rw batch (rw (k, ◌>>=◌) (rw (v, ◌>>=◌) (rw (seq_lem seq behind hs) refl)))))

pub read_body-range :
    (old : WalRecord) (seq : ℕ) (begin_key end_key behind : List ℕ)
    → IsU64 seq
    → IsU32 (length begin_key)
    → IsU32 (length end_key)
    → read_body old behind (range_body seq begin_key end_key)
      ≡ some (record old {
        type = range_deletion_type;
        begin_key = begin_key;
        end_key = end_key;
        seq = seq;
      })
unfolding read_body range_body
read_body-range old seq begin_key end_key behind hs hb he =
    let tail : List ℕ = fixed_bytes 8 seq in
    let b = read_field-sized begin_key (sized end_key ++ tail) hb in
    let e = read_field-sized end_key tail he in
    rw (b, ◌>>=◌) (rw (e, ◌>>=◌) (rw (seq_lem seq behind hs) refl))

pub read_body-batch :
    (old : WalRecord) (seq : ℕ) (ops : List BatchOp) (behind : List ℕ)
    → IsU64 seq
    → IsU32 (length ops)
    → All Fits ops
    → read_body old behind (batch_body seq ops)
      ≡ some (record old { type = batch_type; batch_ops = settle_all ops; seq = seq })
unfolding read_body batch_body
read_body-batch old seq ops behind hs hn fits =
    let tail : List ℕ = fixed_bytes 8 seq in
    let n = get_varint32-put (length ops) (ops_bytes ops ++ tail) hn in
    let o = read_ops-ops_bytes ops tail fits in
    rw (mod-eq_of_lt hn) (rw (n, ◌>>=◌) (rw (o, ◌>>=◌) (rw (seq_lem seq behind hs) refl)))

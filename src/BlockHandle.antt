-- ===== src/BlockHandle.antt =====
-- src/block_handle.cpp: the place of a block in a table file.
use lightkv.Prelude.{
  ℕ, ◌≡◌, sym, ap, ◌∙◌, arith, Bool, false, not, Option, some, List, [], ◌∷◌, ◌++◌, ◌==◌,
  if◌then◌else◌, ◌>>=◌, append_assoc, append-nil,
}
use lightkv.Encoding.{IsU64, varint_loop, put_varint64, get_varint64}
use lightkv.Encoding.Varint.{get_varint64-put}

pub record BlockHandle : Type 0 where
  pub offset : ℕ
  pub size : ℕ
  pub is_compressed : Bool

-- BlockHandle::EncodeTo
pub encode_handle : BlockHandle → List ℕ → List ℕ
encode_handle h dst =
    put_varint64 (put_varint64 dst h.offset) h.size ++ (if h.is_compressed then 1 else 0) ∷ []

-- The last byte may be missing, in handles written before there was one.
pub read_flag : ℕ → ℕ → List ℕ → BlockHandle
read_flag offset size [] = record { offset = offset; size = size; is_compressed = false }
read_flag offset size (b ∷ p) = record {
  offset = offset;
  size = size;
  is_compressed = not (b == 0);
}

-- BlockHandle::DecodeFrom; `none` is the result `false`.
pub decode_handle : List ℕ → Option BlockHandle
unfolding read_flag
decode_handle input = do
  (offset, p1) ← get_varint64 input
  (size, p2) ← get_varint64 p1
  some (read_flag offset size p2)

read_flag-flag :
    (h : BlockHandle) (rest : List ℕ)
    → read_flag h.offset h.size ((if h.is_compressed then 1 else 0) ∷ rest) ≡ h
unfolding read_flag
read_flag-flag h rest = ground arith

-- A handle of 64-bit numbers is decoded as it was encoded, whatever follows it.
pub handle_round_trip :
    (h : BlockHandle) (rest : List ℕ)
    → IsU64 h.offset
    → IsU64 h.size
    → decode_handle (encode_handle h [] ++ rest) ≡ some h
unfolding decode_handle encode_handle put_varint64
handle_round_trip h rest ho hs =
    let flag : List ℕ = (if h.is_compressed then 1 else 0) ∷ [] in
    let layout : ((varint_loop 9 h.offset ++ varint_loop 9 h.size) ++ flag) ++ rest
        ≡ varint_loop 9 h.offset ++ (varint_loop 9 h.size ++ (flag ++ rest)) =
      append_assoc (varint_loop 9 h.offset ++ varint_loop 9 h.size) flag rest
      ∙ append_assoc (varint_loop 9 h.offset) (varint_loop 9 h.size) (flag ++ rest) in
    ap (λ l. get_varint64 l >>= λ (o, p1). get_varint64 p1 >>= λ (s, p2). some (read_flag o s p2))
      layout
    ∙ ap (λ r. r >>= λ (o, p1). get_varint64 p1 >>= λ (s, p2). some (read_flag o s p2))
        (get_varint64-put h.offset (varint_loop 9 h.size ++ (flag ++ rest)) ho)
    ∙ ap (λ r. r >>= λ (s, p2). some (read_flag h.offset s p2))
        (get_varint64-put h.size (flag ++ rest) hs)
    ∙ ap some (read_flag-flag h rest)

-- A handle without its last byte is decoded as not compressed.
pub old_handle :
    (h : BlockHandle)
    → IsU64 h.offset
    → IsU64 h.size
    → decode_handle (put_varint64 (put_varint64 [] h.offset) h.size)
      ≡ some (record h { is_compressed = false })
unfolding decode_handle put_varint64
old_handle h ho hs =
    ap (λ r. r >>= λ (o, p1). get_varint64 p1 >>= λ (s, p2). some (read_flag o s p2))
      (get_varint64-put h.offset (varint_loop 9 h.size) ho)
    ∙ ap (λ l. get_varint64 l >>= λ (s, p2). some (read_flag h.offset s p2))
        (sym (append-nil (varint_loop 9 h.size)))
    ∙ ap (λ r. r >>= λ (s, p2). some (read_flag h.offset s p2)) (get_varint64-put h.size [] hs)

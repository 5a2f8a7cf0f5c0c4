-- ===== src/InternalKey/Trailer.antt =====
-- Packing and unpacking: what is put into an internal key is taken out of it.
use lightkv.Prelude.{
  ℕ, zero, suc, ◌+◌, ◌-◌, ◌*◌, ◌/◌, ◌%◌, ◌^◌, ◌<◌, bit_and, bit_or, List, [], ◌∷◌, ◌++◌, false,
  length, drop, ltb, ◌≡◌, refl, ap, ◌∙◌, arith, false, length-append, drop-append_length, length,
  take-append_length,
}
use native.Mathlib.Nat.{pow-suc}
use lightkv.Prelude.Bits.{bit_and_mask, bit_or_high}
use lightkv.InternalKey.{
  pack_trailer, unpack_seq, unpack_type, big_endian, big_endian_loop, decode_big_endian,
  make_internal_key, extract_user_key, extract_seq, extract_type, complement64,
}

pub length-big_endian : (n v : ℕ) → length (big_endian n v) ≡ n
unfolding big_endian
length-big_endian zero v = refl
length-big_endian (suc n) v = rw length-append (omega (arith, length-big_endian n (v / 256)))

low_byte : (v : ℕ) → bit_and v 0xFF ≡ v % 256
low_byte v = bit_and_mask 8 v

-- One round of the decoder, where nothing is shifted out.
shift_in : (v b : ℕ) → b < 256 → v < 2 ^ 56 → bit_or (v * 2 ^ 8 % 2 ^ 64) b ≡ v * 256 + b
shift_in v b h k =
    let fits : v * 2 ^ 8 % 2 ^ 64 ≡ v * 2 ^ 8 = omega arith in
    rw fits (omega (arith, bit_or_high 8 b v h))

loop-snoc :
    (n done b : ℕ) (xs : List ℕ)
    → length xs ≡ n
    → big_endian_loop (suc n) done (xs ++ b ∷ [])
      ≡ bit_or (big_endian_loop n done xs * 2 ^ 8 % 2 ^ 64) b
unfolding big_endian_loop
loop-snoc zero done b [] h = refl
loop-snoc zero done b (x ∷ xs) h = absurd (omega arith)
loop-snoc (suc n) done b [] h = absurd (omega arith)
loop-snoc (suc n) done b (x ∷ xs) h =
    loop-snoc n (bit_or (done * 2 ^ 8 % 2 ^ 64) x) b xs (omega arith)

loop-big_endian : (n v : ℕ) → v < 256 ^ n → v < 2 ^ 64 → big_endian_loop n 0 (big_endian n v) ≡ v
unfolding big_endian
loop-big_endian zero v h k = unfold big_endian_loop in omega arith
loop-big_endian (suc n) v h k =
    loop-snoc n 0 (bit_and v 0xFF) (big_endian n (v / 256)) (length-big_endian n (v / 256))
    ∙ ap (λ t. bit_or (t * 2 ^ 8 % 2 ^ 64) (bit_and v 0xFF))
        (loop-big_endian n (v / 256) (omega (arith, pow-suc 256 n)) (omega arith))
    ∙ ap (bit_or (v / 256 * 2 ^ 8 % 2 ^ 64)) (low_byte v)
    ∙ shift_in (v / 256) (v % 256) (omega arith) (omega arith)
    ∙ omega arith

pub decode-big_endian : (v : ℕ) → v < 2 ^ 64 → decode_big_endian (big_endian 8 v) ≡ v
unfolding decode_big_endian
decode-big_endian v h = loop-big_endian 8 v (omega arith) h

-- The packed trailer as arithmetic, for a sequence number of 56 bits.
pub pack_trailer_value :
    (seq type : ℕ)
    → seq < 2 ^ 56
    → type < 256
    → pack_trailer seq type ≡ 2 ^ 64 - 1 - (seq * 256 + type)
unfolding pack_trailer
pack_trailer_value seq type h k = ap complement64 (shift_in seq type k h)

abbrev packed : ℕ → ℕ → List ℕ
packed seq type = big_endian 8 (pack_trailer seq type)

pub length-make : (k : List ℕ) (seq type : ℕ) → length (make_internal_key k seq type) ≡ length k + 8
unfolding make_internal_key
length-make k seq type = length-append k _ ∙ ap (λ (n : ℕ). length k + n) (length-big_endian 8 _)

pub drop-make :
    (k : List ℕ) (seq type : ℕ) → drop (length k) (make_internal_key k seq type) ≡ packed seq type
unfolding make_internal_key
drop-make k seq type = drop-append_length k _

pub pack_trailer-lt : (seq type : ℕ) → pack_trailer seq type < 2 ^ 64
unfolding pack_trailer
pack_trailer-lt seq type = omega arith

-- An internal key gives back its user key, and, for a sequence number below 2^56 and a type byte,
-- its sequence number and its type.
pub internal_key_round_trip :
    (k : List ℕ) (seq type : ℕ)
    → seq < 2 ^ 56
    → type < 256
    → (extract_user_key (make_internal_key k seq type) ≡ k)
      × (extract_seq (make_internal_key k seq type) ≡ seq)
      × (extract_type (make_internal_key k seq type) ≡ type)
internal_key_round_trip k seq type h t = (user, number, kind)
  where
    size : length (make_internal_key k seq type) - 8 ≡ length k
    size = omega (arith, length-make k seq type)

    long : ltb (length (make_internal_key k seq type)) 8 ≡ false
    long = ground (arith, length-make k seq type)

    bytes :
        decode_big_endian
          (drop (length (make_internal_key k seq type) - 8) (make_internal_key k seq type))
        ≡ 2 ^ 64 - 1 - (seq * 256 + type)
    bytes =
        ap (λ n. decode_big_endian (drop n (make_internal_key k seq type))) size
        ∙ ap decode_big_endian (drop-make k seq type)
        ∙ decode-big_endian _ (pack_trailer-lt seq type)
        ∙ pack_trailer_value seq type h t

    user : extract_user_key (make_internal_key k seq type) ≡ k
    user =
        unfold extract_user_key in
        rw (long, size) (unfold make_internal_key in take-append_length k _)

    number : extract_seq (make_internal_key k seq type) ≡ seq
    number = unfold extract_seq unpack_seq in rw (long, bytes) (omega arith)

    kind : extract_type (make_internal_key k seq type) ≡ type
    kind = unfold extract_type unpack_type in rw (long, bytes, low_byte) (omega arith)

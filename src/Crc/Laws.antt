-- ===== src/Crc/Laws.antt =====
-- The table is that of the reflected Castagnoli polynomial, and a checksum may be taken in parts.
use lightkv.Prelude.{
  ℕ, zero, suc, ◌/◌, ◌%◌, ◌^◌, ◌<◌, bit_and, bit_xor, List, [], ◌∷◌, ◌++◌, get_or, true, ◌==◌,
  if◌then◌else◌, ◌≡◌, refl, ap, sym, ◌∙◌, ==_iff, arith, ltb, ltb→lt,
}
use lightkv.Prelude.Bits.{all_below, all_below_sound, bit_xor_cancel, bit_xor-lt, bit_and_mask}
use lightkv.Crc.{crc_table, crc_loop, crc_extend, crc32c}

-- `n` steps of long division by the reflected polynomial 0x82F63B78, one bit each.
pub divide_bits : ℕ → ℕ → ℕ
divide_bits zero r = r
divide_bits (suc n) r = divide_bits n (if r % 2 == 0 then r / 2 else bit_xor (r / 2) 0x82F63B78)

table_check : all_below 256 (λ i. get_or crc_table i 0 == divide_bits 8 i) ≡ true
unfolding all_below crc_table divide_bits
table_check = refl

-- Entry i of kCrc32cTable is the remainder of the byte i by the polynomial of CRC-32C.
pub crc_table-divide_bits : (i : ℕ) → i < 256 → get_or crc_table i 0 ≡ divide_bits 8 i
crc_table-divide_bits i h = (==_iff _ _).0 (all_below_sound 256 _ i table_check h)

abbrev next_crc : ℕ → ℕ → ℕ
next_crc crc b = bit_xor (get_or crc_table (bit_and (bit_xor crc b) 0xFF) 0) (crc / 2 ^ 8)

crc_loop-append : (crc : ℕ) (a b : List ℕ) → crc_loop crc (a ++ b) ≡ crc_loop (crc_loop crc a) b
unfolding crc_loop
crc_loop-append crc [] b = refl
crc_loop-append crc (x ∷ a) b = crc_loop-append (next_crc crc x) a b

-- Extending the checksum of a first part over a second is the checksum of both parts.
pub crc_extend-append :
    (crc : ℕ) (a b : List ℕ) → crc_extend (crc_extend crc a) b ≡ crc_extend crc (a ++ b)
unfolding crc_extend
crc_extend-append crc a b =
    ap (λ t. bit_xor (crc_loop t b) 0xFFFFFFFF)
      (bit_xor_cancel (crc_loop (bit_xor crc 0xFFFFFFFF) a) 0xFFFFFFFF)
    ∙ ap (λ t. bit_xor t 0xFFFFFFFF) (sym (crc_loop-append (bit_xor crc 0xFFFFFFFF) a b))

-- The checksum of the nine digits, as RFC 3720 has it.
check_value :
    crc32c (0x31 ∷ 0x32 ∷ 0x33 ∷ 0x34 ∷ 0x35 ∷ 0x36 ∷ 0x37 ∷ 0x38 ∷ 0x39 ∷ []) ≡ 0xE3069283
unfolding crc32c crc_extend crc_loop crc_table
check_value = refl

range_check : all_below 256 (λ i. ltb (get_or crc_table i 0) (2 ^ 32)) ≡ true
unfolding all_below crc_table
range_check = refl

entry-lt : (x : ℕ) → get_or crc_table (bit_and x 0xFF) 0 < 2 ^ 32
entry-lt x =
    ltb→lt _ _
      (all_below_sound 256 _ (bit_and x 0xFF) range_check (rw (bit_and_mask 8 x) (omega arith)))

loop-lt : (crc : ℕ) (bytes : List ℕ) → crc < 2 ^ 32 → crc_loop crc bytes < 2 ^ 32
unfolding crc_loop
loop-lt crc [] h = h
loop-lt crc (b ∷ rest) h =
    loop-lt (next_crc crc b) rest
      (bit_xor-lt 32 _ (crc / 2 ^ 8) (entry-lt (bit_xor crc b)) (omega arith))

-- A checksum has 32 bits.
pub crc_extend-lt : (crc : ℕ) (bytes : List ℕ) → crc < 2 ^ 32 → crc_extend crc bytes < 2 ^ 32
unfolding crc_extend
crc_extend-lt crc bytes h =
    bit_xor-lt 32 _ _ (loop-lt _ bytes (bit_xor-lt 32 crc 0xFFFFFFFF h (omega arith))) (omega arith)

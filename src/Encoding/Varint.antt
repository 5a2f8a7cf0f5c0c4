-- ===== src/Encoding/Varint.antt =====
-- Varints of encoding.h: the decoder reads back what the encoder wrote, and stops there.
use lightkv.Prelude.{
  ℕ, zero, suc, ◌+◌, ◌*◌, ◌/◌, ◌%◌, ◌^◌, ◌≤◌, ◌<◌, ◌≡◌, ap, bit_and, bit_or, ◌≢◌, Option, none,
  some, Option-cases, append-nil, sym, List, [], ◌∷◌, ◌++◌, arith, length, All, leb, Bool-cases,
  inl, inr, ◌∙◌,
}
use native.Mathlib.Nat.{mod-eq_of_lt, div-add-mod, pow-suc}
use native.Mathlib.Numerals.{towards_suc}
use lightkv.Prelude.Bits.{bit_and_mask, bit_or_disjoint, top_bit}
use lightkv.Encoding.{
  IsByte, IsU32, IsU64, varint_loop, get_varint_loop, put_varint32, get_varint32, put_varint64,
  get_varint64, varint_length, length_loop,
}

low_seven : (a : ℕ) → bit_and a 0x7F ≡ a % 128
low_seven a = bit_and_mask 7 a

inner_byte : (v : ℕ) → bit_or (bit_and v 0x7F) 0x80 % 256 ≡ v % 128 + 128
inner_byte v = rw low_seven (omega (arith, bit_or_disjoint 7 (v % 128) 1 (omega arith)))

-- A group that fits the width is added.
add_group :
    (width shift result g : ℕ)
    → result < 2 ^ shift
    → result + g * 2 ^ shift < 2 ^ width
    → bit_or result (g * 2 ^ shift % 2 ^ width) ≡ result + g * 2 ^ shift
add_group width shift result g h k =
    ap (bit_or result) {x = g * 2 ^ shift % 2 ^ width} {y = g * 2 ^ shift}
      (mod-eq_of_lt (omega arith))
    ∙ bit_or_disjoint shift result g h

-- One round on a last byte, and on a byte with its top bit set.
last_round :
    (width rounds shift result w : ℕ) (rest : List ℕ)
    → w < 128
    → result < 2 ^ shift
    → result + w * 2 ^ shift < 2 ^ width
    → get_varint_loop width (suc rounds) shift result (w ∷ rest)
      ≡ some (result + w * 2 ^ shift, rest)
unfolding get_varint_loop
last_round width rounds shift result w rest small fits bound =
    ground (arith, top_bit w, add_group width shift result w)

inner_round :
    (width rounds shift result g : ℕ) (rest : List ℕ)
    → g < 128
    → result < 2 ^ shift
    → result + g * 2 ^ shift < 2 ^ width
    → get_varint_loop width (suc rounds) shift result ((g + 128) ∷ rest)
      ≡ get_varint_loop width rounds (shift + 7) (result + g * 2 ^ shift) rest
unfolding get_varint_loop
inner_round width rounds shift result g rest small fits bound =
    ground (arith, top_bit (g + 128), low_seven (g + 128), add_group width shift result g)

shift_seven : (s : ℕ) → 2 ^ (s + 7) ≡ 128 * 2 ^ s
shift_seven s = simp towards_suc (omega arith)

split_group : (v s : ℕ) → v * 2 ^ s ≡ v % 128 * 2 ^ s + v / 128 * 2 ^ (s + 7)
split_group v s = omega (
  arith,
  ap (λ (t : ℕ). t * 2 ^ s) (div-add-mod v 128),
  ap (λ (t : ℕ). v / 128 * t) (shift_seven s),
)

group_fits : (s r g : ℕ) → r < 2 ^ s → g < 128 → r + g * 2 ^ s < 2 ^ (s + 7)
group_fits s r g h k = grind (arith, shift_seven s)

-- Reading what the loop of PutVarint wrote, from any state of the reader.
pub get_varint-varint :
    (width fuel v shift result : ℕ) (rest : List ℕ)
    → v < 128 ^ suc fuel
    → result < 2 ^ shift
    → result + v * 2 ^ shift < 2 ^ width
    → get_varint_loop width (suc fuel) shift result (varint_loop fuel v ++ rest)
      ≡ some (result + v * 2 ^ shift, rest)
unfolding varint_loop
get_varint-varint width zero v shift result rest small fits bound =
    ground (arith, last_round width zero shift result v rest)
get_varint-varint width (suc fuel) v shift result rest small fits bound =
    elim (Bool-cases (leb 0x80 v)) [
      | inl more ↦ rw more (
          ap
            (λ b.
              get_varint_loop width (suc (suc fuel)) shift result
                (b ∷ varint_loop fuel (v / 128) ++ rest))
            (inner_byte v)
          ∙ inner_round width (suc fuel) shift result (v % 128) (varint_loop fuel (v / 128) ++ rest)
              (omega arith) fits (omega (arith, split_group v shift))
          ∙ get_varint-varint width fuel (v / 128) (shift + 7) (result + v % 128 * 2 ^ shift) rest
              (omega (arith, pow-suc 128 (suc fuel)))
              (group_fits shift result (v % 128) fits (omega arith))
              (omega (arith, split_group v shift))
          ∙ ap (λ t. some (t, rest)) (omega (arith, split_group v shift)))
      | inr done ↦ rw done (
          ap (λ b. get_varint_loop width (suc (suc fuel)) shift result (b ∷ rest)) (ground arith)
          ∙ last_round width (suc fuel) shift result v rest (ground arith) fits bound)
    ]

pub get_varint32-put :
    (v : ℕ) (rest : List ℕ) → IsU32 v → get_varint32 (varint_loop 4 v ++ rest) ≡ some (v, rest)
unfolding get_varint32
get_varint32-put v rest h =
    get_varint-varint 32 4 v 0 0 rest (omega arith) (omega arith) (omega arith)
    ∙ ap (λ t. some (t, rest)) (omega arith)

pub get_varint64-put :
    (v : ℕ) (rest : List ℕ) → IsU64 v → get_varint64 (varint_loop 9 v ++ rest) ≡ some (v, rest)
unfolding get_varint64
get_varint64-put v rest h =
    get_varint-varint 64 9 v 0 0 rest (omega arith) (omega arith) (omega arith)
    ∙ ap (λ t. some (t, rest)) (omega arith)

-- For every 32-bit and every 64-bit value, what PutVarint32 or PutVarint64 wrote is read back by
-- GetVarint32 or GetVarint64, which stops at the first byte behind it.
pub varint_round_trip :
    (v w : ℕ) (rest : List ℕ)
    → IsU32 v
    → IsU64 w
    → (get_varint32 (put_varint32 [] v ++ rest) ≡ some (v, rest))
      × (get_varint64 (put_varint64 [] w ++ rest) ≡ some (w, rest))
unfolding put_varint32 put_varint64
varint_round_trip v w rest h k = (get_varint32-put v rest h, get_varint64-put w rest k)

length_loop-varint :
    (fuel v len : ℕ) → length_loop fuel v len + 1 ≡ len + length (varint_loop fuel v)
unfolding length_loop varint_loop
length_loop-varint zero v len = omega arith
length_loop-varint (suc fuel) v len = ground (arith, length_loop-varint fuel (v / 128) (len + 1))

-- VarintLength is the number of bytes that PutVarint32 appends.
pub varint_length-put : (v : ℕ) → varint_length v ≡ length (put_varint32 [] v)
unfolding varint_length put_varint32
varint_length-put v = omega (arith, length_loop-varint 4 v 1)

pub length-varint_loop :
    (fuel v : ℕ) → (1 ≤ length (varint_loop fuel v)) × (length (varint_loop fuel v) ≤ fuel + 1)
unfolding varint_loop
length-varint_loop zero v = omega arith
length-varint_loop (suc fuel) v = ground (arith, length-varint_loop fuel (v / 128))

pub varint_loop-IsByte : (fuel v : ℕ) → All IsByte (varint_loop fuel v)
unfolding varint_loop
varint_loop-IsByte zero v = omega arith
varint_loop-IsByte (suc fuel) v = ground (arith, varint_loop-IsByte fuel (v / 128))

-- A successful read leaves a proper suffix, and bytes added behind the input join it.
get_varint_loop_extends :
    (width rounds shift result : ℕ) (p more : List ℕ) {v : ℕ} {rest : List ℕ}
    → get_varint_loop width rounds shift result p ≡ some (v, rest)
    → (length rest < length p)
      × (get_varint_loop width rounds shift result (p ++ more) ≡ some (v, rest ++ more))
unfolding get_varint_loop
get_varint_loop_extends width zero shift result p more h = cc
get_varint_loop_extends width (suc rounds) shift result [] more h = cc
get_varint_loop_extends width (suc rounds) shift result (byte ∷ p) more {v} {rest} h = ground (
  arith,
  get_varint_loop_extends width rounds (shift + 7)
      (bit_or result (bit_and byte 0x7F * 2 ^ shift % 2 ^ width)) p more {v = v} {rest = rest},
)

pub get_varint32_shrinks :
    (p : List ℕ) {v : ℕ} {rest : List ℕ} → get_varint32 p ≡ some (v, rest) → length rest < length p
unfolding get_varint32
get_varint32_shrinks p h = (get_varint_loop_extends 32 5 0 0 p [] h).0

pub get_varint64_extends :
    (p more : List ℕ) {v : ℕ} {rest : List ℕ}
    → get_varint64 p ≡ some (v, rest)
    → get_varint64 (p ++ more) ≡ some (v, rest ++ more)
unfolding get_varint64
get_varint64_extends p more h = (get_varint_loop_extends 64 10 0 0 p more h).1

pub get_varint32_extends :
    (p more : List ℕ) {v : ℕ} {rest : List ℕ}
    → get_varint32 p ≡ some (v, rest)
    → get_varint32 (p ++ more) ≡ some (v, rest ++ more)
unfolding get_varint32
get_varint32_extends p more h = (get_varint_loop_extends 32 5 0 0 p more h).1

some_rest :
    {u v : ℕ} {r t : List ℕ} → ◌≡◌ {A = Option (ℕ × List ℕ)} (some (u, r)) (some (v, t)) → r ≡ t
some_rest e = cc

not-nil_append : (rest : List ℕ) (x : ℕ) (back : List ℕ) → rest ++ x ∷ back ≢ []
not-nil_append [] x back e = cc
not-nil_append (y ∷ rest) x back e = cc

-- A reader that ignores what is added behind its input fails on the front of what it reads whole.
prefix_fails :
    (get : List ℕ → Option (ℕ × List ℕ)) (whole front : List ℕ) (v x : ℕ) (back : List ℕ)
    → ((u : ℕ) (rest : List ℕ)
        → get front ≡ some (u, rest)
        → get (front ++ x ∷ back) ≡ some (u, rest ++ x ∷ back))
    → get (whole ++ []) ≡ some (v, [])
    → whole ≡ front ++ x ∷ back
    → get front ≡ none
prefix_fails get whole front v x back extends reads e = elim (Option-cases (get front)) [
  | inl stopped ↦ stopped
  | inr ((u, rest), r) ↦ absurd (
      not-nil_append rest x back
        (some_rest (sym (extends u rest r) ∙ ap get (sym e ∙ sym (append-nil whole)) ∙ reads)))
]

-- No reader gets a value from a proper prefix of a varint.
pub varint32_truncated :
    (v x : ℕ) (front back : List ℕ)
    → IsU32 v
    → put_varint32 [] v ≡ front ++ x ∷ back
    → get_varint32 front ≡ none
unfolding put_varint32
varint32_truncated v x front back small =
    prefix_fails get_varint32 (varint_loop 4 v) front v x back
      (λ u rest. get_varint32_extends front (x ∷ back)) (get_varint32-put v [] small)

-- GetVarint64 on a proper prefix of what PutVarint64 wrote for a 64-bit value fails.
pub varint64_truncated :
    (v x : ℕ) (front back : List ℕ)
    → IsU64 v
    → put_varint64 [] v ≡ front ++ x ∷ back
    → get_varint64 front ≡ none
unfolding put_varint64
varint64_truncated v x front back small =
    prefix_fails get_varint64 (varint_loop 9 v) front v x back
      (λ u rest. get_varint64_extends front (x ∷ back)) (get_varint64-put v [] small)

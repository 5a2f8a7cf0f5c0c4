-- ===== src/Prelude/Digits.antt =====
-- The binary digits of a number, and what `&` and `|` with a power of two do to them.
use Prim.Native.Nat.{ℕ, zero, suc, ◌+◌, ◌*◌, ◌/◌, ◌%◌, ◌^◌, max, min, bit_and, bit_or}
use mathlib.Core.Path.{◌≡◌, refl, ap, ◌∙◌}
use native.Mathlib.Omega.{arith}
use lightkv.Prelude.Bits.{bit_or_digit, bit_and_digit, bit_and-zero, pow_double}
use native.Mathlib.Nat.{pow-suc}

-- The digit `q` of a number.
pub bit : ℕ → ℕ → ℕ
bit zero w = w % 2
bit (suc q) w = bit q (w / 2)

pub bit-and_power : (q w : ℕ) → bit_and w (2 ^ q) ≡ bit q w * 2 ^ q
unfolding bit
bit-and_power zero w = bit_and_digit w 1 ∙ omega (arith, bit_and-zero (w / 2))
bit-and_power (suc q) w =
    bit_and_digit w (2 ^ suc q)
    ∙ ap (λ m. bit_and (w / 2) m * 2 + min (w % 2) (2 ^ suc q % 2)) (omega (arith, pow-suc 2 q))
    ∙ ap (λ m. m * 2 + min (w % 2) (2 ^ suc q % 2)) (bit-and_power q (w / 2))
    ∙ omega (arith, pow-suc 2 q, pow_double (bit q (w / 2)) q)

pub bit-bit_or : (q a b : ℕ) → bit q (bit_or a b) ≡ max (bit q a) (bit q b)
unfolding bit
bit-bit_or zero a b = omega (arith, bit_or_digit a b)
bit-bit_or (suc q) a b = ap (bit q) (omega (arith, bit_or_digit a b)) ∙ bit-bit_or q (a / 2) (b / 2)

pub bit-power : (q : ℕ) → bit q (2 ^ q) ≡ 1
unfolding bit
bit-power zero = refl
bit-power (suc q) = ap (bit q) (omega (arith, pow-suc 2 q)) ∙ bit-power q

-- ===== src/Prelude/Bits.antt =====
-- Laws of `|`, `&` and `^` at variables. The native operations stand for a recursion on binary
-- digits with fuel; the laws here go by the lowest digit.
use Prim.Native.Nat.{ℕ, zero, suc, ◌+◌, ◌-◌, ◌*◌, ◌/◌, ◌%◌, ◌^◌, ◌≤◌, ◌<◌, min, max}
use Prim.Native.Nat.{bit_and, bit_or, bit_xor, digits, bitwise, differ}
use Prim.Native.Nat.{bit_and-bitwise, bit_or-bitwise, bit_xor-bitwise}
use mathlib.Core.Path.{◌≡◌, refl, ap, ◌∙◌}
use mathlib.Core.Bool.{Bool, true, false, ◌&&◌}
use lightkv.Prelude.Tests.{ltb, ◌==◌}
use native.Mathlib.Nat.{pow-suc, one-le-pow, div-add-mod}
use native.Mathlib.Omega.{arith}

module _ (z : ℕ → ℕ) (f : ℕ → ℕ → ℕ) where
  digits-fuel : (n m a b : ℕ) → a ≤ n → a ≤ m → digits z f n a b ≡ digits z f m a b
  digits-fuel zero zero a b p q = refl
  digits-fuel zero (suc m) zero b p q = refl
  digits-fuel zero (suc m) (suc a) b p q = absurd (omega arith)
  digits-fuel (suc n) zero zero b p q = refl
  digits-fuel (suc n) zero (suc a) b p q = absurd (omega arith)
  digits-fuel (suc n) (suc m) zero b p q = refl
  digits-fuel (suc n) (suc m) (suc a) b p q =
      rw (digits-fuel n m (suc a / 2) (b / 2) (omega arith) (omega arith))

  bitwise_step :
      (a b : ℕ)
      → bitwise z f (suc a) b ≡ bitwise z f (suc a / 2) (b / 2) * 2 + f (suc a % 2) (b % 2)
  bitwise_step a b =
      omega (arith, digits-fuel a (suc a / 2) (suc a / 2) (b / 2) (omega arith) (omega arith))

-- The lowest digit of `|` and of `&`.
pub bit_or_digit : (a b : ℕ) → bit_or a b ≡ bit_or (a / 2) (b / 2) * 2 + max (a % 2) (b % 2)
bit_or_digit zero b = simp bit_or-bitwise (omega arith)
bit_or_digit (suc a) b = simp bit_or-bitwise (bitwise_step (λ y. y) max a b)

pub bit_and_digit : (a b : ℕ) → bit_and a b ≡ bit_and (a / 2) (b / 2) * 2 + min (a % 2) (b % 2)
bit_and_digit zero b = simp bit_and-bitwise (omega arith)
bit_and_digit (suc a) b = simp bit_and-bitwise (bitwise_step (λ y. 0) min a b)

-- With nothing on the left, `|` is the right operand and `&` is 0.
zero-bit_or : (b : ℕ) → bit_or 0 b ≡ b
zero-bit_or b = simp bit_or-bitwise

below_zero : (n b : ℕ) → b ≤ n → bit_and b 0 ≡ 0
below_zero n zero h = refl
below_zero zero (suc b) h = absurd (omega arith)
below_zero (suc n) (suc b) h =
    omega (arith, bit_and_digit (suc b) 0, below_zero n (suc b / 2) (omega arith))

pub bit_and-zero : (b : ℕ) → bit_and b 0 ≡ 0
bit_and-zero b = below_zero b b (omega arith)

pub pow_double : (q k : ℕ) → q * 2 ^ suc k ≡ 2 * (q * 2 ^ k)
pow_double q k = omega (arith, ap (λ (t : ℕ). q * t) (pow-suc 2 k))

-- `low | (high << k)` is a sum where `low` fits k bits.
pub bit_or_disjoint :
    (k low high : ℕ) → low < 2 ^ k → bit_or low (high * 2 ^ k) ≡ low + high * 2 ^ k
bit_or_disjoint zero zero high h = rw zero-bit_or (omega arith)
bit_or_disjoint zero (suc low) high h = absurd (omega arith)
bit_or_disjoint (suc k) low high h = ground (
  arith,
  bit_or_digit low (high * 2 ^ suc k),
  pow_double high k,
  bit_or_disjoint k (low / 2) high (omega (arith, pow-suc 2 k)),
)

or_zero_below : (n a : ℕ) → a ≤ n → bit_or a 0 ≡ a
or_zero_below n zero h = refl
or_zero_below zero (suc a) h = absurd (omega arith)
or_zero_below (suc n) (suc a) h =
    omega (arith, bit_or_digit (suc a) 0, or_zero_below n (suc a / 2) (omega arith))

-- `(high << k) | low` is the same sum.
pub bit_or_high : (k low high : ℕ) → low < 2 ^ k → bit_or (high * 2 ^ k) low ≡ low + high * 2 ^ k
bit_or_high zero zero high h = or_zero_below (high * 1) (high * 1) (omega arith) ∙ omega arith
bit_or_high zero (suc low) high h = absurd (omega arith)
bit_or_high (suc k) low high h = ground (
  arith,
  bit_or_digit (high * 2 ^ suc k) low,
  pow_double high k,
  bit_or_high k (low / 2) high (omega (arith, pow-suc 2 k)),
)

-- `a & (2^k - 1)` keeps the low k bits.
low_bits : (k q r : ℕ) → r < 2 ^ k → bit_and (r + q * 2 ^ k) (2 ^ k - 1) ≡ r
low_bits zero q r h = rw bit_and-zero (omega arith)
low_bits (suc k) q r h = ground (
  arith,
  bit_and_digit (r + q * 2 ^ suc k) (2 ^ suc k - 1),
  pow_double q k,
  pow-suc 2 k,
  one-le-pow k 2,
  low_bits k q (r / 2) (omega (arith, pow-suc 2 k)),
)

pub bit_and_mask : (k a : ℕ) → bit_and a (2 ^ k - 1) ≡ a % 2 ^ k
bit_and_mask k a =
    ground (arith, one-le-pow k 2, div-add-mod a (2 ^ k), low_bits k (a / 2 ^ k) (a % 2 ^ k))

-- The lowest digit of `^`, and what two of them cancel.
pub bit_xor_digit : (a b : ℕ) → bit_xor a b ≡ bit_xor (a / 2) (b / 2) * 2 + differ (a % 2) (b % 2)
bit_xor_digit zero b = simp bit_xor-bitwise (omega arith)
bit_xor_digit (suc a) b = simp bit_xor-bitwise (bitwise_step (λ y. y) differ a b)

differ_bits : (x y : ℕ) → x < 2 → y < 2 → (differ x y < 2) × (differ (differ x y) y ≡ x)
differ_bits zero zero h k = omega arith
differ_bits zero (suc zero) h k = omega arith
differ_bits (suc zero) zero h k = omega arith
differ_bits (suc zero) (suc zero) h k = omega arith
differ_bits (suc (suc x)) y h k = absurd (omega arith)
differ_bits zero (suc (suc y)) h k = absurd (omega arith)
differ_bits (suc zero) (suc (suc y)) h k = absurd (omega arith)

cancel_below : (n a m : ℕ) → a ≤ n → m ≤ n → bit_xor (bit_xor a m) m ≡ a
cancel_below zero zero zero h k = refl
cancel_below zero zero (suc m) h k = absurd (omega arith)
cancel_below zero (suc a) m h k = absurd (omega arith)
cancel_below (suc n) a m h k = omega (
  arith,
  bit_xor_digit a m,
  bit_xor_digit (bit_xor a m) m,
  differ_bits (a % 2) (m % 2) (omega arith) (omega arith),
  ap (λ (t : ℕ). bit_xor t (m / 2)) half,
  ap (λ (t : ℕ). differ t (m % 2)) low,
  cancel_below n (a / 2) (m / 2) (omega arith) (omega arith),
)
  where
    half : bit_xor a m / 2 ≡ bit_xor (a / 2) (m / 2)
    half = omega (arith, bit_xor_digit a m, differ_bits (a % 2) (m % 2) (omega arith) (omega arith))

    low : bit_xor a m % 2 ≡ differ (a % 2) (m % 2)
    low = omega (arith, bit_xor_digit a m, differ_bits (a % 2) (m % 2) (omega arith) (omega arith))

-- A second `^` by the same number undoes the first.
pub bit_xor_cancel : (a m : ℕ) → bit_xor (bit_xor a m) m ≡ a
bit_xor_cancel a m = cancel_below (a + m) a m (omega arith) (omega arith)

differ_small : (x y : ℕ) → x < 2 → y < 2 → differ x y < 2
differ_small x y h k = (differ_bits x y h k).0

-- `^` of two numbers of k bits has k bits.
pub bit_xor-lt : (k a b : ℕ) → a < 2 ^ k → b < 2 ^ k → bit_xor a b < 2 ^ k
bit_xor-lt zero zero zero h l = omega arith
bit_xor-lt zero (suc a) b h l = absurd (omega arith)
bit_xor-lt zero zero (suc b) h l = absurd (omega arith)
bit_xor-lt (suc k) a b h l = omega (
  arith,
  bit_xor_digit a b,
  differ_small (a % 2) (b % 2) (omega arith) (omega arith),
  pow-suc 2 k,
  bit_xor-lt k (a / 2) (b / 2) (omega (arith, pow-suc 2 k)) (omega (arith, pow-suc 2 k)),
)

-- A fact about a small number may be checked at every value.
unfoldable pub all_below : ℕ → (ℕ → Bool) → Bool
all_below zero p = true
all_below (suc n) p = p n && all_below n p

pub all_below_sound : (n : ℕ) (p : ℕ → Bool) (x : ℕ) → all_below n p ≡ true → x < n → p x ≡ true
unfolding all_below
all_below_sound zero p x h k = absurd (omega arith)
all_below_sound (suc n) p x h k = ground (arith, all_below_sound n p x)

infix 20 ◌⇔◌
abbrev ◌⇔◌ : Bool → Bool → Bool
true ⇔ b = b
false ⇔ true = false
false ⇔ false = true

⇔-sound : (a b : Bool) → (a ⇔ b) ≡ true → a ≡ b
⇔-sound true true h = refl
⇔-sound true false h = cc
⇔-sound false true h = cc
⇔-sound false false h = refl

top_table : all_below 256 (λ b. (bit_and b 0x80 == 0) ⇔ ltb b 128) ≡ true
unfolding all_below
top_table = refl

-- `b & 0x80` is zero exactly below 0x80.
pub top_bit : (b : ℕ) → b < 256 → (bit_and b 0x80 == 0) ≡ ltb b 128
top_bit b h = ⇔-sound _ _ (all_below_sound 256 _ b top_table h)

-- ===== src/Encoding/Fixed.antt =====
-- Fixed-width integers of encoding.h: what is decoded is what was encoded.
use lightkv.Prelude.{ℕ, zero, suc, ◌/◌, ◌^◌, ◌<◌, ◌≡◌, refl, List, ◌++◌, arith, length, All}
use native.Mathlib.Nat.{pow-suc}
use lightkv.Encoding.{IsByte, fixed_bytes, decode_fixed}

pub length-fixed_bytes : (n v : ℕ) → length (fixed_bytes n v) ≡ n
unfolding fixed_bytes
length-fixed_bytes zero v = refl
length-fixed_bytes (suc n) v = omega (arith, length-fixed_bytes n (v / 256))

pub fixed_bytes-IsByte : (n v : ℕ) → All IsByte (fixed_bytes n v)
unfolding fixed_bytes
fixed_bytes-IsByte zero v = tt
fixed_bytes-IsByte (suc n) v = (omega arith, fixed_bytes-IsByte n (v / 256))

pub decode_fixed-fixed_bytes :
    (n v : ℕ) (rest : List ℕ) → v < 256 ^ n → decode_fixed n (fixed_bytes n v ++ rest) ≡ v
unfolding fixed_bytes decode_fixed
decode_fixed-fixed_bytes zero v rest h = omega arith
decode_fixed-fixed_bytes (suc n) v rest h =
    omega (
      arith,
      pow-suc 256 n,
      decode_fixed-fixed_bytes n (v / 256) rest (omega (arith, pow-suc 256 n)),
    )

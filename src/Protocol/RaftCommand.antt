-- ===== src/Protocol/RaftCommand.antt =====
-- A command that a leader has put into its log is what each node takes out of it.
use lightkv.Prelude.{
  ℕ, ◌+◌, ◌%◌, ◌^◌, ◌≤◌, ◌≡◌, refl, sym, ap, ◌∙◌, arith, false, some, List, [], ◌∷◌, ◌++◌, length,
  drop, ltb, ◌>>=◌, All, length-append, take-append_length, drop-append_length,
}
use native.Mathlib.Nat.{mod-eq_of_lt}
use lightkv.Encoding.{IsU32, fixed_bytes, decode_fixed32}
use lightkv.Encoding.Fixed.{length-fixed_bytes, decode_fixed-fixed_bytes}
use lightkv.Protocol.{encode_args, encode_raft_command, decode_args, decode_raft_command}

-- A number in front of anything.
read_number :
    (n : ℕ) (rest : List ℕ) → IsU32 n → decode_fixed32 (fixed_bytes 4 (n % 2 ^ 32) ++ rest) ≡ n
unfolding decode_fixed32
read_number n rest h = decode_fixed-fixed_bytes 4 (n % 2 ^ 32) rest (omega arith) ∙ mod-eq_of_lt h

skip_number : (n : ℕ) (rest : List ℕ) → drop 4 (fixed_bytes 4 n ++ rest) ≡ rest
skip_number n rest =
    ap (λ k. drop k (fixed_bytes 4 n ++ rest)) (sym (length-fixed_bytes 4 n))
    ∙ drop-append_length (fixed_bytes 4 n) rest

abbrev IsShort : List ℕ → Type 0
IsShort a = IsU32 (length a)

decode_args-encode_args :
    (args : List (List ℕ))
    → All IsShort args
    → decode_args (length args) (encode_args args) ≡ some args
unfolding encode_args decode_args
decode_args-encode_args [] h = refl
decode_args-encode_args (a ∷ args) h =
    let tail : List ℕ = a ++ encode_args args in
    let len = read_number (length a) tail h.0 in
    let rest = skip_number (length a % 2 ^ 32) tail in
    let size : length (fixed_bytes 4 (length a % 2 ^ 32) ++ tail)
        ≡ 4 + (length a + length (encode_args args)) =
      omega (
        arith,
        length-append (fixed_bytes 4 (length a % 2 ^ 32)) tail,
        length-fixed_bytes 4 (length a % 2 ^ 32),
        length-append a (encode_args args),
      ) in
    let long : ltb (length (fixed_bytes 4 (length a % 2 ^ 32) ++ tail)) 4 ≡ false = ground arith in
    let whole : ltb (length tail) (length a) ≡ false =
      ground (arith, length-append a (encode_args args)) in
    rw long (
      rw len (
        rw rest (
          rw whole (
            rw (take-append_length a (encode_args args)) (
              rw (drop-append_length a (encode_args args))
                (rw (decode_args-encode_args args h.1, ◌>>=◌) refl))))))

-- Each argument takes four bytes at least.
length-encode_args : (args : List (List ℕ)) → length args ≤ length (encode_args args)
unfolding encode_args
length-encode_args [] = omega arith
length-encode_args (a ∷ args) = omega (
  arith,
  length-encode_args args,
  length-append (fixed_bytes 4 (length a % 2 ^ 32)) (a ++ encode_args args),
  length-fixed_bytes 4 (length a % 2 ^ 32),
  length-append a (encode_args args),
)

-- A command of fewer than 2^32 arguments, each shorter than 4 GiB, is decoded as it was encoded.
pub raft_command_round_trip :
    (args : List (List ℕ))
    → IsU32 (length args)
    → All IsShort args
    → decode_raft_command (encode_raft_command args) ≡ some args
unfolding encode_raft_command decode_raft_command
raft_command_round_trip args h short =
    let n = read_number (length args) (encode_args args) h in
    let size : length (fixed_bytes 4 (length args % 2 ^ 32) ++ encode_args args)
        ≡ 4 + length (encode_args args) =
      omega (
        arith,
        length-append (fixed_bytes 4 (length args % 2 ^ 32)) (encode_args args),
        length-fixed_bytes 4 (length args % 2 ^ 32),
      ) in
    let long : ltb (length (fixed_bytes 4 (length args % 2 ^ 32) ++ encode_args args)) 4 ≡ false =
      ground arith in
    let fits : ltb (length (fixed_bytes 4 (length args % 2 ^ 32) ++ encode_args args)) (length args)
        ≡ false =
      ground (arith, length-encode_args args) in
    rw long (
      rw n (
        rw fits (
          rw (skip_number (length args % 2 ^ 32) (encode_args args))
            (decode_args-encode_args args short))))

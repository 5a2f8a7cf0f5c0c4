-- ===== src/Encoding/Slices.antt =====
-- Length-prefixed slices of encoding.h.
use lightkv.Prelude.{
  ℕ, ◌+◌, ◌≡◌, ap, some, List, [], ◌++◌, arith, length, length-append, append_assoc, ◌∙◌,
  take-append_length, drop-append_length, ◌>>=◌, length-drop, length-take, take-append-drop,
}
use native.Mathlib.Nat.{mod-eq_of_lt}
use lightkv.Encoding.{
  IsU32, varint_loop, put_varint32, get_varint32, take_slice, put_length_prefixed,
  get_length_prefixed,
}
use lightkv.Encoding.Varint.{get_varint32-put}

-- A slice of the right length is what stands in front of the rest.
pub take_slice-append : (s rest : List ℕ) → take_slice (length s) (s ++ rest) ≡ some (s, rest)
unfolding take_slice
take_slice-append s rest =
    ground (arith, length-append s rest, take-append_length s rest, drop-append_length s rest)

-- A slice that is there has the asked length, and with its rest it is the input.
pub take_slice_parts :
    (n : ℕ) (p : List ℕ) {s rest : List ℕ}
    → take_slice n p ≡ some (s, rest)
    → (length s ≡ n) × (s ++ rest ≡ p) × (length rest + n ≡ length p)
unfolding take_slice
take_slice_parts n p h = ground (arith, take-append-drop n p, length-take n p, length-drop n p)

-- A slice shorter than 4 GiB is read back whole, and the reader stops behind it.
pub length_prefixed_round_trip :
    (s rest : List ℕ)
    → IsU32 (length s)
    → get_length_prefixed (put_length_prefixed [] s ++ rest) ≡ some (s, rest)
unfolding get_length_prefixed put_length_prefixed put_varint32
length_prefixed_round_trip s rest h =
    ap (λ n. get_varint32 ((varint_loop 4 n ++ s) ++ rest) >>= λ (len, t). take_slice len t)
      (mod-eq_of_lt h)
    ∙ ap (λ l. get_varint32 l >>= λ (len, t). take_slice len t)
        (append_assoc (varint_loop 4 (length s)) s rest)
    ∙ ap (λ o. o >>= λ (len, t). take_slice len t) (get_varint32-put (length s) (s ++ rest) h)
    ∙ take_slice-append s rest

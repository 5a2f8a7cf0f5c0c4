-- ===== src/Wal/Fields.antt =====
-- A field of a log record is read back as it was written, and takes the length computed for it.
use lightkv.Prelude.{
  ℕ, ◌%◌, ◌^◌, ◌≡◌, refl, sym, ap, ◌∙◌, arith, some, List, [], ◌∷◌, ◌++◌, length, take, ◌>>=◌,
  length-append, length-take, append_assoc,
}
use native.Mathlib.Nat.{mod-eq_of_lt}
use lightkv.Encoding.{IsU32, varint_loop, varint_length, put_varint32, get_varint32, take_slice}
use lightkv.Encoding.Varint.{get_varint32-put, varint_length-put}
use lightkv.Encoding.Slices.{take_slice-append}
use lightkv.Wal.{sized, sized_length, read_field}

pub take-length {ℓ} : {A : Type ℓ} (xs : List A) → take (length xs) xs ≡ xs
take-length [] = refl
take-length (x ∷ xs) = ap (◌∷◌ x) (take-length xs)

pub sized-small : (s : List ℕ) → IsU32 (length s) → sized s ≡ varint_loop 4 (length s) ++ s
unfolding sized
sized-small s h =
    ap (λ n. varint_loop 4 n ++ take n s) (mod-eq_of_lt h)
    ∙ ap (λ t. varint_loop 4 (length s) ++ t) (take-length s)

pub read_field-sized :
    (s rest : List ℕ) → IsU32 (length s) → read_field (sized s ++ rest) ≡ some (s, rest)
unfolding read_field
read_field-sized s rest h =
    ap (λ l. get_varint32 (l ++ rest) >>= λ (len, t). take_slice len t) (sized-small s h)
    ∙ ap (λ l. get_varint32 l >>= λ (len, t). take_slice len t)
        (append_assoc (varint_loop 4 (length s)) s rest)
    ∙ ap (λ o. o >>= λ (len, t). take_slice len t) (get_varint32-put (length s) (s ++ rest) h)
    ∙ take_slice-append s rest

pub length-varint : (v : ℕ) → length (varint_loop 4 v) ≡ varint_length v
unfolding put_varint32
length-varint v = sym (varint_length-put v)

pub length-sized : (s : List ℕ) → length (sized s) ≡ sized_length s
unfolding sized sized_length
length-sized s = omega (
  arith,
  length-append (varint_loop 4 (length s % 2 ^ 32)) (take (length s % 2 ^ 32) s),
  length-take (length s % 2 ^ 32) s,
  length-varint (length s % 2 ^ 32),
)

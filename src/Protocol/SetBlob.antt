-- ===== src/Protocol/SetBlob.antt =====
-- The members of a set and the blob in which they are kept.
use lightkv.Prelude.{
  ℕ, zero, suc, ◌≤◌, ◌<◌, ◌≡◌, refl, ap, ◌∙◌, arith, none, some, List, [], ◌∷◌, ◌++◌, length, All,
  length-append, append_assoc,
}
use lightkv.Protocol.{encode_set_blob, until_zero, behind_zero, parse_loop, parse_set_blob}

abbrev pub IsNonzero : ℕ → Type 0
IsNonzero b = 0 < b

-- No byte of the member is zero.
abbrev pub IsText : List ℕ → Type 0
IsText e = All IsNonzero e

find_zero :
    (e rest : List ℕ)
    → IsText e
    → (until_zero (e ++ 0 ∷ rest) ≡ e) × (behind_zero (e ++ 0 ∷ rest) ≡ some rest)
unfolding until_zero behind_zero
find_zero [] rest h = (refl, refl)
find_zero (b ∷ e) rest h = ground (arith, h, find_zero e rest h.1)

found :
    (e : List ℕ) (fuel : ℕ) (rest : List ℕ)
    → (until_zero (e ++ 0 ∷ rest) ≡ e) × (behind_zero (e ++ 0 ∷ rest) ≡ some rest)
    → elim (behind_zero (e ++ 0 ∷ rest)) as (λ _. List (List ℕ)) [
      | none ↦ (e ++ 0 ∷ rest) ∷ []
      | some more ↦ until_zero (e ++ 0 ∷ rest) ∷ parse_loop fuel more
    ]
      ≡ e ∷ parse_loop fuel rest
found e fuel rest (u, v) =
    ap
      (λ o. elim o as (λ _. List (List ℕ)) [
        | none ↦ (e ++ 0 ∷ rest) ∷ []
        | some more ↦ until_zero (e ++ 0 ∷ rest) ∷ parse_loop fuel more
      ])
      v
    ∙ ap (λ x. x ∷ parse_loop fuel rest) u

parse_loop_member :
    (fuel : ℕ) (e rest : List ℕ)
    → IsText e
    → parse_loop (suc fuel) (e ++ 0 ∷ rest) ≡ e ∷ parse_loop fuel rest
unfolding parse_loop
parse_loop_member fuel [] rest h = found [] fuel rest (find_zero [] rest h)
parse_loop_member fuel (b ∷ e) rest h = found (b ∷ e) fuel rest (find_zero (b ∷ e) rest h)

parse_members :
    (fuel : ℕ) (elems : List (List ℕ))
    → All IsText elems
    → length elems ≤ fuel
    → parse_loop fuel (encode_set_blob elems) ≡ elems
unfolding encode_set_blob
parse_members zero [] h k = unfold parse_loop in refl
parse_members (suc fuel) [] h k = unfold parse_loop in refl
parse_members zero (e ∷ elems) h k = absurd (omega arith)
parse_members (suc fuel) (e ∷ elems) h k =
    parse_loop_member fuel e (encode_set_blob elems) h.0
    ∙ ap (λ l. e ∷ l) (parse_members fuel elems h.1 (omega arith))

length-encode_set_blob : (elems : List (List ℕ)) → length elems ≤ length (encode_set_blob elems)
unfolding encode_set_blob
length-encode_set_blob [] = omega arith
length-encode_set_blob (e ∷ elems) =
    omega (arith, length-encode_set_blob elems, length-append e (0 ∷ encode_set_blob elems))

-- Members without a zero byte, empty ones included, are read back from the blob as they were.
pub set_blob_round_trip :
    (elems : List (List ℕ)) → All IsText elems → parse_set_blob (encode_set_blob elems) ≡ elems
unfolding parse_set_blob
set_blob_round_trip elems h =
    parse_members (length (encode_set_blob elems)) elems h (length-encode_set_blob elems)

-- A member that contains a zero byte is read back as two members.
pub set_blob_splits :
    (a b : List ℕ)
    → IsText a
    → IsText b
    → parse_set_blob (encode_set_blob ((a ++ (0 ∷ b)) ∷ [])) ≡ a ∷ b ∷ []
unfolding parse_set_blob
set_blob_splits a b ha hb =
    ap (λ l. parse_loop (length l) l) {x = encode_set_blob ((a ++ (0 ∷ b)) ∷ [])}
      {y = encode_set_blob (a ∷ b ∷ [])} (unfold encode_set_blob in append_assoc a (0 ∷ b) (0 ∷ []))
    ∙ set_blob_round_trip (a ∷ b ∷ []) (ha, (hb, tt))

-- ===== src/Slice/Order.antt =====
-- Slice::compare is the lexicographic order of byte strings.
use lightkv.Prelude.{
  Bool, true, false, Bool-cases, inl, inr, ◌≢◌, ℕ, suc, min, compare, Ordering, List, [], ◌∷◌, ◌≡◌,
  ◌∙◌, sym, refl, ◌↔◌, arith,
}
use lightkv.Slice.{memcmp, compare_sizes, slice_compare, less}

-- The first difference decides, and a proper prefix comes first.
pub lex : List ℕ → List ℕ → Ordering
lex [] [] = Ordering.eq
lex [] (y ∷ b) = Ordering.lt
lex (x ∷ a) [] = Ordering.gt
lex (x ∷ a) (y ∷ b) = elim (compare x y) [
  | Ordering.lt ↦ Ordering.lt
  | Ordering.eq ↦ lex a b
  | Ordering.gt ↦ Ordering.gt
]

min-suc : (m n : ℕ) → min (suc m) (suc n) ≡ suc (min m n)
min-suc m n = omega arith

pub slice_compare-lex : (a b : List ℕ) → slice_compare a b ≡ lex a b
unfolding slice_compare memcmp compare_sizes lex
slice_compare-lex [] [] = refl
slice_compare-lex [] (y ∷ b) = ground arith
slice_compare-lex (x ∷ a) [] = ground arith
slice_compare-lex (x ∷ a) (y ∷ b) =
    rw (min-suc, slice_compare) (ground (arith, slice_compare-lex a b))

pub lex_eq→≡ : (a b : List ℕ) → lex a b ≡ Ordering.eq → a ≡ b
unfolding lex
lex_eq→≡ [] [] h = refl
lex_eq→≡ [] (y ∷ b) h = cc
lex_eq→≡ (x ∷ a) [] h = cc
lex_eq→≡ (x ∷ a) (y ∷ b) h = ground (arith, lex_eq→≡ a b)

pub lex_refl : (a : List ℕ) → lex a a ≡ Ordering.eq
unfolding lex
lex_refl [] = refl
lex_refl (x ∷ a) = ground (arith, lex_refl a)

pub lex_flip : (a b : List ℕ) → lex a b ≡ Ordering.lt → lex b a ≡ Ordering.gt
unfolding lex
lex_flip [] [] h = cc
lex_flip [] (y ∷ b) h = refl
lex_flip (x ∷ a) [] h = cc
lex_flip (x ∷ a) (y ∷ b) h = ground (arith, lex_flip a b)

pub lex_flip' : (a b : List ℕ) → lex a b ≡ Ordering.gt → lex b a ≡ Ordering.lt
unfolding lex
lex_flip' [] [] h = cc
lex_flip' [] (y ∷ b) h = cc
lex_flip' (x ∷ a) [] h = refl
lex_flip' (x ∷ a) (y ∷ b) h = ground (arith, lex_flip' a b)

pub lex_trans :
    (a b c : List ℕ) → lex a b ≡ Ordering.lt → lex b c ≡ Ordering.lt → lex a c ≡ Ordering.lt
unfolding lex
lex_trans [] [] c h k = cc
lex_trans (x ∷ a) [] c h k = cc
lex_trans [] (y ∷ b) [] h k = cc
lex_trans [] (y ∷ b) (z ∷ c) h k = refl
lex_trans (x ∷ a) (y ∷ b) [] h k = cc
lex_trans (x ∷ a) (y ∷ b) (z ∷ c) h k = ground (arith, lex_trans a b c)

-- Less is transitive.
pub slice_compare_trans :
    (a b c : List ℕ)
    → slice_compare a b ≡ Ordering.lt
    → slice_compare b c ≡ Ordering.lt
    → slice_compare a c ≡ Ordering.lt
slice_compare_trans a b c h k =
    slice_compare-lex a c
    ∙ lex_trans a b c (sym (slice_compare-lex a b) ∙ h) (sym (slice_compare-lex b c) ∙ k)

-- `less` is a strict total order; `less b a ≡ false` is read as a ≤ b.
lex_le_trans :
    (a b c : List ℕ) → lex b a ≢ Ordering.lt → lex c b ≢ Ordering.lt → lex c a ≢ Ordering.lt
unfolding lex
lex_le_trans [] [] c h k = k
lex_le_trans [] (y ∷ b) [] h k = λ e. cc
lex_le_trans [] (y ∷ b) (z ∷ c) h k = λ e. cc
lex_le_trans (x ∷ a) [] c h k = absurd (h refl)
lex_le_trans (x ∷ a) (y ∷ b) [] h k = absurd (k refl)
lex_le_trans (x ∷ a) (y ∷ b) (z ∷ c) h k = ground (arith, lex_le_trans a b c)

false-ne-true : ◌≡◌ {A = Bool} false true → ⊥
false-ne-true h = cc

lex_only : (a b : List ℕ) → lex a b ≢ Ordering.lt → (lex a b ≢ Ordering.gt) → lex a b ≡ Ordering.eq
lex_only a b h k = ground arith

less-lex : (a b : List ℕ) → (less a b ≡ true) ↔ (lex a b ≡ Ordering.lt)
unfolding less
less-lex a b = rw (slice_compare-lex a b, less) (ground arith)

less-false : (a b : List ℕ) → (less a b ≡ false) ↔ (lex a b ≢ Ordering.lt)
unfolding less
less-false a b = rw (slice_compare-lex a b, less) (ground arith)

pub less_trans : (a b c : List ℕ) → less a b ≡ true → less b c ≡ true → less a c ≡ true
less_trans a b c h k = (less-lex a c).1 (lex_trans a b c ((less-lex a b).0 h) ((less-lex b c).0 k))

pub less_asym : (a b : List ℕ) → less a b ≡ true → less b a ≡ false
less_asym a b h = (less-false b a).1 (λ e. ground (arith, lex_flip a b ((less-lex a b).0 h)))

pub less_irrefl : (a : List ℕ) → less a a ≡ false
less_irrefl a = (less-false a a).1 (λ e. ground (arith, lex_refl a))

pub le_trans : (a b c : List ℕ) → less b a ≡ false → less c b ≡ false → less c a ≡ false
le_trans a b c h k =
    (less-false c a).1 (lex_le_trans a b c ((less-false b a).0 h) ((less-false c b).0 k))

-- a ≤ b < c
pub le_less_trans : (a b c : List ℕ) → less b a ≡ false → less b c ≡ true → less a c ≡ true
le_less_trans a b c h k = elim (Bool-cases (less a c)) [
  | inl e ↦ e
  | inr e ↦ absurd (false-ne-true (sym (le_trans c a b e h) ∙ k))
]

pub le_antisym : (a b : List ℕ) → less a b ≡ false → less b a ≡ false → a ≡ b
le_antisym a b h k =
    lex_eq→≡ a b (lex_only a b ((less-false a b).0 h) (λ e. (less-false b a).0 k (lex_flip' a b e)))

-- `Slice::compare` finds two slices equal exactly when they are, and exchanging the arguments
-- exchanges less and greater.
pub slice_order :
    (a b : List ℕ)
    → ((slice_compare a b ≡ Ordering.eq) ↔ (a ≡ b))
      × ((slice_compare a b ≡ Ordering.lt) ↔ (slice_compare b a ≡ Ordering.gt))
slice_order a b =
    rw (slice_compare-lex a b, slice_compare-lex b a)
      ((lex_eq→≡ a b, λ e. rw e (lex_refl b)), (lex_flip a b, lex_flip' b a))

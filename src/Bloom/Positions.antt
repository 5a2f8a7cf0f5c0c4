-- ===== src/Bloom/Positions.antt =====
-- A position that is set, and what setting another does.
use lightkv.Prelude.{
  ℕ, zero, suc, ◌+◌, ◌*◌, ◌/◌, ◌%◌, ◌^◌, ◌≤◌, ◌<◌, ◌≡◌, refl, sym, ap, ◌∙◌, arith, bit_and, bit_or,
  Bool, true, false, not, Option, none, some, List, [], ◌∷◌, length, get_elem?, ◌==◌,
}
use native.Mathlib.Nat.{one-le-pow}
use lightkv.Prelude.Digits.{bit, bit-and_power, bit-bit_or, bit-power}
use lightkv.Bloom.{or_word, is_set}

-- Whether a word has a digit.
abbrev pub has_digit : ℕ → ℕ → Bool
has_digit q w = not (bit_and w (2 ^ q) == 0)

times_zero : (b m : ℕ) → 1 ≤ m → (b * m == 0) ≡ (b == 0)
times_zero zero m h = ap (λ n. n == 0) {y = 0} (omega arith)
times_zero (suc b) m h = ground (arith, expand)
  where
    expand : suc b * m ≡ m + b * m
    expand = omega arith

has_digit-bit : (q w : ℕ) → has_digit q w ≡ not (bit q w == 0)
has_digit-bit q w =
    ap (λ n. not (n == 0)) (bit-and_power q w)
    ∙ ap not (times_zero (bit q w) (2 ^ q) (one-le-pow q 2 (omega arith)))

or_own : (q w : ℕ) → has_digit q (bit_or w (2 ^ q)) ≡ true
or_own q w =
    has_digit-bit q (bit_or w (2 ^ q)) ∙ ground (arith, bit-bit_or q w (2 ^ q), bit-power q)

or_keeps : (q w m : ℕ) → has_digit q w ≡ true → has_digit q (bit_or w m) ≡ true
or_keeps q w m h =
    let there : not (bit q w == 0) ≡ true = sym (has_digit-bit q w) ∙ h in
    has_digit-bit q (bit_or w m) ∙ ground (arith, bit-bit_or q w m)

abbrev word_has : ℕ → Option ℕ → Bool
word_has q none = false
word_has q (some w) = has_digit q w

-- What changes is one word, and only bits are added to it, those of the mask among them.
pub record IsAdded (i mask : ℕ) (bits changed : List ℕ) : Type 0 where
  pub same_length : length changed ≡ length bits
  pub keeps :
      (j q : ℕ) → word_has q (get_elem? bits j) ≡ true → word_has q (get_elem? changed j) ≡ true
  pub has_own : (q : ℕ) → mask ≡ 2 ^ q → word_has q (get_elem? changed i) ≡ true

first-IsAdded : (mask w : ℕ) (bits : List ℕ) → IsAdded 0 mask (w ∷ bits) (bit_or w mask ∷ bits)
first-IsAdded mask w bits = record {
  same_length = refl;
  keeps = keep;
  has_own = λ q e. ap (λ m. has_digit q (bit_or w m)) e ∙ or_own q w;
}
  where
    keep :
        (j q : ℕ)
        → word_has q (get_elem? (w ∷ bits) j) ≡ true
        → word_has q (get_elem? (bit_or w mask ∷ bits) j) ≡ true
    keep zero q h = or_keeps q w mask h
    keep (suc j) q h = h

later-IsAdded :
    (i mask w : ℕ) (bits changed : List ℕ)
    → IsAdded i mask bits changed
    → IsAdded (suc i) mask (w ∷ bits) (w ∷ changed)
later-IsAdded i mask w bits changed a = record {
  same_length = ap suc a.same_length;
  keeps = keep;
  has_own = a.has_own;
}
  where
    keep :
        (j q : ℕ)
        → word_has q (get_elem? (w ∷ bits) j) ≡ true
        → word_has q (get_elem? (w ∷ changed) j) ≡ true
    keep zero q h = h
    keep (suc j) q h = a.keeps j q h

pub or_word-IsAdded :
    (i mask : ℕ) (bits : List ℕ)
    → i < length bits
    → (changed : List ℕ) × (or_word i mask bits ≡ some changed) × IsAdded i mask bits changed
unfolding or_word
or_word-IsAdded i mask [] h = absurd (omega arith)
or_word-IsAdded zero mask (w ∷ bits) h = (bit_or w mask ∷ bits, refl, first-IsAdded mask w bits)
or_word-IsAdded (suc i) mask (w ∷ bits) h =
    let (changed, e, a) = or_word-IsAdded i mask bits (omega arith) in
    (w ∷ changed, rw (e, or_word) refl, later-IsAdded i mask w bits changed a)

-- A position below the number of bits can be set, and is set then; no other is cleared.
pub set_position :
    (pos : ℕ) (bits : List ℕ)
    → pos < length bits * 32
    → (changed : List ℕ) × (or_word (pos / 32) (2 ^ (pos % 32)) bits ≡ some changed)
      × (length changed ≡ length bits)
      × (is_set pos changed ≡ true)
      × ((other : ℕ) → is_set other bits ≡ true → is_set other changed ≡ true)
unfolding is_set
set_position pos bits h =
    let (changed, e, a) = or_word-IsAdded (pos / 32) (2 ^ (pos % 32)) bits (omega arith) in
    (
      changed,
      e,
      a.same_length,
      a.has_own (pos % 32) refl,
      λ other. a.keeps (other / 32) (other % 32),
    )

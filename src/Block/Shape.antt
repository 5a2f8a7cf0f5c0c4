-- ===== src/Block/Shape.antt =====
-- What BlockBuilder writes, entry by entry, and what Block::Iterator's constructor makes of it.
use lightkv.Prelude.{
  ℕ, ◌+◌, ◌-◌, ◌*◌, ◌%◌, ◌^◌, ◌≤◌, ◌<◌, true, false, some, List, [], ◌∷◌, ◌++◌, Bool-cases, inl,
  inr, length, take, drop, ltb, leb, if◌then◌else◌, ◌≡◌, refl, sym, ap, ◌∙◌, arith, All,
  length-append, append_assoc, append-nil, take-append_length, drop-append_length, length-drop,
}
use native.Mathlib.Nat.{mod-eq_of_lt}
use lightkv.Encoding.{IsU32, varint_loop, put_varint32, put_fixed32, decode_fixed32, fixed_bytes}
use lightkv.Encoding.Fixed.{length-fixed_bytes, decode_fixed-fixed_bytes}
use lightkv.Crc.{crc32c}
use lightkv.Block.{
  Builder, shared_prefix, append_entry, add, put_restarts, finished_bytes, restart_offset,
  stored_count, view_at, open_view,
}

abbrev pub Entry : Type 0
Entry = List ℕ × List ℕ

-- The keys and values are shorter than 4 GiB.
abbrev pub IsSmall : Entry → Type 0
IsSmall e = IsU32 (length e.0) × IsU32 (length e.1)

-- One call of Add after the other.
unfoldable pub add_all : Builder → List Entry → Builder
add_all b [] = b
add_all b ((k, v) ∷ es) = add_all (add b k v) es

unfoldable pub entry_bytes : ℕ → List ℕ → List ℕ → List ℕ → List ℕ
entry_bytes shared k v more =
    varint_loop 4 shared
    ++ (varint_loop 4 (length k - shared)
        ++ (varint_loop 4 (length v) ++ (drop shared k ++ (v ++ more))))

-- The length shared with the key before, and the count of entries since the restart point.
abbrev pub shared_with : ℕ → ℕ → List ℕ → List ℕ → ℕ
shared_with interval counter last k = if ltb counter interval then shared_prefix last k else 0

abbrev pub count_on : ℕ → ℕ → ℕ
count_on interval counter = if ltb counter interval then counter + 1 else 1

-- The bytes of entries behind an entry with the key `last`.
unfoldable pub body : ℕ → ℕ → List ℕ → List Entry → List ℕ
body interval counter last [] = []
body interval counter last ((k, v) ∷ es) =
    entry_bytes (shared_with interval counter last k) k v
      (body interval (count_on interval counter) k es)

pub shared_prefix-le :
    (a b : List ℕ) → (shared_prefix a b ≤ length a) × (shared_prefix a b ≤ length b)
unfolding shared_prefix
shared_prefix-le [] b = omega arith
shared_prefix-le (x ∷ a) [] = omega arith
shared_prefix-le (x ∷ a) (y ∷ b) = ground (arith, shared_prefix-le a b)

pub take-shared_prefix : (a b : List ℕ) → take (shared_prefix a b) a ≡ take (shared_prefix a b) b
unfolding shared_prefix
take-shared_prefix [] b = refl
take-shared_prefix (x ∷ a) [] = refl
take-shared_prefix (x ∷ a) (y ∷ b) = ground (arith, take-shared_prefix a b)

take_all : (l : List ℕ) → take (length l) l ≡ l
take_all l = ap (take (length l)) (sym (append-nil l)) ∙ take-append_length l []

take_rest : (n : ℕ) (l : List ℕ) → take (length l - n) (drop n l) ≡ drop n l
take_rest n l = rw (← length-drop n l) (take_all (drop n l))

-- Add appends one entry.
append_entry_bytes :
    (buffer : List ℕ) (shared : ℕ) (k v : List ℕ)
    → shared ≤ length k
    → IsSmall (k, v)
    → (more : List ℕ)
    → append_entry buffer shared k v ++ more ≡ buffer ++ entry_bytes shared k v more
unfolding append_entry entry_bytes put_varint32
append_entry_bytes buffer shared k v h small more =
    rw
      (
        mod-eq_of_lt {n = shared} {m = 2 ^ 32} (omega arith),
        mod-eq_of_lt {n = length k - shared} {m = 2 ^ 32} (omega arith),
        mod-eq_of_lt {n = length v} {m = 2 ^ 32} small.1,
        take_rest shared k,
      )
      (simp append_assoc)

-- What Add leaves in the other fields.
module _ (b : Builder) (k v : List ℕ) where
  abbrev shared_of : ℕ
  shared_of = shared_with b.restart_interval b.counter b.last_key k

  shared_of-le : shared_of ≤ length k
  shared_of-le = ground (arith, shared_prefix-le b.last_key k)

  add_fields :
      ((add b k v).restart_interval ≡ b.restart_interval)
      × ((add b k v).counter ≡ count_on b.restart_interval b.counter)
      × ((add b k v).last_key ≡ k)
      × ((add b k v).finished ≡ b.finished)
  unfolding add
  add_fields = ground arith

  add_buffer :
      IsSmall (k, v)
      → (more : List ℕ) → (add b k v).buffer ++ more ≡ b.buffer ++ entry_bytes shared_of k v more
  unfolding add
  add_buffer small more = elim (Bool-cases (ltb b.counter b.restart_interval)) [
    | inl same ↦ rw same (
        append_entry_bytes b.buffer (shared_prefix b.last_key k) k v
          (shared_prefix-le b.last_key k).1 small more)
    | inr new ↦ rw new (append_entry_bytes b.buffer 0 k v (omega arith) small more)
  ]

-- A run of Add appends the entries.
pub buffer-add_all :
    (b : Builder) (es : List Entry)
    → All IsSmall es
    → (add_all b es).buffer ≡ b.buffer ++ body b.restart_interval b.counter b.last_key es
unfolding add_all body
buffer-add_all b [] small = sym (append-nil b.buffer)
buffer-add_all b ((k, v) ∷ es) (small, smalls) =
    let (interval, counter, last, _) = add_fields b k v in
    buffer-add_all (add b k v) es smalls ∙ rw (interval, counter, last) (add_buffer b k v small _)

-- The restart points: the first is 0, and there are no more than entries behind it.
abbrev pub IsStarted : Builder → ℕ → Type 0
IsStarted b n = (more : List ℕ) × (b.restarts ≡ 0 ∷ more) × (length more ≤ n) × (b.finished ≡ false)

add-IsStarted : (b : Builder) (k v : List ℕ) (n : ℕ) → IsStarted b n → IsStarted (add b k v) (n + 1)
unfolding add
add-IsStarted b k v n (more, e, le, open_) = elim (Bool-cases (ltb b.counter b.restart_interval)) [
  | inl same ↦ rw same (more, e, omega arith, open_)
  | inr new ↦ rw new (
    more ++ (length b.buffer % 2 ^ 32) ∷ [],
    ap (λ r. r ++ (length b.buffer % 2 ^ 32) ∷ []) e,
    omega (arith, length-append more ((length b.buffer % 2 ^ 32) ∷ [])),
    open_,
  )
]

pub add_all-IsStarted :
    (b : Builder) (es : List Entry) (n : ℕ)
    → IsStarted b n
    → IsStarted (add_all b es) (n + length es)
unfolding add_all
add_all-IsStarted b [] n h = (h.0, h.1, omega arith, h.3)
add_all-IsStarted b ((k, v) ∷ es) n h =
    let r = add_all-IsStarted (add b k v) es (n + 1) (add-IsStarted b k v n h) in
    (r.0, r.1, omega arith, r.3)

-- The restart points in four bytes each.
unfoldable pub restart_bytes : List ℕ → List ℕ
restart_bytes [] = []
restart_bytes (r ∷ rs) = fixed_bytes 4 r ++ restart_bytes rs

length-restart_bytes : (rs : List ℕ) → length (restart_bytes rs) ≡ 4 * length rs
unfolding restart_bytes
length-restart_bytes [] = refl
length-restart_bytes (r ∷ rs) = omega (
  arith,
  length-append (fixed_bytes 4 r) (restart_bytes rs),
  length-fixed_bytes 4 r,
  length-restart_bytes rs,
)

put_restarts-bytes : (buffer rs : List ℕ) → put_restarts buffer rs ≡ buffer ++ restart_bytes rs
unfolding put_restarts restart_bytes put_fixed32
put_restarts-bytes buffer [] = sym (append-nil buffer)
put_restarts-bytes buffer (r ∷ rs) =
    put_restarts-bytes (buffer ++ fixed_bytes 4 r) rs
    ∙ append_assoc buffer (fixed_bytes 4 r) (restart_bytes rs)

-- The finished block: the entries, the restart points, their count and the checksum.
pub finished_shape :
    (b : Builder)
    → (crc : ℕ) × (finished_bytes b
        ≡ b.buffer
          ++ (restart_bytes b.restarts
              ++ (fixed_bytes 4 (length b.restarts % 2 ^ 32) ++ fixed_bytes 4 crc)))
unfolding finished_bytes put_fixed32
finished_shape b = (
  crc32c (put_restarts b.buffer b.restarts ++ fixed_bytes 4 (length b.restarts % 2 ^ 32)),
  rw (put_restarts-bytes b.buffer b.restarts) (simp append_assoc),
)

-- Where the parts of a block begin.
module _ (entries : List ℕ) (restarts : List ℕ) (crc : ℕ) where
  abbrev pub tail_bytes : List ℕ
  tail_bytes =
      restart_bytes restarts ++ (fixed_bytes 4 (length restarts % 2 ^ 32) ++ fixed_bytes 4 crc)

  length-tail : length tail_bytes ≡ 4 * length restarts + 8
  length-tail = omega (
    arith,
    length-append (restart_bytes restarts)
        (fixed_bytes 4 (length restarts % 2 ^ 32) ++ fixed_bytes 4 crc),
    length-append (fixed_bytes 4 (length restarts % 2 ^ 32)) (fixed_bytes 4 crc),
    length-restart_bytes restarts,
    length-fixed_bytes 4 (length restarts % 2 ^ 32),
    length-fixed_bytes 4 crc,
  )

  count_there :
      drop (length (entries ++ tail_bytes) - 8) (entries ++ tail_bytes)
      ≡ fixed_bytes 4 (length restarts % 2 ^ 32) ++ fixed_bytes 4 crc
  count_there =
      ap (λ n. drop n (entries ++ tail_bytes)) here
      ∙ ap (drop (length (entries ++ restart_bytes restarts)))
          (sym (append_assoc entries (restart_bytes restarts) _))
      ∙ drop-append_length (entries ++ restart_bytes restarts) _
    where
      here : length (entries ++ tail_bytes) - 8 ≡ length (entries ++ restart_bytes restarts)
      here = omega (
        arith,
        length-append entries tail_bytes,
        length-tail,
        length-append entries (restart_bytes restarts),
        length-restart_bytes restarts,
      )

  module _ (some_restart : 0 < length restarts)
      (fits : length (entries ++ tail_bytes) < 2 ^ 32) where
    few : length restarts < 2 ^ 32
    few = omega (arith, length-append entries tail_bytes, length-tail)

    count_shape : stored_count (entries ++ tail_bytes) ≡ length restarts
    unfolding stored_count decode_fixed32
    count_shape =
        rw (long, count_there, mod-eq_of_lt few)
          (decode_fixed-fixed_bytes 4 (length restarts) (fixed_bytes 4 crc) few)
      where
        long : leb 8 (length (entries ++ tail_bytes)) ≡ true
        long = ground (arith, length-append entries tail_bytes, length-tail)

    offset_shape :
        restart_offset (length (entries ++ tail_bytes)) (length restarts) ≡ length entries
    unfolding restart_offset
    offset_shape = omega (arith, length-append entries tail_bytes, length-tail)

    -- The iterator finds its limit behind the entries.
    pub open_view_shape :
        open_view (entries ++ tail_bytes)
        ≡ some (record { entries = entries; tail = tail_bytes; num_restarts = length restarts })
    unfolding open_view view_at
    open_view_shape =
        rw
          (
            count_shape,
            offset_shape,
            take-append_length entries tail_bytes,
            drop-append_length entries tail_bytes,
          )
          (ground (arith, length-append entries tail_bytes))

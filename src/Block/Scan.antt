-- ===== src/Block/Scan.antt =====
-- Walking a finished block from its first entry to its last gives back what was added.
use lightkv.Prelude.{
  ℕ, zero, suc, ◌+◌, ◌-◌, ◌≤◌, ◌<◌, ◌^◌, ◌%◌, true, false, Option, none, some, List, [], ◌∷◌, ◌++◌,
  length, take, drop, ltb, leb, if◌then◌else◌, ◌>>=◌, ◌≡◌, refl, sym, ap, ◌∙◌, arith, All,
  length-append, append_assoc, take-append_length, drop-append_length, length-drop,
  take-append-drop,
}
use lightkv.Encoding.{varint_loop, get_varint32, decode_fixed32, decode_fixed, fixed_bytes}
use lightkv.Encoding.Fixed.{length-fixed_bytes, decode_fixed-fixed_bytes}
use lightkv.Encoding.Varint.{get_varint32-put, length-varint_loop}
use lightkv.Block.{
  Builder, new_builder, shared_prefix, finish, finished_bytes, View, open_view, decode_entry,
  Cursor, read_bytes, parse_entry, restart_point, valid, seek_to_first, next, value,
}
use lightkv.Block.Shape.{
  Entry, IsSmall, add_all, entry_bytes, shared_with, count_on, body, shared_prefix-le,
  take-shared_prefix, buffer-add_all, IsStarted, add_all-IsStarted, finished_shape, restart_bytes,
  open_view_shape, tail_bytes,
}

-- `for (; it.Valid(); it.Next()) out.push_back({it.key(), it.value()});`
pub scan : ℕ → View → Cursor → Option (List Entry)
scan zero v c = none
scan (suc fuel) v c = elim (valid c) [
  | true ↦ (do
    found ← value v c
    c' ← next v c
    others ← scan fuel v c'
    some ((c.key_buffer, found) ∷ others))
  | false ↦ some []
]

abbrev pub block_of : ℕ → List Entry → List ℕ
block_of interval es = (finish (add_all (new_builder interval) es)).buffer

lengths : List ℕ → Option (ℕ × ℕ × ℕ × List ℕ)
lengths p = do
  (shared, p1) ← get_varint32 p
  (non_shared, p2) ← get_varint32 p1
  (value_len, p3) ← get_varint32 p2
  some (shared, non_shared, value_len, p3)

decode_entry-cons : (p : List ℕ) → 0 < length p → decode_entry p ≡ lengths p
unfolding decode_entry lengths
decode_entry-cons [] h = absurd (omega arith)
decode_entry-cons (byte ∷ p) h = refl

entry_bytes-pos : (shared : ℕ) (k v more : List ℕ) → 0 < length (entry_bytes shared k v more)
unfolding entry_bytes
entry_bytes-pos shared k v more = omega (
  arith,
  length-append (varint_loop 4 shared) (
      varint_loop 4 (length k - shared)
      ++ (varint_loop 4 (length v) ++ (drop shared k ++ (v ++ more)))),
  length-varint_loop 4 shared,
)

valid-cons : (p key : List ℕ) → 0 < length p → valid (record { rest = p; key_buffer = key }) ≡ true
unfolding valid
valid-cons [] key h = absurd (omega arith)
valid-cons (byte ∷ p) key h = refl

-- The lengths in front of an entry are read back, up to the rest of the key.
decode_entry-bytes :
    (shared : ℕ) (k v more : List ℕ)
    → shared ≤ length k
    → IsSmall (k, v)
    → decode_entry (entry_bytes shared k v more)
      ≡ some (shared, length k - shared, length v, drop shared k ++ (v ++ more))
unfolding entry_bytes
decode_entry-bytes shared k v more le small =
    decode_entry-cons _ (entry_bytes-pos shared k v more)
    ∙ unfold lengths in
      rw
        (
          get_varint32-put shared _ (omega arith),
          get_varint32-put (length k - shared) _ (omega arith),
          get_varint32-put (length v) _ small.1,
        )
        refl

module _ (v : View) where
  read_front : (a p : List ℕ) → read_bytes v (length a) (a ++ p) ≡ some a
  unfolding read_bytes
  read_front a p =
      ap (λ t. if ltb (length t) (length a) then none else some (take (length a) t))
        (append_assoc a p v.tail)
      ∙ ground (arith, length-append a (p ++ v.tail), take-append_length a (p ++ v.tail))

  -- ParseEntry completes the key from the one before.
  parse-bytes :
      (shared : ℕ) (last k x more : List ℕ)
      → shared ≤ length k
      → shared ≤ length last
      → take shared last ≡ take shared k
      → IsSmall (k, x)
      → parse_entry v (record { rest = entry_bytes shared k x more; key_buffer = last })
        ≡ some (record { rest = entry_bytes shared k x more; key_buffer = k })
  unfolding parse_entry
  parse-bytes shared last k x more le le' same small =
      rw (decode_entry-bytes shared k x more le small, parse_entry)
        (rw (not_beyond, rest_read)
          (rw same (
            ap (λ t. some (record { rest = entry_bytes shared k x more; key_buffer = t }))
              (take-append-drop shared k))))
    where
      not_beyond : ltb (length last) shared ≡ false
      not_beyond = ground arith

      rest_read :
          read_bytes v (length k - shared) (drop shared k ++ (x ++ more)) ≡ some (drop shared k)
      rest_read = rw (← length-drop shared k) (read_front (drop shared k) (x ++ more))

  value-bytes :
      (shared : ℕ) (k x more key : List ℕ)
      → shared ≤ length k
      → IsSmall (k, x)
      → value v (record { rest = entry_bytes shared k x more; key_buffer = key }) ≡ some x
  unfolding value
  value-bytes shared k x more key le small =
      rw (decode_entry-bytes shared k x more le small, value)
        (rw both_read
          (ap some (rw (← length-drop shared k) (drop-append_length (drop shared k) x))))
    where
      size : length (drop shared k ++ x) ≡ length k - shared + length x
      size = rw (length-append, length-drop)

      both_read :
          read_bytes v (length k - shared + length x) (drop shared k ++ (x ++ more))
          ≡ some (drop shared k ++ x)
      both_read = rw (← size, ← append_assoc) (read_front (drop shared k ++ x) more)

  -- Next goes to the entry behind, if there is one.
  next-bytes :
      (shared : ℕ) (k x more key : List ℕ)
      → shared ≤ length k
      → IsSmall (k, x)
      → next v (record { rest = entry_bytes shared k x more; key_buffer = key }) ≡ (
          if leb (length more) 0
          then some (record { rest = []; key_buffer = key })
          else parse_entry v (record { rest = more; key_buffer = key }))
  unfolding next
  next-bytes shared k x more key le small =
      rw (valid-cons _ key (entry_bytes-pos shared k x more), next)
        (rw (decode_entry-bytes shared k x more le small, dropped) (ground (arith, sizes)))
    where
      sizes : length (drop shared k ++ (x ++ more)) ≡ length k - shared + length x + length more
      sizes = rw (length-append, length-append, length-drop) (omega arith)

      dropped : drop (length k - shared + length x) (drop shared k ++ (x ++ more)) ≡ more
      dropped =
          ap (λ n. drop n (drop shared k ++ (x ++ more))) (sym (rw (length-append, length-drop)))
          ∙ ap (drop (length (drop shared k ++ x))) (sym (append_assoc (drop shared k) x more))
          ∙ drop-append_length (drop shared k ++ x) more

  scan_step :
      (fuel : ℕ) (c c' : Cursor) {x : List ℕ} {others : List Entry}
      → valid c ≡ true
      → value v c ≡ some x
      → next v c ≡ some c'
      → scan fuel v c' ≡ some others
      → scan (suc fuel) v c ≡ some ((c.key_buffer, x) ∷ others)
  unfolding scan
  scan_step fuel c c' there found on more = rw (there, scan) (rw (found, on) (rw more))

  -- From an entry on, the walk returns that entry and all behind it.
  walk :
      (es : List Entry) (interval counter shared : ℕ) (k x : List ℕ)
      → shared ≤ length k
      → IsSmall (k, x)
      → All IsSmall es
      → scan
          (suc (suc (length es)))
          v
          (record { rest = entry_bytes shared k x (body interval counter k es); key_buffer = k })
        ≡ some ((k, x) ∷ es)
  walk [] interval counter shared k x le small smalls =
      scan_step 1 _ (record { rest = []; key_buffer = k })
        (valid-cons _ k (entry_bytes-pos shared k x _)) (value-bytes shared k x _ k le small)
        (next-bytes shared k x _ k le small ∙ unfold body in refl) (unfold scan valid in refl)
  walk ((k2, x2) ∷ es) interval counter shared k x le small (small2, smalls) =
      scan_step (suc (suc (length es))) _
        (record { rest = entry_bytes s2 k2 x2 more; key_buffer = k2 })
        (valid-cons _ k (entry_bytes-pos shared k x _)) (value-bytes shared k x _ k le small)
        (next-bytes shared k x _ k le small
          ∙ unfold body in (rw there (parse-bytes s2 k k2 x2 more le2 le3 same small2)))
        (walk es interval (count_on interval counter) s2 k2 x2 le2 small2 smalls)
    where
      s2 : ℕ
      s2 = shared_with interval counter k k2

      more : List ℕ
      more = body interval (count_on interval counter) k2 es

      le2 : s2 ≤ length k2
      le2 = ground (arith, shared_prefix-le k k2)

      le3 : s2 ≤ length k
      le3 = ground (arith, shared_prefix-le k k2)

      same : take s2 k ≡ take s2 k2
      same = ground (arith, take-shared_prefix k k2)

      there : leb (length (entry_bytes s2 k2 x2 more)) 0 ≡ false
      there = ground (arith, entry_bytes-pos s2 k2 x2 more)

-- The first restart point of a block is 0, so SeekToFirst starts at the first entry.
module _ (interval : ℕ) (es : List Entry) (more : List ℕ) (crc : ℕ) where
  abbrev there : View
  there = record {
    entries = body interval 0 [] es;
    tail = tail_bytes (body interval 0 [] es) (0 ∷ more) crc;
    num_restarts = suc (length more);
  }

  first_point : restart_point there 0 ≡ some 0
  unfolding restart_point decode_fixed32
  first_point =
      ap (λ (t : List ℕ). if ltb (length t) 4 then none else some (decode_fixed 4 t)) front
      ∙ ground (
        arith,
        decode_fixed-fixed_bytes 4 0 behind (omega arith),
        length-append (fixed_bytes 4 0) behind,
        length-fixed_bytes 4 0,
      )
    where
      behind : List ℕ
      behind =
          restart_bytes more ++ (fixed_bytes 4 (suc (length more) % 2 ^ 32) ++ fixed_bytes 4 crc)

      front : tail_bytes (body interval 0 [] es) (0 ∷ more) crc ≡ fixed_bytes 4 0 ++ behind
      front = unfold restart_bytes in append_assoc (fixed_bytes 4 0) (restart_bytes more) _

  seek_first :
      (start : Cursor)
      → seek_to_first there start
        ≡ parse_entry there (record { rest = body interval 0 [] es; key_buffer = [] })
  unfolding seek_to_first
  seek_first start = rw first_point (ground arith)

-- SeekToFirst parses the first entry, if there is one, and the walk from there returns them all.
walk_all :
    (interval : ℕ) (es : List Entry) (v : View)
    → All IsSmall es
    → (c : Cursor) × (parse_entry v (record { rest = body interval 0 [] es; key_buffer = [] })
        ≡ some c)
      × (scan (suc (length es)) v c ≡ some es)
walk_all interval [] v small = (
  record { rest = []; key_buffer = [] },
  unfold body parse_entry decode_entry in refl,
  unfold scan valid in refl,
)
walk_all interval ((k, x) ∷ es) v (small, smalls) = (
  record { rest = entry_bytes s k x more; key_buffer = k },
  unfold body in
      parse-bytes v s [] k x more (ground (arith, nothing_shared)) (ground (arith, nothing_shared))
        (ground (arith, nothing_shared)) small,
  walk v es interval (count_on interval 0) s k x (ground (arith, nothing_shared)) small smalls,
)
  where
    s : ℕ
    s = shared_with interval 0 [] k

    more : List ℕ
    more = body interval (count_on interval 0) k es

    nothing_shared : s ≡ 0
    nothing_shared = unfold shared_prefix in ground arith

finish-buffer : (b : Builder) → b.finished ≡ false → (finish b).buffer ≡ finished_bytes b
unfolding finish
finish-buffer b h = ground arith

started :
    (interval : ℕ) (es : List Entry) → IsStarted (add_all (new_builder interval) es) (0 + length es)
unfolding new_builder
started interval es = add_all-IsStarted (new_builder interval) es 0 ([], refl, omega arith, refl)

block_bytes :
    (interval : ℕ) (es : List Entry) {more : List ℕ}
    → All IsSmall es
    → (add_all (new_builder interval) es).restarts ≡ 0 ∷ more
    → (add_all (new_builder interval) es).finished ≡ false
    → (crc : ℕ) × (block_of interval es
        ≡ body interval 0 [] es ++ tail_bytes (body interval 0 [] es) (0 ∷ more) crc)
block_bytes interval es small starts running =
    let (crc, e) = finished_shape (add_all (new_builder interval) es) in
    (crc, finish-buffer (add_all (new_builder interval) es) running ∙ e ∙ rw (starts, entries) refl)
  where
    entries : (add_all (new_builder interval) es).buffer ≡ body interval 0 [] es
    entries = buffer-add_all (new_builder interval) es small ∙ unfold new_builder in refl

-- Any entries with keys and values below 4 GiB, in a block below 4 GiB: the iterator opens the
-- finished block, SeekToFirst succeeds from any state, and calling Next until it is invalid
-- yields the keys and values that were added, in order, with no read outside the block.
pub block_round_trip :
    (interval : ℕ) (es : List Entry)
    → All IsSmall es
    → length (block_of interval es) < 2 ^ 32
    → (v : View) × (c : Cursor) × (open_view (block_of interval es) ≡ some v)
      × ((start : Cursor) → seek_to_first v start ≡ some c)
      × (scan (suc (length es)) v c ≡ some es)
block_round_trip interval es small fits =
    let (more, starts, _, running) = started interval es in
    let (crc, bytes) = block_bytes interval es small starts running in
    let (c, parsed, all_there) = walk_all interval es (there interval es more crc) small in
    (
      there interval es more crc,
      c,
      ap open_view bytes
          ∙ open_view_shape (body interval 0 [] es) (0 ∷ more) crc (omega arith)
              (rw (← bytes) fits),
      λ start. seek_first interval es more crc start ∙ parsed,
      all_there,
    )

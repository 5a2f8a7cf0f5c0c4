-- ===== src/ReplMaster/Ring.antt =====
-- The ring buffer beside the whole stream of bytes that were fed.
use lightkv.Prelude.{
  ℕ, zero, suc, ◌+◌, ◌-◌, ◌%◌, ◌≤◌, ◌<◌, ◌≡◌, ◌≢◌, refl, sym, ap, ◌∙◌, arith, true, false, List, [],
  ◌∷◌, ◌++◌, length, get_or, set, drop, ltb, leb, if◌then◌else◌, ◌||◌, ◌&&◌, length-append,
  length-set, length-replicate, append_assoc, append-nil, Bool-cases, inl, inr,
}
use native.Mathlib.Nat.{mod-add-mod, mod-lt, mod-eq_of_lt, mod-eq-sub-mod}
use native.Mathlib.Decide.{dec_lt}
use lightkv.ReplMaster.{
  ReplMaster, feed_loop, trim_first, feed, ring_bytes, get_backlog_from, new_master,
}

-- Two positions less than the size apart are in different slots.
mod_apart : (s i d : ℕ) → 0 < d → d < s → i % s ≢ (i + d) % s
mod_apart s i d h k e =
    let r : ℕ = i % s in
    let wrapped : r ≡ (r + d) % s = e ∙ sym (mod-add-mod i s d) in
    let small : r < s = mod-lt i (omega arith) in
    elim (dec_lt (r + d) s) [
      | yes below ↦ omega (arith, wrapped, mod-eq_of_lt below)
      | no above ↦
          let over : s ≤ r + d = omega arith in
          let rest : r + d - s < s = omega arith in
          omega (arith, wrapped, mod-eq-sub-mod over, mod-eq_of_lt rest)
    ]

get_or-set_self : (l : List ℕ) (i v : ℕ) → i < length l → get_or (set l i v) i 0 ≡ v
get_or-set_self [] i v h = absurd (omega arith)
get_or-set_self (x ∷ l) zero v h = refl
get_or-set_self (x ∷ l) (suc i) v h = get_or-set_self l i v (omega arith)

get_or-set_other : (l : List ℕ) (i j v : ℕ) → i ≢ j → get_or (set l i v) j 0 ≡ get_or l j 0
get_or-set_other [] i j v h = refl
get_or-set_other (x ∷ l) zero zero v h = absurd (h refl)
get_or-set_other (x ∷ l) zero (suc j) v h = refl
get_or-set_other (x ∷ l) (suc i) zero v h = refl
get_or-set_other (x ∷ l) (suc i) (suc j) v h = get_or-set_other l i j v (λ e. h (ap suc e))

get_or-append_lt : (l : List ℕ) (b i : ℕ) → i < length l → get_or (l ++ b ∷ []) i 0 ≡ get_or l i 0
get_or-append_lt [] b i h = absurd (omega arith)
get_or-append_lt (x ∷ l) b zero h = refl
get_or-append_lt (x ∷ l) b (suc i) h = get_or-append_lt l b i (omega arith)

get_or-append_end : (l : List ℕ) (b : ℕ) → get_or (l ++ b ∷ []) (length l) 0 ≡ b
get_or-append_end [] b = refl
get_or-append_end (x ∷ l) b = get_or-append_end l b

-- The ring holds the last bytes of the stream `h`, as many as it has slots.
pub record Mirrors (h : List ℕ) (m : ReplMaster) : Type 0 where
  pub offset : m.repl_offset ≡ length h
  pub slots : length m.backlog ≡ m.backlog_size
  pub some_room : 0 < m.backlog_size
  pub recent :
      (i : ℕ)
      → i < length h
      → length h ≤ i + m.backlog_size
      → get_or m.backlog (i % m.backlog_size) 0 ≡ get_or h i 0

-- And what it says to hold, it holds.
pub record Holds (h : List ℕ) (m : ReplMaster) : Type 0 where
  pub mirrors : Mirrors h m
  pub first_le : m.backlog_first_offset ≤ length h
  pub within : length h ≤ m.backlog_first_offset + m.backlog_size

feed_byte-Mirrors :
    (h : List ℕ) (b : ℕ) (m : ReplMaster)
    → Mirrors h m
    → Mirrors (h ++ b ∷ []) (record m {
      backlog = set m.backlog (m.repl_offset % m.backlog_size) b;
      repl_offset = m.repl_offset + 1;
    })
feed_byte-Mirrors h b m ok = record {
  offset = omega (arith, ok.offset, length-append h (b ∷ []));
  slots = length-set m.backlog (m.repl_offset % m.backlog_size) b ∙ ok.slots;
  some_room = ok.some_room;
  recent = λ i lt near. elim (dec_lt i (length h)) [
    | yes older ↦
        let d : ℕ = length h - i in
        let apart =
          mod_apart m.backlog_size i d (omega arith) (omega (arith, length-append h (b ∷ []))) in
        get_or-set_other m.backlog (m.repl_offset % m.backlog_size) (i % m.backlog_size) b
          (λ e. apart (sym e ∙ ap (λ k. k % m.backlog_size) (ok.offset ∙ omega arith)))
        ∙ ok.recent i older (omega (arith, length-append h (b ∷ [])))
        ∙ sym (get_or-append_lt h b i older)
    | no newest ↦
        let e : i ≡ m.repl_offset = omega (arith, ok.offset, length-append h (b ∷ [])) in
        ap (λ k. get_or (set m.backlog (m.repl_offset % m.backlog_size) b) (k % m.backlog_size) 0) e
        ∙ get_or-set_self m.backlog (m.repl_offset % m.backlog_size) b
            (omega (arith, ok.slots, mod-lt m.repl_offset ok.some_room))
        ∙ sym (get_or-append_end h b)
        ∙ ap (λ k. get_or (h ++ b ∷ []) k 0) (omega (arith, e, ok.offset))
  ];
}

feed_loop-Mirrors :
    (h cmd : List ℕ) (m : ReplMaster) → Mirrors h m → Mirrors (h ++ cmd) (feed_loop cmd m)
unfolding feed_loop
feed_loop-Mirrors h [] m ok = rw (append-nil h) ok
feed_loop-Mirrors h (b ∷ cmd) m ok =
    rw (← append_assoc h (b ∷ []) cmd)
      (feed_loop-Mirrors (h ++ b ∷ []) cmd _ (feed_byte-Mirrors h b m ok))

feed_loop_keeps :
    (cmd : List ℕ) (m : ReplMaster)
    → ((feed_loop cmd m).backlog_first_offset ≡ m.backlog_first_offset)
      × ((feed_loop cmd m).backlog_size ≡ m.backlog_size)
unfolding feed_loop
feed_loop_keeps [] m = (refl, refl)
feed_loop_keeps (b ∷ cmd) m = feed_loop_keeps cmd _

trim_first-Holds :
    (h : List ℕ) (m : ReplMaster)
    → Mirrors h m
    → m.backlog_first_offset ≤ length h
    → Holds h (trim_first m)
unfolding trim_first
trim_first-Holds h m ok first =
    elim (Bool-cases (ltb m.backlog_size (m.repl_offset - m.backlog_first_offset))) [
      | inl over ↦ rw over (record {
        mirrors = record {
          offset = ok.offset;
          slots = ok.slots;
          some_room = ok.some_room;
          recent = ok.recent;
        };
        first_le = omega (arith, ok.offset);
        within = omega (arith, ok.offset);
      })
      | inr fits ↦
          rw fits (record { mirrors = ok; first_le = first; within = ground (arith, ok.offset) })
    ]

pub new_master-Holds : (repl_id : List ℕ) (size : ℕ) → 0 < size → Holds [] (new_master repl_id size)
unfolding new_master
new_master-Holds repl_id size h = record {
  mirrors = record {
    offset = refl;
    slots = length-replicate size 0;
    some_room = h;
    recent = λ i lt near. absurd (omega arith);
  };
  first_le = omega arith;
  within = omega arith;
}

-- A feed of a command to a master whose ring mirrors a stream: the ring mirrors the stream with the
-- command behind it, and the result is the offset at which the command begins.
pub feed-Holds :
    (h cmd : List ℕ) (m : ReplMaster)
    → Holds h m
    → ((feed cmd m).0 ≡ length h) × Holds (h ++ cmd) (feed cmd m).1
unfolding feed
feed-Holds h cmd m ok =
    let (first, size) = feed_loop_keeps cmd m in
    (
      (ok.mirrors).offset,
      trim_first-Holds (h ++ cmd) (feed_loop cmd m) (feed_loop-Mirrors h cmd m ok.mirrors)
          (omega (arith, first, ok.first_le, length-append h cmd)),
    )

drop_first : (l : List ℕ) (i : ℕ) → i < length l → drop i l ≡ get_or l i 0 ∷ drop (i + 1) l
drop_first [] i h = absurd (omega arith)
drop_first (x ∷ l) zero h = refl
drop_first (x ∷ l) (suc i) h =
    drop_first l i (omega arith)
    ∙ ap (λ k. get_or l i 0 ∷ drop k (x ∷ l)) {x = suc (i + 1)} {y = suc i + 1} (omega arith)

drop_end : (l : List ℕ) → drop (length l) l ≡ []
drop_end [] = refl
drop_end (x ∷ l) = drop_end l

ring_bytes-drop :
    (h : List ℕ) (m : ReplMaster) (len offset : ℕ)
    → Mirrors h m
    → offset + len ≡ length h
    → length h ≤ offset + m.backlog_size
    → ring_bytes len offset m ≡ drop offset h
unfolding ring_bytes
ring_bytes-drop h m zero offset ok e near = sym (drop_end h) ∙ ap (λ k. drop k h) (omega arith)
ring_bytes-drop h m (suc len) offset ok e near =
    ap (λ b. b ∷ ring_bytes len (offset + 1) m) (ok.recent offset (omega arith) near)
    ∙ ap (λ l. get_or h offset 0 ∷ l)
        (ring_bytes-drop h m len (offset + 1) ok (omega arith) (omega arith))
    ∙ sym (drop_first h offset (omega arith))

-- What the backlog gives from an offset on: all bytes of the stream from there, if the ring still
-- has them, and nothing otherwise.
pub get_backlog_from-drop :
    (h : List ℕ) (m : ReplMaster) (offset : ℕ)
    → Holds h m
    → get_backlog_from offset m
      ≡ (if leb m.backlog_first_offset offset && leb offset (length h) then drop offset h else [])
unfolding get_backlog_from
get_backlog_from-drop h m offset ok =
    elim (Bool-cases (leb m.backlog_first_offset offset && leb offset (length h))) [
      | inl there ↦
          let fine : ltb offset m.backlog_first_offset || ltb m.repl_offset offset ≡ false =
            ground (arith, (ok.mirrors).offset) in
          rw there (
            rw fine (
              ring_bytes-drop h m (m.repl_offset - offset) offset ok.mirrors
                (ground (arith, (ok.mirrors).offset)) (ground (arith, ok.within))))
      | inr gone ↦
          let off : ltb offset m.backlog_first_offset || ltb m.repl_offset offset ≡ true =
            ground (arith, (ok.mirrors).offset) in
          rw gone (rw off refl)
    ]

-- ===== src/VLog/Appends.antt =====
-- What an append does to the files: it only adds bytes, and the pointer it gives reads the value.
use lightkv.Prelude.{
  ℕ, zero, suc, ◌+◌, ◌^◌, ◌≤◌, ◌<◌, ◌≡◌, inl, inr, refl, sym, ap, ◌∙◌, subst, arith, Bool, true,
  false, Bool-cases, some, List, [], ◌∷◌, ◌++◌, length, length-append, append-nil, append_assoc,
  take, drop, replicate, take-append_length, drop-append_length, All, ltb, ◌==◌, ==_iff,
  if◌then◌else◌,
}
use lightkv.VLog.{
  VLog, ok, append_log, closed_bytes, VLogManager, append_active, or_unmapped, roll, append,
  append_with, file_bytes, read,
}
use lightkv.VLog.Pointers.{
  CanMap, IsCached, IsOpen, contents, contents_open, open_log-file, read-contents, append_log-ok,
  append_active-ok,
}

-- Bytes are only added.
abbrev pub Extends : List ℕ → List ℕ → Type 0
Extends a b = (more : List ℕ) × (b ≡ a ++ more)

Extends-refl : (a : List ℕ) → Extends a a
Extends-refl a = ([], sym (append-nil a))

Extends-trans : (a b c : List ℕ) → Extends a b → Extends b c → Extends a c
Extends-trans a b c (x, p) (y, q) = (x ++ y, q ∙ ap (λ l. l ++ y) p ∙ append_assoc a x y)

missing_file :
    (id : ℕ) (disk : List (ℕ × List ℕ)) → All (λ f. f.0 < id) disk → file_bytes id disk ≡ []
unfolding file_bytes
missing_file id [] h = refl
missing_file id ((i, b) ∷ disk) h =
    let other : (i == id) ≡ false = ground (arith, h.0) in rw other (missing_file id disk h.1)

raise_files :
    (a b : ℕ) (disk : List (ℕ × List ℕ)) → a ≤ b → All (λ f. f.0 < a) disk → All (λ f. f.0 < b) disk
raise_files a b [] h k = tt
raise_files a b (f ∷ disk) h k = (omega (arith, k.0), raise_files a b disk h k.1)

raise-IsCached :
    (old new : ℕ) (bytes : List ℕ) (disk : List (ℕ × List ℕ)) (cache : List (ℕ × VLog))
    → old ≤ new
    → All (IsCached old disk) cache
    → All (IsCached new ((old, bytes) ∷ disk)) cache
unfolding file_bytes
raise-IsCached old new bytes disk [] h k = tt
raise-IsCached old new bytes disk (c ∷ cache) h k =
    let other : (old == c.0) ≡ false = ground (arith, k.0.0) in
    ((omega (arith, k.0.0), k.0.1, rw other k.0.2), raise-IsCached old new bytes disk cache h k.1)

no_bytes : (bytes : List ℕ) → (length bytes == 0) ≡ true → bytes ≡ []
no_bytes [] e = refl
no_bytes (x ∷ bytes) e = absurd (ground arith)

closed-Extends : (v : VLog) → Extends v.file (closed_bytes v)
unfolding closed_bytes
closed-Extends v = elim (Bool-cases (length v.file == 0)) [
  | inl e ↦ (
    replicate v.file_size 0,
    rw e (ap (λ l. l ++ replicate v.file_size 0) (sym (no_bytes v.file e))),
  )
  | inr e ↦ ([], rw e (sym (append-nil v.file)))
]

roll-Extends :
    (m : VLogManager) (o : IsOpen m) (v : VLog) (id : ℕ) {rolled : List ℕ}
    → v.file ≡ []
    → v.file_id ≡ m.next_file_id
    → rolled ≡ (
        if v.file_id == id
        then v.file
        else file_bytes id ((o.log.file_id, closed_bytes o.log) ∷ m.disk))
    → Extends (contents id m) rolled
unfolding file_bytes
roll-Extends m o v id file number e = elim (Bool-cases (v.file_id == id)) [
  | inl new ↦
      let differs : (o.log.file_id == id) ≡ false = ground (arith, o.newest) in
      let nothing : contents id m ≡ [] =
        contents_open id m o
        ∙ rw differs (
            missing_file id m.disk
              (raise_files o.log.file_id id m.disk (ground (arith, o.newest)) o.older)) in
      ([], rw nothing (rw new at e ∙ file))
  | inr old ↦ elim (Bool-cases (o.log.file_id == id)) [
    | inl closed ↦
        let (more, grows) = closed-Extends o.log in
        let before : contents id m ≡ o.log.file = contents_open id m o ∙ rw closed refl in
        (more, rw closed at (rw old at e) ∙ grows ∙ ap (λ l. l ++ more) (sym before))
    | inr other ↦
        let before : contents id m ≡ file_bytes id m.disk = contents_open id m o ∙ rw other refl in
        ([], rw other at (rw old at e) ∙ sym before ∙ sym (append-nil (contents id m)))
  ]
]

active-Extends :
    (value : List ℕ) (id : ℕ) (m : VLogManager) (o : IsOpen m) (v : VLog) {now : List ℕ}
    → v.file ≡ o.log.file ++ value
    → v.file_id ≡ o.log.file_id
    → now ≡ (if v.file_id == id then v.file else file_bytes id m.disk)
    → Extends (contents id m) now
active-Extends value id m o v file number e = elim (Bool-cases (v.file_id == id)) [
  | inl this ↦
      let same : (o.log.file_id == id) ≡ true = ap (λ n. n == id) (sym number) ∙ this in
      let before : contents id m ≡ o.log.file = contents_open id m o ∙ rw same refl in
      (value, rw this at e ∙ file ∙ ap (λ l. l ++ value) (sym before))
  | inr other ↦
      let differs : (o.log.file_id == id) ≡ false = ap (λ n. n == id) (sym number) ∙ other in
      let before : contents id m ≡ file_bytes id m.disk = contents_open id m o ∙ rw differs refl in
      ([], rw other at e ∙ sym before ∙ sym (append-nil (contents id m)))
]

module _ (can_map : ℕ → Bool) (can : CanMap can_map) where
  -- A new active file.
  roll-IsOpen :
      (m : VLogManager) (o : IsOpen m)
      → (v : VLog) × ((roll can_map o.log m).0 ≡ some v)
        × (p : IsOpen (roll can_map o.log m).1) × (p.log ≡ v)
        × ((id : ℕ) → Extends (contents id m) (contents id (roll can_map o.log m).1))
  unfolding roll or_unmapped
  roll-IsOpen m o =
      let (v, opened, file, mapped, number) = open_log-file can_map can m.next_file_id [] in
      let p : IsOpen (roll can_map o.log m).1 = record {
        log = v;
        active = ap (λ f. some (or_unmapped m.next_file_id f)) opened;
        newest = omega (arith, number);
        mapped = mapped;
        older = (
          omega (arith, number, o.newest),
          raise_files o.log.file_id v.file_id m.disk (omega (arith, number, o.newest)) o.older,
        );
        cached =
            raise-IsCached o.log.file_id v.file_id (closed_bytes o.log) m.disk m.read_cache
              (omega (arith, number, o.newest)) o.cached;
      } in
      (
        v,
        opened,
        p,
        refl,
        λ id. roll-Extends m o v id file number (contents_open id (roll can_map o.log m).1 p),
      )

  append_active-IsOpen :
      (value : List ℕ) (m : VLogManager) (o : IsOpen m) (id offset len : ℕ)
      → (append_active can_map value o.log m).0 ≡ ok (id, offset, len)
      → IsOpen (append_active can_map value o.log m).1
        × (contents id (append_active can_map value o.log m).1 ≡ o.log.file ++ value)
        × (id ≡ o.log.file_id)
        × (offset ≡ length o.log.file)
        × (len ≡ length value)
        × (id < (append_active can_map value o.log m).1.next_file_id)
        × ((other : ℕ)
            → Extends (contents other m) (contents other (append_active can_map value o.log m).1))
  unfolding append_active
  append_active-IsOpen value m o id offset len e =
      let (this, went) = append_active-ok can_map can value o.log m id offset len e in
      let (file, mapped, number, at_end, size) =
        append_log-ok can_map can value o.log offset len o.mapped went in
      let log' = (append_log can_map value o.log).1 in
      let p : IsOpen (append_active can_map value o.log m).1 = record {
        log = log';
        active = refl;
        newest = omega (arith, number, o.newest);
        mapped = mapped;
        older = subst (λ n. All (λ f. f.0 < n) m.disk) (sym number) o.older;
        cached = subst (λ n. All (IsCached n m.disk) m.read_cache) (sym number) o.cached;
      } in
      let same : (log'.file_id == id) ≡ true = (==_iff log'.file_id id).1 (number ∙ sym this) in
      (
        p,
        contents_open id (append_active can_map value o.log m).1 p ∙ rw same file,
        this,
        at_end,
        size,
        omega (arith, this, o.newest),
        λ other.
            active-Extends value other m o log' file number
              (contents_open other (append_active can_map value o.log m).1 p),
      )

-- What an append with a pointer leaves.
record Appended (value : List ℕ) (m : VLogManager) (id offset len : ℕ) (m' : VLogManager)
    : Type 0 where
  still_open : IsOpen m'
  before : List ℕ
  stored : contents id m' ≡ before ++ value
  at_end : offset ≡ length before
  size : len ≡ length value
  numbered : id < m'.next_file_id
  grows : (other : ℕ) → Extends (contents other m) (contents other m')

slice_Extends :
    (offset len : ℕ) (a more : List ℕ)
    → offset + len ≤ length a
    → take len (drop offset (a ++ more)) ≡ take len (drop offset a)
slice_Extends zero zero a more h = refl
slice_Extends zero (suc len) [] more h = absurd (omega arith)
slice_Extends zero (suc len) (x ∷ a) more h =
    ap (◌∷◌ x) (slice_Extends zero len a more (omega arith))
slice_Extends (suc offset) zero [] more h = absurd (omega arith)
slice_Extends (suc offset) (suc len) [] more h = absurd (omega arith)
slice_Extends (suc offset) zero (x ∷ a) more h = refl
slice_Extends (suc offset) (suc len) (x ∷ a) more h =
    slice_Extends offset (suc len) a more (omega arith)

slice_end : (a b : List ℕ) → take (length b) (drop (length a) (a ++ b)) ≡ b
slice_end a b =
    ap (take (length b)) (drop-append_length a b)
    ∙ ap (take (length b)) (sym (append-nil b))
    ∙ take-append_length b []

module _ (can_map : ℕ → Bool) (can : CanMap can_map) where
  append_active-Appended :
      (value : List ℕ) (m : VLogManager) (o : IsOpen m) (id offset len : ℕ)
      → (append_active can_map value o.log m).0 ≡ ok (id, offset, len)
      → Appended value m id offset len (append_active can_map value o.log m).1
  append_active-Appended value m o id offset len e =
      let (p, there, this, at_end, size, numbered, grows) =
        append_active-IsOpen can_map can value m o id offset len e in
      record {
        still_open = p;
        before = o.log.file;
        stored = there;
        at_end = at_end;
        size = size;
        numbered = numbered;
        grows = grows;
      }

  append_with-Appended :
      (value : List ℕ) (m : VLogManager) (o : IsOpen m) (id offset len : ℕ)
      → (append_with can_map value (some o.log) m).0 ≡ ok (id, offset, len)
      → Appended value m id offset len (append_with can_map value (some o.log) m).1
  unfolding append_with
  append_with-Appended value m o id offset len e =
      elim (Bool-cases (ltb m.file_size_limit (length o.log.file + length value))) [
        | inr fits ↦ rw fits (append_active-Appended value m o id offset len (rw fits at e))
        | inl full ↦
            let rolled = (roll can_map o.log m).1 in
            let (v, opened, p, this, grown) = roll-IsOpen can_map can m o in
            let done : (append_active can_map value p.log rolled).0 ≡ ok (id, offset, len) =
              ap (λ w. (append_active can_map value w rolled).0) this
              ∙ (rw opened at (rw full at e)) in
            let a = append_active-Appended value rolled p id offset len done in
            rw full (
              rw opened (
                subst (λ w. Appended value m id offset len (append_active can_map value w rolled).1)
                  this
                  (record {
                    still_open = a.still_open;
                    before = a.before;
                    stored = a.stored;
                    at_end = a.at_end;
                    size = a.size;
                    numbered = a.numbered;
                    grows = λ other.
                        Extends-trans (contents other m) (contents other rolled) _ (grown other)
                          (a.grows other);
                  })))
      ]

  append-Appended :
      (value : List ℕ) (m : VLogManager) (o : IsOpen m) (id offset len : ℕ)
      → (append can_map value m).0 ≡ ok (id, offset, len)
      → Appended value m id offset len (append can_map value m).1
  unfolding append
  append-Appended value m o id offset len =
      subst
        (λ a.
          (append_with can_map value a m).0 ≡ ok (id, offset, len)
          → Appended value m id offset len (append_with can_map value a m).1)
        (sym o.active) (append_with-Appended value m o id offset len)

  -- Where files and mappings can be had and no file reaches 2^64 bytes, the pointer that an Append
  -- gives reads the value and lies inside a file with a number handed out, every pointer into what was
  -- there before reads what it read, also after a change of the active file, and the manager stays well
  -- formed.
  pub append_pointer :
      (value : List ℕ) (m : VLogManager) (id offset len : ℕ)
      → IsOpen m
      → (append can_map value m).0 ≡ ok (id, offset, len)
      → ((i : ℕ) → length (contents i (append can_map value m).1) < 2 ^ 64)
      → IsOpen (append can_map value m).1
        × ((read can_map id offset len (append can_map value m).1).0 ≡ ok value)
        × (id < (append can_map value m).1.next_file_id)
        × (offset + len ≤ length (contents id (append can_map value m).1))
        × ((i at l : ℕ)
            → at + l ≤ length (contents i m)
            → (read can_map i at l (append can_map value m).1).0 ≡ (read can_map i at l m).0)
  append_pointer value m id offset len o e small =
      let a = append-Appended value m o id offset len e in
      let m' = (append can_map value m).1 in
      let size = ap length a.stored ∙ length-append a.before value in
      (
        a.still_open,
        read-contents can_map can id offset len m' a.still_open
              (omega (arith, size, a.at_end, a.size)) (small id)
            ∙ ap (λ b. ok (take len (drop offset b))) a.stored
            ∙ ap (λ o. ok (take len (drop o (a.before ++ value)))) a.at_end
            ∙ ap (λ l. ok (take l (drop (length a.before) (a.before ++ value)))) a.size
            ∙ ap ok (slice_end a.before value),
        a.numbered,
        omega (arith, size, a.at_end, a.size),
        λ i at l inside.
            let (more, grown) = a.grows i in
            let longer = ap length grown ∙ length-append (contents i m) more in
            read-contents can_map can i at l m' a.still_open (omega (arith, longer)) (small i)
            ∙ ap (λ b. ok (take l (drop at b))) grown
            ∙ ap ok (slice_Extends at l (contents i m) more inside)
            ∙ sym (read-contents can_map can i at l m o inside (omega (arith, longer, small i))),
      )

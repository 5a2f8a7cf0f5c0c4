-- ===== src/VLog/Pointers.antt =====
-- The pointers that Append hands out: what they read, now and after later appends.
use lightkv.Prelude.{
  ℕ, ◌+◌, ◌*◌, ◌%◌, ◌^◌, ◌≤◌, ◌<◌, ◌≡◌, inl, inr, refl, sym, ap, ◌∙◌, arith, Bool, true, Bool-cases,
  Option, Option-cases, none, some, List, [], ◌∷◌, ◌++◌, length, take, drop, All, ltb, ◌==◌, ==_iff,
  if◌then◌else◌,
}
use lightkv.VLog.{
  VLog, initial_size, open_log, grow_file, Result, ok, io_error, fault, store, append_log, read_log,
  VLogManager, append_active, find_log, file_bytes, read_closed, read_with, read,
}

-- The files and mappings can be had.
abbrev pub CanMap : (ℕ → Bool) → Type 0
CanMap can_map = (n : ℕ) → can_map n ≡ true

abbrev pub IsCached : ℕ → List (ℕ × List ℕ) → ℕ × VLog → Type 0
IsCached active disk c = (c.0 < active) × (c.1.mapped ≡ true) × (c.1.file ≡ file_bytes c.0 disk)

-- A manager in use: the active log has the highest number, and what Read has opened is what the disk
-- holds.
pub record IsOpen (m : VLogManager) : Type 0 where
  pub log : VLog
  pub active : m.active ≡ some log
  pub newest : log.file_id < m.next_file_id
  pub mapped : log.mapped ≡ true
  pub older : All (λ f. f.0 < log.file_id) m.disk
  pub cached : All (IsCached log.file_id m.disk) m.read_cache

-- The bytes behind a file's number.
unfoldable pub contents_with : ℕ → Option VLog → List (ℕ × List ℕ) → List ℕ
contents_with id none disk = file_bytes id disk
contents_with id (some v) disk = if v.file_id == id then v.file else file_bytes id disk

unfoldable pub contents : ℕ → VLogManager → List ℕ
contents id m = contents_with id m.active m.disk

pub contents_open :
    (id : ℕ) (m : VLogManager) (o : IsOpen m)
    → contents id m ≡ (if o.log.file_id == id then o.log.file else file_bytes id m.disk)
unfolding contents contents_with
contents_open id m o = ap (λ a. contents_with id a m.disk) o.active

read_log-contents :
    (offset len : ℕ) (v : VLog)
    → v.mapped ≡ true
    → offset + len ≤ length v.file
    → length v.file < 2 ^ 64
    → read_log offset len v ≡ ok (take len (drop offset v.file))
unfolding read_log
read_log-contents offset len v mapped inside small =
    let whole : (offset + len) % 2 ^ 64 ≡ offset + len = omega arith in
    rw whole (rw mapped (ground arith))

some_eq : {A : Type 0} (a b : A) → some a ≡ some b → a ≡ b
some_eq a b h = cc

pointer :
    (number : ℕ) (r : Result (ℕ × ℕ)) (id offset len : ℕ)
    → ◌≡◌ {A = Result (ℕ × ℕ × ℕ)}
        (elim r [
          | ok (offset', len') ↦ ok (number, offset', len')
          | io_error ↦ io_error
          | fault ↦ fault
        ])
        (ok (id, offset, len))
    → (id ≡ number) × (r ≡ ok (offset, len))
pointer number (ok (a, b)) id offset len e = ground arith
pointer number io_error id offset len e = absurd (ground arith)
pointer number fault id offset len e = absurd (ground arith)

pub find_cached :
    (id active : ℕ) (disk : List (ℕ × List ℕ)) (v : VLog) (cache : List (ℕ × VLog))
    → All (IsCached active disk) cache
    → find_log id cache ≡ some v
    → (v.mapped ≡ true) × (v.file ≡ file_bytes id disk)
unfolding find_log
find_cached id active disk v [] all e = absurd (ground arith)
find_cached id active disk v ((i, w) ∷ cache) all e = elim (Bool-cases (i == id)) [
  | inl same ↦
      let this : w ≡ v = some_eq w v (rw same at e) in
      let number : i ≡ id = (==_iff i id).0 same in
      (
        ap (λ (x : VLog). x.mapped) (sym this) ∙ all.0.1,
        ap (λ (x : VLog). x.file) (sym this) ∙ all.0.2 ∙ ap (λ n. file_bytes n disk) number,
      )
  | inr other ↦ find_cached id active disk v cache all.1 (rw other at e)
]

module _ (can_map : ℕ → Bool) (can : CanMap can_map) where
  pub open_log-file :
      (id : ℕ) (bytes : List ℕ)
      → (v : VLog) × (open_log can_map id bytes ≡ some v)
        × (v.file ≡ bytes)
        × (v.mapped ≡ true)
        × (v.file_id ≡ id)
  unfolding open_log
  open_log-file id bytes =
      let size = if ltb initial_size (length bytes) then length bytes else initial_size in
      (
        record { file_id = id; file = bytes; file_size = size; mapped = true },
        rw (can size) refl,
        refl,
        refl,
        refl,
      )

  read_closed-bytes :
      (id offset len : ℕ) (m : VLogManager) (o : IsOpen m)
      → offset + len ≤ length (file_bytes id m.disk)
      → length (file_bytes id m.disk) < 2 ^ 64
      → (read_closed can_map id offset len m).0 ≡ ok (take len (drop offset (file_bytes id m.disk)))
  unfolding read_closed
  read_closed-bytes id offset len m o inside small =
      elim (Option-cases (find_log id m.read_cache)) [
        | inr (v, e) ↦
            let (mapped, same) = find_cached id o.log.file_id m.disk v m.read_cache o.cached e in
            rw (e, read_closed)
              (read_log-contents offset len v mapped (omega (arith, ap length same))
                  (omega (arith, ap length same))
                ∙ ap (λ b. ok (take len (drop offset b))) same)
        | inl e ↦
            let (v, opened, same, mapped, number) = open_log-file id (file_bytes id m.disk) in
            rw (e, read_closed)
              (rw opened (
                read_log-contents offset len v mapped (omega (arith, ap length same))
                  (omega (arith, ap length same))
                ∙ ap (λ b. ok (take len (drop offset b))) same))
      ]

  -- A pointer into what is there reads it.
  pub read-contents :
      (id offset len : ℕ) (m : VLogManager) (o : IsOpen m)
      → offset + len ≤ length (contents id m)
      → length (contents id m) < 2 ^ 64
      → (read can_map id offset len m).0 ≡ ok (take len (drop offset (contents id m)))
  unfolding read read_with
  read-contents id offset len m o inside small =
      let size = ap length (contents_open id m o) in
      ap (λ a. (read_with can_map id offset len a m).0) o.active
      ∙ elim (Bool-cases (o.log.file_id == id)) [
        | inl this ↦
            let here : contents id m ≡ o.log.file = contents_open id m o ∙ rw this refl in
            rw this (
              read_log-contents offset len o.log o.mapped (omega (arith, ap length here))
                (omega (arith, ap length here)))
            ∙ ap (λ b. ok (take len (drop offset b))) (sym here)
        | inr other ↦
            let there : contents id m ≡ file_bytes id m.disk =
              contents_open id m o ∙ rw other refl in
            rw other (
              read_closed-bytes id offset len m o (omega (arith, ap length there))
                (omega (arith, ap length there)))
            ∙ ap (λ b. ok (take len (drop offset b))) (sym there)
      ]

  -- What an append on a log did, if it gives a pointer.
  pub append_log-ok :
      (value : List ℕ) (v : VLog) (offset len : ℕ)
      → v.mapped ≡ true
      → (append_log can_map value v).0 ≡ ok (offset, len)
      → ((append_log can_map value v).1.file ≡ v.file ++ value)
        × ((append_log can_map value v).1.mapped ≡ true)
        × ((append_log can_map value v).1.file_id ≡ v.file_id)
        × (offset ≡ length v.file)
        × (len ≡ length value)
  unfolding append_log store grow_file
  append_log-ok value v offset len mapped e = ground (arith, can (v.file_size * 2))

  pub append_active-ok :
      (value : List ℕ) (v : VLog) (m : VLogManager) (id offset len : ℕ)
      → (append_active can_map value v m).0 ≡ ok (id, offset, len)
      → (id ≡ v.file_id) × ((append_log can_map value v).0 ≡ ok (offset, len))
  unfolding append_active
  append_active-ok value v m id offset len e =
      pointer v.file_id (append_log can_map value v).0 id offset len e

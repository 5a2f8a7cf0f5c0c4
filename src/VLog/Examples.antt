-- ===== src/VLog/Examples.antt =====
-- A value log whose active file is nearly full, so that an append begins a new one.
use lightkv.Prelude.{
  ℕ, ◌+◌, ◌^◌, ◌≤◌, ◌<◌, ◌==◌, ◌≡◌, refl, inl, inr, arith, Bool, true, Bool-cases, some, [], ◌∷◌,
  length,
}
use lightkv.VLog.{
  VLogManager, ok, open_log, or_unmapped, roll, closed_bytes, append_active, append_log, store,
  append_with, append, file_bytes, read,
}
use lightkv.VLog.Pointers.{IsOpen, contents, contents_with}
use lightkv.VLog.Appends.{append_pointer}

abbrev always : ℕ → Bool
always size = true

abbrev nearly_full : VLogManager
nearly_full = record {
  file_size_limit = 4;
  active = some (record { file_id = 1; file = 10 ∷ 11 ∷ 12 ∷ []; file_size = 8192; mapped = true });
  next_file_id = 2;
  disk = [];
  read_cache = [];
}

nearly_full-IsOpen : IsOpen nearly_full
nearly_full-IsOpen = record {
  log = record { file_id = 1; file = 10 ∷ 11 ∷ 12 ∷ []; file_size = 8192; mapped = true };
  active = refl;
  newest = omega arith;
  mapped = refl;
  older = tt;
  cached = tt;
}

rolled : (append always (20 ∷ 21 ∷ []) nearly_full).0 ≡ ok (2, 0, 2)
unfolding append append_with roll or_unmapped closed_bytes open_log append_active append_log store
rolled = refl

short_files : (i : ℕ) → length (contents i (append always (20 ∷ 21 ∷ []) nearly_full).1) < 2 ^ 64
unfolding append append_with roll or_unmapped closed_bytes open_log append_active append_log store
    contents contents_with file_bytes
short_files i = elim (Bool-cases (2 == i)) [
  | inl second ↦ rw second (omega arith)
  | inr other ↦ rw other (elim (Bool-cases (1 == i)) [
    | inl first ↦ rw first (omega arith)
    | inr missing ↦ rw missing (omega arith)
  ])
]

append_pointer_example :
    IsOpen (append always (20 ∷ 21 ∷ []) nearly_full).1
    × ((read always 2 0 2 (append always (20 ∷ 21 ∷ []) nearly_full).1).0 ≡ ok (20 ∷ 21 ∷ []))
    × (2 < (append always (20 ∷ 21 ∷ []) nearly_full).1.next_file_id)
    × (0 + 2 ≤ length (contents 2 (append always (20 ∷ 21 ∷ []) nearly_full).1))
    × ((i at l : ℕ)
        → at + l ≤ length (contents i nearly_full)
        → (read always i at l (append always (20 ∷ 21 ∷ []) nearly_full).1).0
          ≡ (read always i at l nearly_full).0)
append_pointer_example =
    append_pointer always (λ n. refl) (20 ∷ 21 ∷ []) nearly_full 2 0 2 nearly_full-IsOpen rolled
      short_files

-- ===== src/VLog.antt =====
-- src/vlog.cpp: the value log. A log's `file` is its bytes up to `write_pos_`. `can_map` says for which
-- sizes `ftruncate` and `mmap` succeed. `disk` holds the files that are not the active one, and
-- `read_cache` those of them that Read has opened. A file of a number not handed out yet is not there.
pub mod Pointers
pub mod Appends
pub mod Kept
pub mod Examples
use lightkv.Prelude.{
  ℕ, zero, suc, ◌+◌, ◌-◌, ◌*◌, ◌%◌, ◌^◌, ◌≡◌, Bool, true, false, Option, none, some, List, [], ◌∷◌,
  ◌++◌, length, take, drop, replicate, ltb, leb, ◌==◌, if◌then◌else◌,
}

pub record VLog : Type 0 where
  pub file_id : ℕ
  pub file : List ℕ
  pub file_size : ℕ
  pub mapped : Bool

-- kInitialVLogSize
abbrev pub initial_size : ℕ
initial_size = 67108864

-- VLog::Open, on a file with these bytes.
pub open_log : (ℕ → Bool) → ℕ → List ℕ → Option VLog
open_log can_map id bytes =
    let size = if ltb initial_size (length bytes) then length bytes else initial_size in
    if can_map size
    then some (record { file_id = id; file = bytes; file_size = size; mapped = true })
    else none

-- VLog::GrowFile; the old mapping is gone either way.
unfoldable pub grow_file : (ℕ → Bool) → VLog → Option VLog
grow_file can_map v =
    if can_map (v.file_size * 2)
    then some (record v { file_size = v.file_size * 2; mapped = true })
    else none

-- What an append or a read ends in; `fault` is an access outside the mapping.
pub data Result (A : Type 0) : Type 0 where
  ok : A → Result A
  io_error : Result A
  fault : Result A

-- The copy of VLog::Append, with the offset and the length of the value.
unfoldable pub store : List ℕ → VLog → Result (ℕ × ℕ) × VLog
store value v =
    if leb (length v.file + length value) v.file_size
    then (if v.mapped
        then (ok (length v.file, length value), record v { file = v.file ++ value })
        else (fault, v))
    else (fault, v)

-- VLog::Append
unfoldable pub append_log : (ℕ → Bool) → List ℕ → VLog → Result (ℕ × ℕ) × VLog
append_log can_map value v =
    if ltb v.file_size (length v.file + length value + 4096)
    then elim (grow_file can_map v) [
      | none ↦ (io_error, record v { mapped = false })
      | some grown ↦ store value grown
    ]
    else store value v

-- VLog::Read; the sum of the range test is a `uint64_t`, and a sum that wraps is beyond any mapping.
pub read_log : ℕ → ℕ → VLog → Result (List ℕ)
read_log offset len v =
    if ltb (length v.file) ((offset + len) % 2 ^ 64)
    then io_error
    else if v.mapped
    then (if leb (offset + len) (length v.file) then ok (take len (drop offset v.file)) else fault)
    else fault

-- VLog::Close, for the bytes that stay on disk: an empty log is not cut to its size.
pub closed_bytes : VLog → List ℕ
closed_bytes v = if length v.file == 0 then replicate v.file_size 0 else v.file

-- VLogManager
pub record VLogManager : Type 0 where
  pub file_size_limit : ℕ
  pub active : Option VLog
  pub next_file_id : ℕ
  pub disk : List (ℕ × List ℕ)
  pub read_cache : List (ℕ × VLog)

-- VLogManager::Append behind the choice of the file.
unfoldable pub append_active :
    (ℕ → Bool) → List ℕ → VLog → VLogManager → Result (ℕ × ℕ × ℕ) × VLogManager
append_active can_map value v m =
    let (result, v') = append_log can_map value v in
    (
      elim result [
        | ok (offset, len) ↦ ok (v.file_id, offset, len)
        | io_error ↦ io_error
        | fault ↦ fault
      ],
      record m { active = some v' },
    )

pub or_unmapped : ℕ → Option VLog → VLog
or_unmapped id none = record { file_id = id; file = []; file_size = initial_size; mapped = false }
or_unmapped id (some v) = v

-- A new active file; where it cannot be opened, the log stays without a mapping.
pub roll : (ℕ → Bool) → VLog → VLogManager → Option VLog × VLogManager
roll can_map old m =
    let fresh = open_log can_map m.next_file_id [] in
    (
      fresh,
      record m {
        active = some (or_unmapped m.next_file_id fresh);
        next_file_id = m.next_file_id + 1;
        disk = (old.file_id, closed_bytes old) ∷ m.disk;
      },
    )

-- VLogManager::Append, by the active log.
unfoldable pub append_with :
    (ℕ → Bool) → List ℕ → Option VLog → VLogManager → Result (ℕ × ℕ × ℕ) × VLogManager
append_with can_map value none m = (io_error, m)
append_with can_map value (some v) m =
    if ltb m.file_size_limit (length v.file + length value)
    then (let (fresh, m') = roll can_map v m in
        elim fresh [ none ↦ (io_error, m') | some v' ↦ append_active can_map value v' m' ])
    else append_active can_map value v m

-- VLogManager::Append
unfoldable pub append : (ℕ → Bool) → List ℕ → VLogManager → Result (ℕ × ℕ × ℕ) × VLogManager
append can_map value m = append_with can_map value m.active m

pub find_log {ℓ} : {A : Type ℓ} → ℕ → List (ℕ × A) → Option A
find_log id [] = none
find_log id ((i, a) ∷ logs) = if i == id then some a else find_log id logs

-- The bytes of a file; opening creates a missing one.
unfoldable pub file_bytes : ℕ → List (ℕ × List ℕ) → List ℕ
file_bytes id [] = []
file_bytes id ((i, bytes) ∷ disk) = if i == id then bytes else file_bytes id disk

-- VLogManager::Read of a file that is not the active one.
pub read_closed : (ℕ → Bool) → ℕ → ℕ → ℕ → VLogManager → Result (List ℕ) × VLogManager
read_closed can_map id offset len m = elim (find_log id m.read_cache) [
  | some v ↦ (read_log offset len v, m)
  | none ↦ elim (open_log can_map id (file_bytes id m.disk)) [
    | none ↦ (io_error, m)
    | some v ↦ (read_log offset len v, record m { read_cache = (id, v) ∷ m.read_cache })
  ]
]

-- VLogManager::Read, by the active log.
pub read_with : (ℕ → Bool) → ℕ → ℕ → ℕ → Option VLog → VLogManager → Result (List ℕ) × VLogManager
read_with can_map id offset len none m = read_closed can_map id offset len m
read_with can_map id offset len (some v) m =
    if v.file_id == id then (read_log offset len v, m) else read_closed can_map id offset len m

-- VLogManager::Read
pub read : (ℕ → Bool) → ℕ → ℕ → ℕ → VLogManager → Result (List ℕ) × VLogManager
read can_map id offset len m = read_with can_map id offset len m.active m

-- VLogManager::VLogManager and Initialize, where `max_id` is the highest number of a file found.
unfoldable pub initialize : (ℕ → Bool) → ℕ → ℕ → List (ℕ × List ℕ) → Option VLogManager
initialize can_map limit max_id disk = elim (open_log can_map (max_id + 1) []) [
  | none ↦ none
  | some v ↦ some (record {
    file_size_limit = limit;
    active = some v;
    next_file_id = max_id + 2;
    disk = disk;
    read_cache = [];
  })
]

-- ===== src/Engine/Lookup.antt =====
-- src/db_impl.cpp: DBImpl::Get over the memtables and the table files. A table file is what its lookup
-- answers; `last_seq_` is read at the start of a Get and is the same at its end.
use lightkv.Prelude.{
  ℕ, Bool, true, false, not, Option, none, some, List, [], ◌∷◌, length, drop, ltb, leb, ◌==◌,
  if◌then◌else◌, ◌&&◌, ◌||◌,
}
use lightkv.Slice.{less}
use lightkv.Encoding.{decode_fixed64}
use lightkv.InternalKey.{type_deletion}
use lightkv.VLog
use lightkv.VLog.{VLogManager}
use lightkv.MemTable
use lightkv.MemTable.{MemTable, RangeTombstone, Lookup, shadows, is_range_deleted}
use lightkv.Engine.{Status, Db}

-- What SSTable::Get answers: a version with its value, number and type, or not found, or damage.
pub data TableAnswer : Type 0 where
  hit : List ℕ → ℕ → ℕ → TableAnswer
  miss : TableAnswer
  damaged : Status → TableAnswer

-- SSTable, as Get uses it.
pub record Table : Type 0 where
  pub may_match : List ℕ → Bool
  pub get : List ℕ → ℕ → TableAnswer
  pub smallest_key : List ℕ
  pub largest_key : List ℕ

-- DBImpl::CoveredByRangeTombstone; its loop tests what MemTable::IsRangeDeleted tests.
unfoldable pub covered_by_tombstone : List ℕ → ℕ → ℕ → List RangeTombstone → Bool
covered_by_tombstone key seq snapshot [] = false
covered_by_tombstone key seq snapshot (t ∷ tombstones) =
    if leb t.tombstone_seq seq || ltb snapshot t.tombstone_seq
    then covered_by_tombstone key seq snapshot tombstones
    else if not (less key t.begin_key) && less key t.end_key
    then true
    else covered_by_tombstone key seq snapshot tombstones

-- How a value is stored, from its first byte on: what `unwrap_vlog` makes of it.
unfoldable pub unwrap : (ℕ → Bool) → List ℕ → VLogManager → (Status × List ℕ) × VLogManager
unwrap can_map [] vlog = ((Status.ok, []), vlog)
unwrap can_map (tag ∷ v) vlog =
    if tag == 0
    then ((Status.ok, v), vlog)
    else if tag == 1 && length v == 24
    then (let (result, vlog') =
          VLog.read can_map (decode_fixed64 v) (decode_fixed64 (drop 8 v))
            (decode_fixed64 (drop 16 v)) vlog in
        (
          elim result [
            | VLog.ok raw ↦ (Status.ok, raw)
            | VLog.io_error ↦ (Status.io_error, tag ∷ v)
            | VLog.fault ↦ (Status.crash, [])
          ],
          vlog',
        ))
    else ((Status.ok, tag ∷ v), vlog)

-- The version that a search over table files has found so far, if any, or the damage it met.
pub data Search : Type 0 where
  best : Option (List ℕ × ℕ × ℕ) → Search
  broken : Status → Search

-- `if (found && s <= best_seq) return Status::OK();` and the assignments.
unfoldable pub better : List ℕ → ℕ → ℕ → Option (List ℕ × ℕ × ℕ) → Option (List ℕ × ℕ × ℕ)
better value seq type none = some (value, seq, type)
better value seq type (some (v, s, t)) =
    if leb seq s then some (v, s, t) else some (value, seq, type)

-- `consider` in DBImpl::Get
unfoldable pub consider : List ℕ → ℕ → Table → Option (List ℕ × ℕ × ℕ) → Search
consider key snapshot table so_far =
    if not (table.may_match key) then best so_far else elim (table.get key snapshot) [
      | hit value seq type ↦ best (better value seq type so_far)
      | miss ↦ best so_far
      | damaged s ↦ broken s
    ]

-- `if (found && best_seq == last_seq_) break;`
unfoldable pub is_last : ℕ → Option (List ℕ × ℕ × ℕ) → Bool
is_last last_seq none = false
is_last last_seq (some (v, s, t)) = s == last_seq

-- The loop over level 0, newest file first.
unfoldable pub search_level0 : List ℕ → ℕ → ℕ → List Table → Option (List ℕ × ℕ × ℕ) → Search
search_level0 key snapshot last_seq [] so_far = best so_far
search_level0 key snapshot last_seq (table ∷ tables) so_far =
    elim (consider key snapshot table so_far) [
      | broken s ↦ broken s
      | best now ↦
          if is_last last_seq now then best now else search_level0 key snapshot last_seq tables now
    ]

-- `std::lower_bound` over a level's files: the first whose largest key is not less.
unfoldable pub first_reaching : List ℕ → List Table → Option Table
first_reaching key [] = none
first_reaching key (table ∷ tables) =
    if less table.largest_key key then first_reaching key tables else some table

-- The loop over the levels from 1 on.
unfoldable pub search_levels : List ℕ → ℕ → List (List Table) → Option (List ℕ × ℕ × ℕ) → Search
search_levels key snapshot [] so_far = best so_far
search_levels key snapshot (files ∷ levels) so_far = elim (first_reaching key files) [
  | none ↦ search_levels key snapshot levels so_far
  | some table ↦
      let skipped = search_levels key snapshot levels so_far in
      if less key table.smallest_key then skipped else elim (consider key snapshot table so_far) [
        | broken s ↦ broken s
        | best now ↦ search_levels key snapshot levels now
      ]
]

-- The search over all table files; `level0` is listed from its last file to its first.
unfoldable pub search_tables : List ℕ → ℕ → ℕ → List Table → List (List Table) → Search
search_tables key snapshot last_seq level0 levels =
    elim (search_level0 key snapshot last_seq level0 none) [
      | broken s ↦ broken s
      | best now ↦ search_levels key snapshot levels now
    ]

-- A result of Get with the value log as its reads leave it.
abbrev pub keep : Db → (Status × List ℕ) × VLogManager → (Status × List ℕ) × Db
keep db (result, vlog) = (result, record db { vlog = vlog })

-- The end of DBImpl::Get, for what the table files hold.
unfoldable pub get_found : (ℕ → Bool) → List ℕ → ℕ → Db → Search → (Status × List ℕ) × Db
get_found can_map key snapshot db (broken s) = ((s, []), db)
get_found can_map key snapshot db (best none) = ((Status.not_found, []), db)
get_found can_map key snapshot db (best (some (v, s, t))) =
    if t == type_deletion
    then ((Status.not_found, []), db)
    else if covered_by_tombstone key s snapshot db.range_tombstones
    then ((Status.not_found, []), db)
    else keep db (unwrap can_map v db.vlog)

-- The loop of DBImpl::Get over the two memtables, and what follows it.
unfoldable pub get_tables :
    (ℕ → Bool) → List ℕ → ℕ → Db → List MemTable → (Status × List ℕ) × Db → (Status × List ℕ) × Db
get_tables can_map key snapshot db [] below = below
get_tables can_map key snapshot db (table ∷ tables) below =
    elim (MemTable.find key snapshot table) [
      | Lookup.not_found ↦ get_tables can_map key snapshot db tables below
      | Lookup.deleted seq ↦ ((Status.not_found, []), db)
      | Lookup.found value seq ↦
          if covered_by_tombstone key seq snapshot db.range_tombstones
          then ((Status.not_found, []), db)
          else keep db (unwrap can_map value db.vlog)
    ]

abbrev pub if_there : Option MemTable → List MemTable
if_there none = []
if_there (some table) = table ∷ []

abbrev pub memtables : Db → List MemTable
memtables db = db.mem ∷ if_there db.imm

-- `options.snapshot_seq > 0 ? options.snapshot_seq : last_seq_`
abbrev pub snapshot_of : ℕ → Db → ℕ
snapshot_of snapshot_seq db = if ltb 0 snapshot_seq then snapshot_seq else db.last_seq

-- DBImpl::Get
unfoldable pub get :
    (ℕ → Bool) → ℕ → List ℕ → List Table → List (List Table) → Db → (Status × List ℕ) × Db
get can_map snapshot_seq key level0 levels db =
    let snapshot = snapshot_of snapshot_seq db in
    get_tables can_map key snapshot db (memtables db)
      (get_found can_map key snapshot db (search_tables key snapshot db.last_seq level0 levels))

-- ===== src/SkipList.antt =====
-- include/lightkv/skiplist.h: the skip list of the memtable. A level is the chain of its nodes, from
-- the head's pointer on; a node on a level is a node whose pointer there is followed. The levels are
-- listed from the highest in use down to level 0, and `none` is the head. A node's number stands for
-- its address. What RandomHeight answers is an argument. Each method holds the list's lock.
pub mod Level
pub mod Levels
pub mod Insert
pub mod Versions
use lightkv.Prelude.{
  ℕ, zero, suc, ◌+◌, ◌-◌, ◌≡◌, Bool, true, false, Option, none, some, List, [], ◌∷◌, ◌++◌, length,
  replicate, bytes_eq, ◌==◌, if◌then◌else◌,
}
use lightkv.Slice.{less}

-- Node
pub record Node : Type 0 where
  pub id : ℕ
  pub key : List ℕ
  pub value : List ℕ
  pub seq : ℕ
  pub height : ℕ
  pub is_deleted : Bool

pub record SkipList : Type 0 where
  pub levels : List (List Node)
  pub allocated : ℕ

-- The nodes behind `cur` on a level: `cur->Next(i)` and what follows it.
unfoldable pub behind : Option Node → List Node → List Node
behind none level = level
behind (some c) [] = []
behind (some c) (n ∷ level) = if n.id == c.id then level else behind (some c) level

-- `while (Node* next = cur->Next(i))`: where it stops, and the nodes behind that.
unfoldable pub walk : List ℕ → Option Node → List Node → Option Node × List Node
walk key cur [] = (cur, [])
walk key cur (next ∷ level) =
    if less next.key key then walk key (some next) level else (cur, next ∷ level)

-- The descent of Insert and InsertDeletion, which keeps `prev[i]`.
unfoldable pub find_prevs : List ℕ → Option Node → List (List Node) → List (Option Node)
find_prevs key cur [] = []
find_prevs key cur (level ∷ levels) =
    let prev = (walk key cur (behind cur level)).0 in prev ∷ find_prevs key prev levels

-- The descent of Find, Contains and SeekGE: the nodes of level 0 from `cur->Next(0)` on.
unfoldable pub descend : List ℕ → Option Node → List (List Node) → List Node
descend key cur [] = []
descend key cur (level ∷ []) = (walk key cur (behind cur level)).1
descend key cur (level ∷ lower ∷ levels) =
    descend key (walk key cur (behind cur level)).0 (lower ∷ levels)

-- `node->SetNext(i, prev[i]->Next(i)); prev[i]->SetNext(i, node);`
unfoldable pub link : Node → Option Node → List Node → List Node
link node none level = node ∷ level
link node (some prev) [] = []
link node (some prev) (n ∷ level) =
    if n.id == prev.id then n ∷ node ∷ level else n ∷ link node (some prev) level

-- The loop over the levels below the new node's height; `above` levels are higher.
unfoldable pub link_levels : ℕ → Node → List (Option Node) → List (List Node) → List (List Node)
link_levels above node (prev ∷ prevs) (level ∷ levels) = elim above [
  | zero ↦ link node prev level ∷ link_levels zero node prevs levels
  | suc more ↦ level ∷ link_levels more node prevs levels
]
link_levels above node _ _ = []

-- Insert and InsertDeletion behind the choice of the height: levels that are new begin at the head.
unfoldable pub insert_node : List ℕ → List ℕ → ℕ → ℕ → Bool → SkipList → SkipList
insert_node key value seq height is_deleted list =
    let cur_height = length list.levels in
    let node : Node = record {
      id = list.allocated;
      key = key;
      value = value;
      seq = seq;
      height = height;
      is_deleted = is_deleted;
    } in
    record {
      levels =
          link_levels (cur_height - height) node
            (replicate (height - cur_height) none ++ find_prevs key none list.levels)
            (replicate (height - cur_height) [] ++ list.levels);
      allocated = list.allocated + 1;
    }

-- SkipList::Insert
unfoldable pub insert : List ℕ → List ℕ → ℕ → ℕ → SkipList → SkipList
insert key value seq height list = insert_node key value seq height false list

-- SkipList::InsertDeletion
unfoldable pub insert_deletion : List ℕ → ℕ → ℕ → SkipList → SkipList
insert_deletion key seq height list = insert_node key [] seq height true list

-- An iterator is the chain of the nodes from its own on; `[]` is not valid.
pub seek_ge : List ℕ → SkipList → List Node
seek_ge key list = descend key none list.levels

unfoldable pub if_equal : List ℕ → List Node → List Node
if_equal key [] = []
if_equal key (n ∷ rest) = if bytes_eq n.key key then n ∷ rest else []

-- SkipList::Find
unfoldable pub find : List ℕ → SkipList → List Node
find key list = if_equal key (descend key none list.levels)

-- SkipList::Contains
pub contains : List ℕ → SkipList → Bool
contains key list = elim (find key list) [ [] ↦ false | n ∷ rest ↦ true ]

-- Level 0 of a list of levels.
unfoldable pub bottom : List (List Node) → List Node
bottom [] = []
bottom (level ∷ []) = level
bottom (level ∷ lower ∷ levels) = bottom (lower ∷ levels)

-- SkipList::SeekToFirst
unfoldable pub seek_to_first : SkipList → List Node
seek_to_first list = bottom list.levels

-- SkipList::SkipList: one level, empty.
unfoldable pub new_list : SkipList
new_list = record { levels = [] ∷ []; allocated = 0 }

-- ===== src/SkipList/Insert.antt =====
-- The skip list between two calls, and what Insert, InsertDeletion, Find and SeekGE do to level 0.
use lightkv.Prelude.{
  ℕ, zero, suc, ◌+◌, ◌-◌, ◌<◌, ◌≤◌, ◌≡◌, inl, inr, refl, sym, ap, ◌∙◌, arith, Bool, Bool-cases,
  none, List, [], ◌∷◌, length, All,
}
use lightkv.Slice.{less}
use lightkv.SkipList.{Node, SkipList, link_levels, insert_node, bottom, seek_ge, new_list}
use lightkv.SkipList.Level.{from_key, place, Fresh, IsLevel}
use lightkv.SkipList.Levels.{
  IsTower, placed, link_levels-placed, placed-IsTower, bottom-placed, descend_end, grown,
  find_prevs-grown, grown-IsTower, IsStart-none, length-grown, bottom-grown,
}

abbrev Numbered : ℕ → List (List Node) → Type 0
Numbered n levels = All (λ level. All (λ (m : Node). m.id < n) level) levels

-- Each level is sorted by key and holds a node once, a node of a level is on the level below, and the
-- addresses handed out are below the next one.
pub record IsSkipList (list : SkipList) : Type 0 where
  pub tower : IsTower list.levels
  pub used : 1 ≤ length list.levels
  pub numbered : Numbered list.allocated list.levels

-- The node that an Insert makes.
abbrev pub new_node : List ℕ → List ℕ → ℕ → ℕ → Bool → SkipList → Node
new_node key value seq height is_deleted list = record {
  id = list.allocated;
  key = key;
  value = value;
  seq = seq;
  height = height;
  is_deleted = is_deleted;
}

Fresh-level : (n : ℕ) (level : List Node) → All (λ (m : Node). m.id < n) level → Fresh n level
Fresh-level n [] h = tt
Fresh-level n (m ∷ level) h = (ground (arith, h.0), Fresh-level n level h.1)

Fresh-levels : (n : ℕ) (levels : List (List Node)) → Numbered n levels → All (Fresh n) levels
Fresh-levels n [] h = tt
Fresh-levels n (level ∷ levels) h = (Fresh-level n level h.0, Fresh-levels n levels h.1)

more_numbers :
    (n : ℕ) (level : List Node)
    → All (λ (m : Node). m.id < n) level
    → All (λ (m : Node). m.id < n + 1) level
more_numbers n [] h = tt
more_numbers n (m ∷ level) h = (omega (arith, h.0), more_numbers n level h.1)

place-numbered :
    (n : ℕ) (node : Node) (level : List Node)
    → node.id ≡ n
    → All (λ (m : Node). m.id < n) level
    → All (λ (m : Node). m.id < n + 1) (place node level)
unfolding place
place-numbered n node [] e h = (omega arith, tt)
place-numbered n node (m ∷ level) e h = elim (Bool-cases (less m.key node.key)) [
  | inl small ↦ rw small (omega (arith, h.0), place-numbered n node level e h.1)
  | inr big ↦ rw big (omega arith, (omega (arith, h.0), more_numbers n level h.1))
]

placed-Numbered :
    (n above : ℕ) (node : Node) (levels : List (List Node))
    → node.id ≡ n
    → Numbered n levels
    → Numbered (n + 1) (placed above node levels)
unfolding placed
placed-Numbered n above node [] e h = tt
placed-Numbered n zero node (level ∷ levels) e h =
    (place-numbered n node level e h.0, placed-Numbered n zero node levels e h.1)
placed-Numbered n (suc above) node (level ∷ levels) e h =
    (more_numbers n level h.0, placed-Numbered n above node levels e h.1)

grown-Numbered :
    (n more : ℕ) (levels : List (List Node)) → Numbered n levels → Numbered n (grown more levels)
unfolding grown
grown-Numbered n zero levels h = h
grown-Numbered n (suc more) levels h = (tt, grown-Numbered n more levels h)

length-placed :
    (above : ℕ) (node : Node) (levels : List (List Node))
    → length (placed above node levels) ≡ length levels
unfolding placed
length-placed above node [] = refl
length-placed zero node (level ∷ levels) = ap suc (length-placed zero node levels)
length-placed (suc above) node (level ∷ levels) = ap suc (length-placed above node levels)

module _ (key value : List ℕ) (seq height : ℕ) (is_deleted : Bool) (list : SkipList)
    (ok : IsSkipList list) where
  abbrev node : Node
  node = new_node key value seq height is_deleted list

  abbrev all_levels : List (List Node)
  all_levels = grown (height - length list.levels) list.levels

  abbrev above : ℕ
  above = length list.levels - height

  insert_levels :
      (insert_node key value seq height is_deleted list).levels ≡ placed above node all_levels
  unfolding insert_node grown
  insert_levels =
      ap (λ prevs. link_levels above node prevs all_levels)
        (sym (find_prevs-grown (height - length list.levels) key list.levels))
      ∙ link_levels-placed above node none all_levels
          (grown-IsTower (height - length list.levels) list.levels ok.tower)
          (IsStart-none key all_levels)

  pub insert-IsSkipList : 1 ≤ height → IsSkipList (insert_node key value seq height is_deleted list)
  unfolding insert_node
  insert-IsSkipList tall =
      let more = height - length list.levels in
      let numbered = grown-Numbered list.allocated more list.levels ok.numbered in
      record {
        tower = rw insert_levels (
            placed-IsTower above node all_levels (grown-IsTower more list.levels ok.tower)
              (Fresh-levels list.allocated all_levels numbered));
        used = omega (
          arith,
          ap length insert_levels,
          length-placed above node all_levels,
          length-grown more list.levels,
          ok.used,
        );
        numbered =
            rw insert_levels (placed-Numbered list.allocated above node all_levels refl numbered);
      }

  bottom_of_grown :
      (more : ℕ) (levels : List (List Node))
      → 1 ≤ length levels
      → bottom (grown more levels) ≡ bottom levels
  bottom_of_grown more [] h = absurd (omega arith)
  bottom_of_grown more (level ∷ levels) h = bottom-grown more level levels

  -- On level 0 the new node comes in front of the nodes with its key.
  pub bottom-insert :
      1 ≤ height
      → bottom (insert_node key value seq height is_deleted list).levels
        ≡ place node (bottom list.levels)
  bottom-insert tall =
      let more = height - length list.levels in
      ap bottom insert_levels
      ∙ bottom-placed above node all_levels (omega (arith, length-grown more list.levels, ok.used))
      ∙ ap (place node) (bottom_of_grown more list.levels ok.used)

pub bottom-IsLevel : (levels : List (List Node)) → IsTower levels → IsLevel (bottom levels)
unfolding bottom
bottom-IsLevel [] ok = tt
bottom-IsLevel (level ∷ []) ok = ok.0
bottom-IsLevel (level ∷ lower ∷ levels) ok = bottom-IsLevel (lower ∷ levels) ok.2

-- SeekGE finds on level 0 the first node whose key is not less.
pub seek_ge-bottom :
    (key : List ℕ) (list : SkipList)
    → IsSkipList list
    → seek_ge key list ≡ from_key key (bottom list.levels)
unfolding seek_ge
seek_ge-bottom key list ok =
    descend_end key none list.levels ok.tower (IsStart-none key list.levels)

pub new_list-IsSkipList : IsSkipList new_list
unfolding new_list
new_list-IsSkipList = record { tower = (tt, tt, tt); used = omega arith; numbered = (tt, tt) }

-- ===== src/SkipList/Levels.antt =====
-- All levels of the skip list: what Insert keeps, and what the descents find.
use lightkv.Prelude.{
  ℕ, zero, suc, ◌+◌, ◌<◌, ◌≡◌, inl, inr, refl, sym, ap, subst, arith, Option, none, some, List, [],
  ◌∷◌, ◌++◌, length, replicate, All,
}
use lightkv.SkipList.{Node, behind, walk, find_prevs, descend, link_levels, bottom}
use lightkv.SkipList.Level.{
  from_key, place, Holds, Fresh, IsLevel, IsPrev, walk_from, walk-IsPrev, link-place, place-IsLevel,
  Holds-place, Holds-place_self, place_only,
}

-- Every node of a level is on the level below.
abbrev pub IsAbove : List Node → List (List Node) → Type 0
IsAbove level [] = Unit
IsAbove level (lower ∷ levels) = (m : Node) → Holds m level → Holds m lower

abbrev pub IsTower : List (List Node) → Type 0
IsTower [] = Unit
IsTower (level ∷ levels) = IsLevel level × IsAbove level levels × IsTower levels

abbrev pub IsStart : List ℕ → Option Node → List (List Node) → Type 0
IsStart key cur [] = Unit
IsStart key cur (level ∷ levels) = IsPrev key cur level

-- Insert on every level below the node's height.
unfoldable pub placed : ℕ → Node → List (List Node) → List (List Node)
placed above node [] = []
placed zero node (level ∷ levels) = place node level ∷ placed zero node levels
placed (suc above) node (level ∷ levels) = level ∷ placed above node levels

IsPrev-IsStart :
    (key : List ℕ) (cur : Option Node) (level : List Node) (levels : List (List Node))
    → IsPrev key cur level
    → IsAbove level levels
    → IsStart key cur levels
IsPrev-IsStart key cur level [] p sub = tt
IsPrev-IsStart key none level (lower ∷ levels) p sub = tt
IsPrev-IsStart key (some c) level (lower ∷ levels) p sub = (sub c p.0, p.1)

next-IsStart :
    (key : List ℕ) (cur : Option Node) (level : List Node) (levels : List (List Node))
    → IsAbove level levels
    → IsPrev key cur level
    → IsStart key (walk key cur (behind cur level)).0 levels
next-IsStart key cur level levels sub p =
    IsPrev-IsStart key (walk key cur (behind cur level)).0 level levels
      (walk-IsPrev key cur level p) sub

pub link_levels-placed :
    (above : ℕ) (node : Node) (cur : Option Node) (levels : List (List Node))
    → IsTower levels
    → IsStart node.key cur levels
    → link_levels above node (find_prevs node.key cur levels) levels ≡ placed above node levels
unfolding link_levels find_prevs placed
link_levels-placed above node cur [] ok start = refl
link_levels-placed zero node cur (level ∷ levels) ok start =
    rw (link-place node cur level ok.0 start) (
      ap (◌∷◌ (place node level)) (
        link_levels-placed zero node (walk node.key cur (behind cur level)).0 levels ok.2
          (next-IsStart node.key cur level levels ok.1 start)))
link_levels-placed (suc above) node cur (level ∷ levels) ok start = ap (◌∷◌ level) (
    link_levels-placed above node (walk node.key cur (behind cur level)).0 levels ok.2
      (next-IsStart node.key cur level levels ok.1 start))

pub placed-IsTower :
    (above : ℕ) (node : Node) (levels : List (List Node))
    → IsTower levels
    → All (Fresh node.id) levels
    → IsTower (placed above node levels)
unfolding placed
placed-IsTower above node [] ok f = tt
placed-IsTower zero node (level ∷ []) ok f = (place-IsLevel node level ok.0 f.0, tt, tt)
placed-IsTower zero node (level ∷ lower ∷ levels) ok f = (
  place-IsLevel node level ok.0 f.0,
  λ m h. elim (place_only node m level h) [
    | inl same ↦ subst (λ x. Holds x (place node lower)) (sym same) (Holds-place_self node lower)
    | inr old ↦ Holds-place node m lower (ok.1 m old)
  ],
  placed-IsTower zero node (lower ∷ levels) ok.2 f.1,
)
placed-IsTower (suc above) node (level ∷ []) ok f = (ok.0, tt, tt)
placed-IsTower (suc zero) node (level ∷ lower ∷ levels) ok f = (
  ok.0,
  λ m h. Holds-place node m lower (ok.1 m h),
  placed-IsTower zero node (lower ∷ levels) ok.2 f.1,
)
placed-IsTower (suc (suc above)) node (level ∷ lower ∷ levels) ok f =
    (ok.0, ok.1, placed-IsTower (suc above) node (lower ∷ levels) ok.2 f.1)

pub bottom-placed :
    (above : ℕ) (node : Node) (levels : List (List Node))
    → above < length levels
    → bottom (placed above node levels) ≡ place node (bottom levels)
unfolding placed bottom
bottom-placed above node [] h = absurd (omega arith)
bottom-placed zero node (level ∷ []) h = refl
bottom-placed zero node (level ∷ lower ∷ levels) h =
    bottom-placed zero node (lower ∷ levels) (omega arith)
bottom-placed (suc above) node (level ∷ []) h = absurd (omega arith)
bottom-placed (suc zero) node (level ∷ lower ∷ levels) h =
    bottom-placed zero node (lower ∷ levels) (omega arith)
bottom-placed (suc (suc above)) node (level ∷ lower ∷ levels) h =
    bottom-placed (suc above) node (lower ∷ levels) (omega arith)

-- The descent finds, on level 0, the first node whose key is not less.
pub descend_end :
    (key : List ℕ) (cur : Option Node) (levels : List (List Node))
    → IsTower levels
    → IsStart key cur levels
    → descend key cur levels ≡ from_key key (bottom levels)
unfolding descend bottom from_key
descend_end key cur [] ok start = refl
descend_end key cur (level ∷ []) ok start = walk_from key cur level ok.0 start
descend_end key cur (level ∷ lower ∷ levels) ok start =
    descend_end key (walk key cur (behind cur level)).0 (lower ∷ levels) ok.2
      (next-IsStart key cur level (lower ∷ levels) ok.1 start)

-- The levels that a tall node adds.
unfoldable pub grown : ℕ → List (List Node) → List (List Node)
grown more levels = replicate more [] ++ levels

pub find_prevs-grown :
    (more : ℕ) (key : List ℕ) (levels : List (List Node))
    → find_prevs key none (grown more levels) ≡ replicate more none ++ find_prevs key none levels
unfolding grown find_prevs walk behind
find_prevs-grown zero key levels = refl
find_prevs-grown (suc more) key levels = ap (◌∷◌ none) (find_prevs-grown more key levels)

pub grown-IsTower :
    (more : ℕ) (levels : List (List Node)) → IsTower levels → IsTower (grown more levels)
unfolding grown
grown-IsTower zero levels ok = ok
grown-IsTower (suc zero) [] ok = (tt, tt, tt)
grown-IsTower (suc zero) (level ∷ levels) ok = (tt, λ m h. absurd h, ok)
grown-IsTower (suc (suc more)) levels ok = (tt, λ m h. absurd h, grown-IsTower (suc more) levels ok)

pub IsStart-none : (key : List ℕ) (levels : List (List Node)) → IsStart key none levels
IsStart-none key [] = tt
IsStart-none key (level ∷ levels) = tt

pub length-grown :
    (more : ℕ) (levels : List (List Node)) → length (grown more levels) ≡ more + length levels
unfolding grown
length-grown zero levels = omega arith
length-grown (suc more) levels = omega (arith, length-grown more levels)

pub bottom-grown :
    (more : ℕ) (level : List Node) (levels : List (List Node))
    → bottom (grown more (level ∷ levels)) ≡ bottom (level ∷ levels)
unfolding grown bottom
bottom-grown zero level levels = refl
bottom-grown (suc zero) level levels = refl
bottom-grown (suc (suc more)) level levels = bottom-grown (suc more) level levels

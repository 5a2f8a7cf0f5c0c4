-- ===== src/SkipList/Level.antt =====
-- One level of the skip list: the walk ends where the key belongs, and linking puts the node there.
use lightkv.Prelude.{
  ℕ, ◌≡◌, ◌⊎◌, inl, inr, refl, sym, ap, ◌∙◌, subst, arith, true, false, Bool-cases, Option, none,
  some, List, [], ◌∷◌, All, ◌==◌, ==_iff, if◌then◌else◌,
}
use lightkv.Slice.{less}
use lightkv.Slice.Order.{le_less_trans, le_trans, less_asym}
use lightkv.SkipList.{Node, behind, walk, link}

-- The nodes of a level from the first whose key is not less on.
unfoldable pub from_key : List ℕ → List Node → List Node
from_key key [] = []
from_key key (n ∷ level) = if less n.key key then from_key key level else n ∷ level

-- The node in front of the first whose key is not less.
unfoldable pub place : Node → List Node → List Node
place node [] = node ∷ []
place node (n ∷ level) = if less n.key node.key then n ∷ place node level else node ∷ n ∷ level

abbrev pub Holds : Node → List Node → Type 0
Holds m [] = ⊥
Holds m (n ∷ level) = (m ≡ n) ⊎ Holds m level

-- No later node has the number.
abbrev pub Fresh : ℕ → List Node → Type 0
Fresh i level = All (λ m. (m.id == i) ≡ false) level

-- A level between two calls: sorted by keys, each node once.
abbrev pub IsLevel : List Node → Type 0
IsLevel [] = Unit
IsLevel (n ∷ level) = All (λ m. less m.key n.key ≡ false) level × Fresh n.id level × IsLevel level

-- The head, or a node of the level with a smaller key.
abbrev pub IsPrev : List ℕ → Option Node → List Node → Type 0
IsPrev key none level = Unit
IsPrev key (some c) level = Holds c level × (less c.key key ≡ true)

Holds-All {κ} :
    (P : Node → Type κ) (m : Node) (level : List Node) → Holds m level → All P level → P m
Holds-All P m [] h a = elim h [ ]
Holds-All P m (n ∷ level) (inl e) a = subst P (sym e) a.0
Holds-All P m (n ∷ level) (inr h) a = Holds-All P m level h a.1

same_id :
    (m n : Node) (level : List Node) → Holds m level → Fresh n.id level → (n.id == m.id) ≡ false
same_id m n level h f =
    let other = Holds-All (λ x. (x.id == n.id) ≡ false) m level h f in ground arith

self_id : (c : Node) → (c.id == c.id) ≡ true
self_id c = (==_iff c.id c.id).1 refl

-- From any valid start the walk reaches the same end.
walk_end :
    (key : List ℕ) (cur : Option Node) (level : List Node)
    → (walk key cur level).1 ≡ from_key key level
unfolding walk from_key
walk_end key cur [] = refl
walk_end key cur (n ∷ level) = elim (Bool-cases (less n.key key)) [
  | inl h ↦ rw h (walk_end key (some n) level)
  | inr h ↦ rw h refl
]

-- A node with a smaller key has only smaller keys before it.
smaller_before :
    (key : List ℕ) (c n : Node) (level : List Node)
    → Holds c level
    → less c.key key ≡ true
    → All (λ m. less m.key n.key ≡ false) level
    → less n.key key ≡ true
smaller_before key c n level h small sorted =
    le_less_trans n.key c.key key (Holds-All (λ m. less m.key n.key ≡ false) c level h sorted) small

behind_end :
    (key : List ℕ) (c : Node) (level : List Node)
    → IsLevel level
    → Holds c level
    → less c.key key ≡ true
    → from_key key (behind (some c) level) ≡ from_key key level
unfolding behind from_key
behind_end key c [] ok h small = elim h [ ]
behind_end key c (n ∷ level) ok (inl e) small =
    let here : (n.id == c.id) ≡ true = (==_iff n.id c.id).1 (ap (λ (x : Node). x.id) (sym e)) in
    let less_n : less n.key key ≡ true = subst (λ (x : Node). less x.key key ≡ true) e small in
    rw here (rw less_n refl)
behind_end key c (n ∷ level) ok (inr h) small =
    rw (same_id c n level h ok.1)
      (rw (smaller_before key c n level h small ok.0) (behind_end key c level ok.2 h small))

-- Where the walk on a level ends.
pub walk_from :
    (key : List ℕ) (cur : Option Node) (level : List Node)
    → IsLevel level
    → IsPrev key cur level
    → (walk key cur (behind cur level)).1 ≡ from_key key level
unfolding behind
walk_from key none level ok prev = walk_end key none level
walk_from key (some c) level ok prev =
    walk_end key (some c) (behind (some c) level) ∙ behind_end key c level ok prev.0 prev.1

-- The walk keeps to valid places.
walk_prev :
    (key : List ℕ) (c : Node) (level : List Node)
    → less c.key key ≡ true
    → (q : Node) × ((walk key (some c) level).0 ≡ some q)
      × (less q.key key ≡ true)
      × ((q ≡ c) ⊎ Holds q level)
unfolding walk
walk_prev key c [] small = (c, refl, small, inl refl)
walk_prev key c (n ∷ level) small = elim (Bool-cases (less n.key key)) [
  | inl h ↦
      let (q, e, less_q, place) = walk_prev key n level h in
      (q, rw h e, less_q, inr (elim place [ inl same ↦ inl same | inr there ↦ inr there ]))
  | inr h ↦ (c, rw h refl, small, inl refl)
]

Holds-behind : (q c : Node) (level : List Node) → Holds q (behind (some c) level) → Holds q level
unfolding behind
Holds-behind q c [] h = h
Holds-behind q c (n ∷ level) h = elim (Bool-cases (n.id == c.id)) [
  | inl e ↦ inr (rw e at h)
  | inr e ↦ inr (Holds-behind q c level (rw e at h))
]

pub walk-IsPrev :
    (key : List ℕ) (cur : Option Node) (level : List Node)
    → IsPrev key cur level
    → IsPrev key (walk key cur (behind cur level)).0 level
unfolding behind walk
walk-IsPrev key none [] prev = tt
walk-IsPrev key none (n ∷ level) prev = elim (Bool-cases (less n.key key)) [
  | inl h ↦
      let (q, e, less_q, place) = walk_prev key n level h in
      rw h (rw e (elim place [ inl same ↦ (inl same, less_q) | inr there ↦ (inr there, less_q) ]))
  | inr h ↦ rw h tt
]
walk-IsPrev key (some c) level prev =
    let (q, e, less_q, place) = walk_prev key c (behind (some c) level) prev.1 in
    rw e (elim place [
      | inl same ↦ (subst (λ x. Holds x level) (sym same) prev.0, less_q)
      | inr there ↦ (Holds-behind q c level there, less_q)
    ])

-- Linking behind the node at which the walk from `c` ends.
link_after :
    (node c : Node) (level : List Node)
    → IsLevel (c ∷ level)
    → less c.key node.key ≡ true
    → link node (walk node.key (some c) level).0 (c ∷ level) ≡ c ∷ place node level
unfolding walk link place
link_after node c [] ok small = rw (self_id c) refl
link_after node c (n ∷ level) ok small = elim (Bool-cases (less n.key node.key)) [
  | inl h ↦
      let (q, e, less_q, where_q) = walk_prev node.key n level h in
      let apart : (c.id == q.id) ≡ false = same_id q c (n ∷ level) where_q ok.1 in
      rw h (
        rw e (
          rw apart (
            ap (◌∷◌ c)
              (sym (ap (λ o. link node o (n ∷ level)) e) ∙ link_after node n level ok.2 h))))
  | inr h ↦ rw h (rw (self_id c) refl)
]

link_past :
    (node q n : Node) (level : List Node)
    → (n.id == q.id) ≡ false
    → link node (some q) (n ∷ level) ≡ n ∷ link node (some q) level
unfolding link
link_past node q n level h = rw h refl

link-behind :
    (node c : Node) (level : List Node)
    → IsLevel level
    → Holds c level
    → less c.key node.key ≡ true
    → link node (walk node.key (some c) (behind (some c) level)).0 level ≡ place node level
unfolding behind place
link-behind node c [] ok h small = elim h [ ]
link-behind node c (n ∷ level) ok (inl e) small =
    let here : (n.id == c.id) ≡ true = (==_iff n.id c.id).1 (ap (λ (x : Node). x.id) (sym e)) in
    let less_n : less n.key node.key ≡ true =
      subst (λ (x : Node). less x.key node.key ≡ true) e small in
    rw here (
      rw less_n (
        ap (λ (x : Node). link node (walk node.key (some x) level).0 (n ∷ level)) e
        ∙ link_after node n level ok less_n))
link-behind node c (n ∷ level) ok (inr h) small =
    let (q, e, less_q, where_q) = walk_prev node.key c (behind (some c) level) small in
    let there : Holds q level = elim where_q [
      | inl same ↦ subst (λ x. Holds x level) (sym same) h
      | inr later ↦ Holds-behind q c level later
    ] in
    rw (same_id c n level h ok.1) (
      rw (smaller_before node.key c n level h small ok.0) (
        rw e (
          link_past node q n level (same_id q n level there ok.1)
          ∙ ap (◌∷◌ n)
              (sym (ap (λ o. link node o level) e) ∙ link-behind node c level ok.2 h small))))

-- The node is linked where its key belongs, in front of the nodes with the same key.
pub link-place :
    (node : Node) (cur : Option Node) (level : List Node)
    → IsLevel level
    → IsPrev node.key cur level
    → link node (walk node.key cur (behind cur level)).0 level ≡ place node level
unfolding behind walk link place
link-place node none [] ok prev = refl
link-place node none (n ∷ level) ok prev = elim (Bool-cases (less n.key node.key)) [
  | inl h ↦ rw h (link_after node n level ok h)
  | inr h ↦ rw h refl
]
link-place node (some c) level ok prev = link-behind node c level ok prev.0 prev.1

-- What linking keeps.
module _ (node : Node) where
  All-place {κ} :
      (P : Node → Type κ) (level : List Node) → All P level → P node → All P (place node level)
  unfolding place
  All-place P [] a p = (p, tt)
  All-place P (n ∷ level) a p = elim (Bool-cases (less n.key node.key)) [
    | inl h ↦ rw h (a.0, All-place P level a.1 p)
    | inr h ↦ rw h (p, a)
  ]

  -- All keys behind a key that is not less are not less.
  All-le :
      (n : Node) (level : List Node)
      → less n.key node.key ≡ false
      → All (λ m. less m.key n.key ≡ false) level
      → All (λ m. less m.key node.key ≡ false) level
  All-le n [] h a = tt
  All-le n (m ∷ level) h a = (le_trans node.key n.key m.key h a.0, All-le n level h a.1)

  pub place-IsLevel :
      (level : List Node) → IsLevel level → Fresh node.id level → IsLevel (place node level)
  unfolding place
  place-IsLevel [] ok f = (tt, tt, tt)
  place-IsLevel (n ∷ level) ok f = elim (Bool-cases (less n.key node.key)) [
    | inl h ↦
        let apart : (node.id == n.id) ≡ false = ground arith in
        rw h (
          All-place (λ m. less m.key n.key ≡ false) level ok.0 (less_asym n.key node.key h),
          All-place (λ m. (m.id == n.id) ≡ false) level ok.1 apart,
          place-IsLevel level ok.2 f.1,
        )
    | inr h ↦ rw h ((h, All-le n level h ok.0), f, ok)
  ]

  pub Holds-place : (m : Node) (level : List Node) → Holds m level → Holds m (place node level)
  unfolding place
  Holds-place m [] h = inr h
  Holds-place m (n ∷ level) h = elim (Bool-cases (less n.key node.key)) [
    | inl e ↦ rw e (elim h [ inl same ↦ inl same | inr there ↦ inr (Holds-place m level there) ])
    | inr e ↦ rw e (inr h)
  ]

  pub Holds-place_self : (level : List Node) → Holds node (place node level)
  unfolding place
  Holds-place_self [] = inl refl
  Holds-place_self (n ∷ level) = elim (Bool-cases (less n.key node.key)) [
    | inl e ↦ rw e (inr (Holds-place_self level))
    | inr e ↦ rw e (inl refl)
  ]

  pub place_only :
      (m : Node) (level : List Node) → Holds m (place node level) → (m ≡ node) ⊎ Holds m level
  unfolding place
  place_only m [] h = h
  place_only m (n ∷ level) h = elim (Bool-cases (less n.key node.key)) [
    | inl e ↦ elim (rw e at h) [
      | inl same ↦ inr (inl same)
      | inr there ↦ elim (place_only m level there) [
        | inl same ↦ inl same
        | inr in_tail ↦ inr (inr in_tail)
      ]
    ]
    | inr e ↦ rw e at h
  ]

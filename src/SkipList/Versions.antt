-- ===== src/SkipList/Versions.antt =====
-- The versions of a key in the skip list: an iterator from Find runs over exactly the nodes with the
-- key, the newest first.
use lightkv.Prelude.{
  ℕ, ◌≤◌, ◌≡◌, inl, inr, refl, sym, ap, ◌∙◌, Bool, true, false, Bool-cases, Option, none, some,
  List, [], ◌∷◌, All, if◌then◌else◌, bytes_eq, bytes_eq_iff, leb, ◌&&◌,
}
use lightkv.Slice.{less}
use lightkv.Slice.Order.{less_irrefl, le_antisym, le_trans}
use lightkv.SkipList.{Node, SkipList, insert_node, bottom, if_equal, find, seek_ge}
use lightkv.SkipList.Level.{from_key, place, IsLevel}
use lightkv.SkipList.Insert.{IsSkipList, new_node, bottom-insert, bottom-IsLevel, seek_ge-bottom}

-- The first node with the key whose number a snapshot sees, wherever it stands.
unfoldable pub visible : List ℕ → ℕ → List Node → Option Node
visible key snapshot [] = none
visible key snapshot (n ∷ level) =
    if bytes_eq n.key key && leb n.seq snapshot then some n else visible key snapshot level

-- The same, for a chain that begins at the key's nodes, and only as far as they go.
unfoldable pub visible_run : List ℕ → ℕ → List Node → Option Node
visible_run key snapshot [] = none
visible_run key snapshot (n ∷ rest) =
    if bytes_eq n.key key
    then if leb n.seq snapshot then some n else visible_run key snapshot rest
    else none

equal_keys : (a b : List ℕ) → bytes_eq a b ≡ true → a ≡ b
equal_keys a b h = (bytes_eq_iff a b).0 h

equal_self : (a : List ℕ) → bytes_eq a a ≡ true
equal_self a = (bytes_eq_iff a a).1 refl

true-ne-false : ◌≡◌ {A = Bool} true false → ⊥
true-ne-false h = cc

-- Keys that compare less are not equal.
less-differs : (a b : List ℕ) → less a b ≡ true → bytes_eq a b ≡ false
less-differs a b h = elim (Bool-cases (bytes_eq a b)) [
  | inl e ↦ absurd (true-ne-false (sym h ∙ ap (λ x. less x b) (equal_keys a b e) ∙ less_irrefl b))
  | inr e ↦ e
]

more-differs : (a b : List ℕ) → less b a ≡ true → bytes_eq a b ≡ false
more-differs a b h = elim (Bool-cases (bytes_eq a b)) [
  | inl e ↦ absurd (true-ne-false (sym h ∙ ap (λ x. less b x) (equal_keys a b e) ∙ less_irrefl b))
  | inr e ↦ e
]

not_less_nor_equal : (a b : List ℕ) → less a b ≡ false → bytes_eq a b ≡ false → less b a ≡ true
not_less_nor_equal a b h k = elim (Bool-cases (less b a)) [
  | inl e ↦ e
  | inr e ↦ absurd (true-ne-false (sym ((bytes_eq_iff a b).1 (le_antisym a b h e)) ∙ k))
]

module _ (key : List ℕ) (snapshot : ℕ) where
  visible_skip :
      (n : Node) (level : List Node)
      → bytes_eq n.key key ≡ false
      → visible key snapshot (n ∷ level) ≡ visible key snapshot level
  unfolding visible
  visible_skip n level h = rw h refl

  -- Past the key there is no node with it.
  none_past :
      (n : Node) (level : List Node)
      → less key n.key ≡ true
      → All (λ m. less m.key n.key ≡ false) level
      → visible key snapshot level ≡ none
  unfolding visible
  none_past n [] h a = refl
  none_past n (m ∷ level) h a =
      let differs : bytes_eq m.key key ≡ false = elim (Bool-cases (bytes_eq m.key key)) [
        | inl e ↦
            absurd
              (true-ne-false (sym h ∙ ap (λ x. less x n.key) (sym (equal_keys m.key key e)) ∙ a.0))
        | inr e ↦ e
      ] in
      rw differs (none_past n level h a.1)

  visible-from_key :
      (level : List Node) → visible key snapshot (from_key key level) ≡ visible key snapshot level
  unfolding from_key visible
  visible-from_key [] = refl
  visible-from_key (n ∷ level) = elim (Bool-cases (less n.key key)) [
    | inl h ↦ rw h (rw (less-differs n.key key h) (visible-from_key level))
    | inr h ↦ rw h refl
  ]

  run_visible :
      (level : List Node)
      → IsLevel level
      → All (λ (m : Node). less m.key key ≡ false) level
      → visible_run key snapshot level ≡ visible key snapshot level
  unfolding visible visible_run
  run_visible [] ok a = refl
  run_visible (n ∷ level) ok a = elim (Bool-cases (bytes_eq n.key key)) [
    | inl e ↦ elim (Bool-cases (leb n.seq snapshot)) [
      | inl seen ↦ rw e (rw seen refl)
      | inr unseen ↦ rw e (rw unseen (run_visible level ok.2 a.1))
    ]
    | inr e ↦ rw e (sym (none_past n level (not_less_nor_equal n.key key a.0 e) ok.0))
  ]

  from_key-IsLevel : (level : List Node) → IsLevel level → IsLevel (from_key key level)
  unfolding from_key
  from_key-IsLevel [] ok = tt
  from_key-IsLevel (n ∷ level) ok = elim (Bool-cases (less n.key key)) [
    | inl h ↦ rw h (from_key-IsLevel level ok.2)
    | inr h ↦ rw h ok
  ]

  all_after :
      (n : Node) (level : List Node)
      → less n.key key ≡ false
      → All (λ m. less m.key n.key ≡ false) level
      → All (λ (m : Node). less m.key key ≡ false) level
  all_after n [] h a = tt
  all_after n (m ∷ level) h a = (le_trans key n.key m.key h a.0, all_after n level h a.1)

  from_key_above :
      (level : List Node)
      → IsLevel level
      → All (λ (m : Node). less m.key key ≡ false) (from_key key level)
  unfolding from_key
  from_key_above [] ok = tt
  from_key_above (n ∷ level) ok = elim (Bool-cases (less n.key key)) [
    | inl h ↦ rw h (from_key_above level ok.2)
    | inr h ↦ rw h (h, all_after n level h ok.0)
  ]

  run-if_equal :
      (level : List Node)
      → visible_run key snapshot (if_equal key level) ≡ visible_run key snapshot level
  unfolding visible_run if_equal
  run-if_equal [] = refl
  run-if_equal (n ∷ level) = elim (Bool-cases (bytes_eq n.key key)) [
    | inl e ↦ rw e (rw e refl)
    | inr e ↦ rw e refl
  ]

  -- The loop over the iterator of Find sees what the whole of level 0 shows.
  pub visible-find :
      (list : SkipList)
      → IsSkipList list
      → visible_run key snapshot (find key list) ≡ visible key snapshot (bottom list.levels)
  unfolding find seek_ge
  visible-find list ok =
      let level = bottom list.levels in
      let sorted = bottom-IsLevel list.levels ok.tower in
      ap (λ l. visible_run key snapshot (if_equal key l)) (seek_ge-bottom key list ok)
      ∙ run-if_equal (from_key key level)
      ∙ run_visible (from_key key level) (from_key-IsLevel level sorted)
          (from_key_above level sorted)
      ∙ visible-from_key level

  visible-place :
      (node : Node) (level : List Node)
      → visible key snapshot (place node level) ≡ (
          if bytes_eq node.key key && leb node.seq snapshot
          then some node
          else visible key snapshot level)
  unfolding place visible
  visible-place node [] = refl
  visible-place node (n ∷ level) = elim (Bool-cases (less n.key node.key)) [
    | inl h ↦ elim (Bool-cases (bytes_eq node.key key)) [
      | inl e ↦
          let differs : bytes_eq n.key key ≡ false =
            ap (bytes_eq n.key) (sym (equal_keys node.key key e)) ∙ less-differs n.key node.key h in
          rw h (rw differs (visible-place node level))
      | inr e ↦ rw h (
          rw e (
            ap (λ o. if bytes_eq n.key key && leb n.seq snapshot then some n else o)
              (visible-place node level ∙ (rw e refl))))
    ]
    | inr h ↦ rw h refl
  ]

  -- An insert is what a snapshot sees of the key exactly if it has the key and a number up to the
  -- snapshot's; else the snapshot sees what it saw.
  pub visible-insert :
      (k value : List ℕ) (seq height : ℕ) (is_deleted : Bool) (list : SkipList)
      → IsSkipList list
      → 1 ≤ height
      → visible key snapshot (bottom (insert_node k value seq height is_deleted list).levels) ≡ (
          if bytes_eq k key && leb seq snapshot
          then some (new_node k value seq height is_deleted list)
          else visible key snapshot (bottom list.levels))
  visible-insert k value seq height is_deleted list ok tall =
      ap (visible key snapshot) (bottom-insert k value seq height is_deleted list ok tall)
      ∙ visible-place (new_node k value seq height is_deleted list) (bottom list.levels)

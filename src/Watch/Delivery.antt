-- ===== src/Watch/Delivery.antt =====
-- Who is notified: after Subscribe exactly the keys of the pattern, with the pattern as it was given, and
-- after Unsubscribe nothing more.
use lightkv.Prelude.{
  ℕ, suc, ◌+◌, ◌-◌, ◌%◌, ◌^◌, ◌≤◌, ◌<◌, ◌≡◌, ◌⊎◌, ◌↔◌, inl, inr, refl, sym, ap, ◌∙◌, arith, Bool,
  true, false, Bool-cases, List, [], ◌∷◌, ◌++◌, length, take, drop, All, append-nil,
  take-append-drop, take-append_length, All-append, bytes_eq_iff, ◌==◌, ==_iff,
}
use lightkv.Watch.{
  Watcher, WatchHub, star, ends_in_star, new_watcher, subscribe, without_id, unsubscribe, is_match,
  notice, notify_loop, notify,
}

-- The numbers of the watchers are handed out.
abbrev pub IsHub : WatchHub → Type 0
IsHub hub = All (λ (w : Watcher). w.id < hub.next_id) hub.watchers

-- The keys that a pattern stands for: with a star at its end those that begin with what stands before
-- the star, else the pattern alone.
abbrev pub Covers : List ℕ → List ℕ → Type 0
Covers pattern key =
    ((stem : List ℕ) × (rest : List ℕ) × (pattern ≡ stem ++ star ∷ []) × (key ≡ stem ++ rest))
    ⊎ ((ends_in_star pattern ≡ false) × (key ≡ pattern))

loop-append :
    (key event : List ℕ) (revision : ℕ) (ws vs : List Watcher)
    → notify_loop key event revision (ws ++ vs)
      ≡ notify_loop key event revision ws ++ notify_loop key event revision vs
unfolding notify_loop
loop-append key event revision [] vs = refl
loop-append key event revision (w ∷ ws) vs = elim (Bool-cases (is_match key w)) [
  | inl e ↦ rw e (ap (λ l. notice key event revision w ∷ l) (loop-append key event revision ws vs))
  | inr e ↦ rw e (loop-append key event revision ws vs)
]

without_new :
    (n : ℕ) (ws : List Watcher) (w : Watcher)
    → All (λ (x : Watcher). x.id < n) ws
    → w.id ≡ n
    → without_id n (ws ++ w ∷ []) ≡ ws
unfolding without_id
without_new n [] w h e = let same : (w.id == n) ≡ true = (==_iff w.id n).1 e in rw same refl
without_new n (x ∷ ws) w h e =
    let other : (x.id == n) ≡ false = ground (arith, h.0) in
    rw other (ap (λ l. x ∷ l) (without_new n ws w h.1 e))

take_less : (n c : ℕ) (xs : List ℕ) → take (suc (suc n) - 1) (c ∷ xs) ≡ c ∷ take (suc n - 1) xs
take_less n c xs = ap (λ m. take m (c ∷ xs)) {y = suc (suc n - 1)} (omega arith)

true-false : ◌≡◌ {A = Bool} true false → ⊥
true-false h = cc

star_split : (p : List ℕ) → ends_in_star p ≡ true → p ≡ take (length p - 1) p ++ star ∷ []
unfolding ends_in_star
star_split [] e = absurd (ground arith)
star_split (c ∷ []) e = ap (λ x. x ∷ []) ((==_iff c star).0 e)
star_split (c ∷ d ∷ rest) e =
    ap (λ l. c ∷ l) (star_split (d ∷ rest) e)
    ∙ ap (λ l. l ++ star ∷ []) (sym (take_less (length rest) c (d ∷ rest)))

stem_star :
    (stem : List ℕ)
    → (ends_in_star (stem ++ star ∷ []) ≡ true)
      × (take (length (stem ++ star ∷ []) - 1) (stem ++ star ∷ []) ≡ stem)
unfolding ends_in_star
stem_star [] = (refl, refl)
stem_star (c ∷ []) = (refl, refl)
stem_star (c ∷ d ∷ rest) =
    let (ends, stem) = stem_star (d ∷ rest) in
    (
      ends,
      take_less (length (rest ++ star ∷ [])) c (d ∷ (rest ++ star ∷ [])) ∙ ap (λ l. c ∷ l) stem,
    )

-- The watcher of a pattern matches the keys that the pattern stands for.
match-new_watcher :
    (n : ℕ) (pattern key : List ℕ)
    → (is_match key (new_watcher n pattern) ≡ true) ↔ Covers pattern key
unfolding is_match new_watcher
match-new_watcher n pattern key = elim (Bool-cases (ends_in_star pattern)) [
  | inl ends ↦
      let stem = take (length pattern - 1) pattern in
      (
        λ e.
            let starts : take (length stem) key ≡ stem =
              (bytes_eq_iff (take (length stem) key) stem).0 (rw ends at e) in
            inl (
              stem,
              drop (length stem) key,
              star_split pattern ends,
              sym (take-append-drop (length stem) key)
                  ∙ ap (λ l. l ++ drop (length stem) key) starts,
            ),
        λ c. elim c [
          | inl (p, rest, split, begins) ↦
              let same : stem ≡ p = ap (λ l. take (length l - 1) l) split ∙ (stem_star p).1 in
              rw ends (
                (bytes_eq_iff (take (length stem) key) stem).1 (
                  ap (λ q. take (length q) key) same
                  ∙ ap (take (length p)) begins
                  ∙ take-append_length p rest
                  ∙ sym same))
          | inr (other, same) ↦ absurd (true-false (sym ends ∙ other))
        ],
      )
  | inr plain ↦ (
    λ e. inr (plain, (bytes_eq_iff key pattern).0 (rw plain at e)),
    λ c. elim c [
      | inl (p, rest, split, begins) ↦
          absurd (true-false (sym (stem_star p).0 ∙ ap ends_in_star (sym split) ∙ plain))
      | inr (other, same) ↦ rw plain ((bytes_eq_iff key pattern).1 same)
    ],
  )
]

-- The notice carries the pattern as it was given.
notice-new_watcher :
    (n : ℕ) (pattern key event : List ℕ) (revision : ℕ)
    → notice key event revision (new_watcher n pattern)
      ≡ record { watcher_id = n; watched = pattern; key = key; event = event; revision = revision }
unfolding notice new_watcher
notice-new_watcher n pattern key event revision = elim (Bool-cases (ends_in_star pattern)) [
  | inl ends ↦ rw ends (
      ap
        (λ p. record { watcher_id = n; watched = p; key = key; event = event; revision = revision })
        (sym (star_split pattern ends)))
  | inr plain ↦ rw plain refl
]

new_watcher-id : (n : ℕ) (pattern : List ℕ) → (new_watcher n pattern).id ≡ n
unfolding new_watcher
new_watcher-id n pattern = elim (Bool-cases (ends_in_star pattern)) [
  | inl e ↦ rw e refl
  | inr e ↦ rw e refl
]

raise-ids :
    (a b : ℕ) (ws : List Watcher)
    → a ≤ b
    → All (λ (w : Watcher). w.id < a) ws
    → All (λ (w : Watcher). w.id < b) ws
raise-ids a b [] le h = tt
raise-ids a b (w ∷ ws) le h = (omega (arith, h.0), raise-ids a b ws le h.1)

-- After Subscribe, a Notify makes the calls that it made before and then, exactly if the pattern stands
-- for the key, one to the new watcher, with the pattern as it was given; Unsubscribe with the number that
-- Subscribe returned leaves the watchers that were there before, and the numbers of the watchers stay
-- below the next one. The numbers have not reached 2^64.
pub subscribe-notify :
    (pattern key event : List ℕ) (revision : ℕ) (hub : WatchHub)
    → IsHub hub
    → hub.next_id + 1 < 2 ^ 64
    → IsHub (subscribe pattern hub).1
      × (Covers pattern key
          → (notify key event revision (subscribe pattern hub).1).0
            ≡ (notify key event revision hub).0
              ++ (record {
                watcher_id = (subscribe pattern hub).0;
                watched = pattern;
                key = key;
                event = event;
                revision = revision;
              })
                ∷ [])
      × ((Covers pattern key → ⊥)
          → (notify key event revision (subscribe pattern hub).1).0
            ≡ (notify key event revision hub).0)
      × ((unsubscribe (subscribe pattern hub).0 (subscribe pattern hub).1).watchers ≡ hub.watchers)
unfolding subscribe notify unsubscribe notify_loop
subscribe-notify pattern key event revision hub ok room =
    let w = new_watcher hub.next_id pattern in
    let next = (hub.next_id + 1) % 2 ^ 64 in
    let own : w.id < next = omega (arith, new_watcher-id hub.next_id pattern) in
    let split = loop-append key event revision hub.watchers (w ∷ []) in
    (
      All-append (λ (x : Watcher). x.id < next) hub.watchers (w ∷ [])
          (raise-ids hub.next_id next hub.watchers (omega arith) ok) (own, tt),
      λ c.
          let hit : is_match key w ≡ true = (match-new_watcher hub.next_id pattern key).1 c in
          split
          ∙ ap (λ l. notify_loop key event revision hub.watchers ++ l)
              (rw hit
                (ap (λ x. x ∷ []) (notice-new_watcher hub.next_id pattern key event revision))),
      λ c.
          let lost : is_match key w ≡ false = elim (Bool-cases (is_match key w)) [
            | inl e ↦ absurd (c ((match-new_watcher hub.next_id pattern key).0 e))
            | inr e ↦ e
          ] in
          split
          ∙ ap (λ l. notify_loop key event revision hub.watchers ++ l) (rw lost refl)
          ∙ append-nil (notify_loop key event revision hub.watchers),
      without_new hub.next_id hub.watchers w ok (new_watcher-id hub.next_id pattern),
    )

-- ===== src/Transaction/Commit.antt =====
-- What a commit makes of the database: what the transaction saw in its own buffer, on top of what was there.
use lightkv.Prelude.{
  ℕ, ◌≡◌, ◌⊎◌, inl, inr, refl, sym, ap, ◌∙◌, arith, true, false, Bool-cases, Option, Option-cases,
  none, some, List, [], ◌∷◌, ◌++◌, bytes_eq, bytes_eq_iff,
}
use lightkv.Engine.{Status, is_ok}
use lightkv.Transaction.{
  Store, WriteOp, op_key, op_value, Transaction, last_write, buffered, get_with, get, apply,
  commit_loop, commit,
}

-- What a store promises: from a good state in which a write fits, a write that answers ok leads to a good
-- state that answers its key with what was written and every other key as before.
pub record IsStore {S : Type 0} (store : Store S) : Type 1 where
  pub IsGood : S → Type 0
  pub Fits : WriteOp → S → Type 0
  pub apply_good :
      (op : WriteOp) (s : S)
      → IsGood s
      → Fits op s
      → (apply store op s).0 ≡ Status.ok
      → IsGood (apply store op s).1
  pub apply_own :
      (op : WriteOp) (s : S)
      → IsGood s
      → Fits op s
      → (apply store op s).0 ≡ Status.ok
      → (store.get 0 (op_key op) (apply store op s).1).0 ≡ buffered (op_value op)
  pub apply_other :
      (op : WriteOp) (s : S) (key : List ℕ) (r : Option (List ℕ))
      → IsGood s
      → Fits op s
      → (apply store op s).0 ≡ Status.ok
      → bytes_eq (op_key op) key ≡ false
      → (store.get 0 key s).0 ≡ buffered r
      → (store.get 0 key (apply store op s).1).0 ≡ buffered r

ok_status : (s : Status) → is_ok s ≡ true → s ≡ Status.ok
ok_status s h = ground arith

failed_status : (s : Status) → is_ok s ≡ false → s ≡ Status.ok → ⊥
failed_status s h e = ground arith

module _ {S : Type 0} (store : Store S) (laws : IsStore store) where
  -- Each write fits the state that the ones before it lead to.
  unfoldable pub FitAll : List WriteOp → S → Type 0
  FitAll [] s = Unit
  FitAll (op ∷ ops) s = laws.Fits op s × FitAll ops (apply store op s).1

  loop_head :
      (op : WriteOp) (ops : List WriteOp) (s : S)
      → (commit_loop store (op ∷ ops) s).0 ≡ Status.ok
      → ((apply store op s).0 ≡ Status.ok)
        × (commit_loop store (op ∷ ops) s ≡ commit_loop store ops (apply store op s).1)
  unfolding commit_loop
  loop_head op ops s e = elim (Bool-cases (is_ok (apply store op s).0)) [
    | inl went ↦ (ok_status (apply store op s).0 went, rw went refl)
    | inr stopped ↦ absurd (failed_status (apply store op s).0 stopped (rw stopped at e))
  ]

  -- The loop of Commit leaves each key as the buffer on top of the state before it had it.
  loop_reads :
      (ops : List WriteOp) (s : S) (key : List ℕ) (r : Option (List ℕ))
      → laws.IsGood s
      → FitAll ops s
      → (commit_loop store ops s).0 ≡ Status.ok
      → (get_with store 0 key (last_write key ops) s).0 ≡ buffered r
      → (store.get 0 key (commit_loop store ops s).1).0 ≡ buffered r
  unfolding commit_loop get_with last_write FitAll
  loop_reads [] s key r good fit ok e = e
  loop_reads (op ∷ ops) s key r good fit ok e =
      let (went, same) = loop_head op ops s ok in
      let s1 = (apply store op s).1 in
      let better = laws.apply_good op s good fit.0 went in
      let rest : (get_with store 0 key (last_write key ops) s1).0 ≡ buffered r
          → (store.get 0 key (commit_loop store ops s1).1).0 ≡ buffered r =
        loop_reads ops s1 key r better fit.1 (ap (λ p. p.0) (sym same) ∙ ok) in
      ap (λ p. (store.get 0 key p.1).0) same
      ∙ rest (elim (Option-cases (last_write key ops)) [
        | inr (x, later) ↦ rw (later, get_with) (rw later at e)
        | inl none_later ↦
            rw (none_later, get_with)
              (elim (Bool-cases (bytes_eq (op_key op) key)) [
                | inl own ↦
                    let this = (bytes_eq_iff (op_key op) key).0 own in
                    ap (λ k. (store.get 0 k s1).0) (sym this)
                    ∙ laws.apply_own op s good fit.0 went
                    ∙ rw own at (rw none_later at e)
                | inr other ↦
                    laws.apply_other op s key r good fit.0 went other
                      (rw other at (rw none_later at e))
              ])
      ])

  newest :
      (snapshot : ℕ) (s : S) (key : List ℕ) (w : Option (Option (List ℕ)))
      → (store.get snapshot key s).0 ≡ (store.get 0 key s).0
      → (get_with store snapshot key w s).0 ≡ (get_with store 0 key w s).0
  unfolding get_with
  newest snapshot s key none same = same
  newest snapshot s key (some x) same = refl

  -- A Commit that answers ok leaves every key as the transaction's own Get answered it before, where
  -- nothing was written since its snapshot: the last write of the buffer, or what was there. Each write of
  -- the buffer fits the state that the ones before it lead to.
  pub commit-get :
      (t : Transaction) (s : S) (key : List ℕ) (r : Option (List ℕ))
      → laws.IsGood s
      → FitAll t.write_buf s
      → t.committed ≡ false
      → (store.get t.snapshot_seq key s).0 ≡ (store.get 0 key s).0
      → (commit store t s).0.0 ≡ Status.ok
      → (get store key t s).0 ≡ buffered r
      → (store.get 0 key (commit store t s).1).0 ≡ buffered r
  unfolding commit get
  commit-get t s key r good fit active current ok e = rw active (
      loop_reads t.write_buf s key r good fit (rw active at ok)
        (sym (newest t.snapshot_seq s key (last_write key t.write_buf) current) ∙ rw active at e))

-- A run of Commit's loop that stopped at a write that failed.
pub record StopsAt {S : Type 0} (store : Store S) (ops : List WriteOp) (s : S) (end : Status × S)
    : Type 0 where
  pub before : List WriteOp
  pub op : WriteOp
  pub after : List WriteOp
  pub split : ops ≡ before ++ op ∷ after
  pub before_ok : (commit_loop store before s).0 ≡ Status.ok
  pub refused : is_ok end.0 ≡ false
  pub last : apply store op (commit_loop store before s).1 ≡ end

loop_stops :
    {S : Type 0} (store : Store S) (ops : List WriteOp) (s : S)
    → ((commit_loop store ops s).0 ≡ Status.ok) ⊎ StopsAt store ops s (commit_loop store ops s)
unfolding commit_loop
loop_stops store [] s = inl refl
loop_stops store (op ∷ ops) s = elim (Bool-cases (is_ok (apply store op s).0)) [
  | inr stopped ↦ inr (record {
    before = [];
    op = op;
    after = ops;
    split = refl;
    before_ok = refl;
    refused = rw stopped stopped;
    last = rw stopped refl;
  })
  | inl went ↦ elim (loop_stops store ops (apply store op s).1) [
    | inl ok ↦ inl (rw went ok)
    | inr at_op ↦ inr (record {
      before = op ∷ at_op.before;
      op = at_op.op;
      after = at_op.after;
      split = ap (λ l. op ∷ l) at_op.split;
      before_ok = rw went at_op.before_ok;
      refused = rw went at_op.refused;
      last = rw went at_op.last;
    })
  ]
]

-- A Commit answers ok, or it ran the writes of the buffer up to the first that failed, that one included,
-- and none behind it, and answers what that write did; the transaction is closed and its buffer empty
-- either way.
pub commit_stops :
    {S : Type 0} (store : Store S) (t : Transaction) (s : S)
    → t.committed ≡ false
    → ((commit store t s).0.1 ≡ record t { committed = true; write_buf = [] })
      × (((commit store t s).0.0 ≡ Status.ok)
          ⊎ StopsAt store t.write_buf s ((commit store t s).0.0, (commit store t s).1))
unfolding commit
commit_stops store t s active = rw active (refl, loop_stops store t.write_buf s)

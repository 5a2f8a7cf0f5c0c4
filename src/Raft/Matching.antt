-- ===== src/Raft/Matching.antt =====
-- What HandleAppendEntries does to the log: it stays indexed from its base, and after a success
-- it holds the entries that were sent.
use lightkv.Prelude.{
  ℕ, zero, suc, ◌+◌, ◌-◌, ◌≤◌, ◌<◌, Bool, true, List, [], ◌∷◌, ◌++◌, length, take, ◌≡◌, refl, sym,
  ap, ◌∙◌, arith, All, length-append, length-take,
}
use lightkv.Raft.{LogEntry, position, term_at}
use lightkv.Raft.Replication.{push_entry, append_one, append_all}

-- The entries carry the indices from `base` on.
abbrev pub IsIndexed : ℕ → List LogEntry → Type 0
IsIndexed base [] = Unit
IsIndexed base (e ∷ log) = (e.index ≡ base) × IsIndexed (base + 1) log

pub IsIndexed-append :
    (base : ℕ) (log : List LogEntry) (e : LogEntry)
    → IsIndexed base log
    → e.index ≡ base + length log
    → IsIndexed base (log ++ e ∷ [])
IsIndexed-append base [] e h k = (omega arith, tt)
IsIndexed-append base (x ∷ log) e h k = (h.0, IsIndexed-append (base + 1) log e h.1 (omega arith))

pub IsIndexed-take :
    (base n : ℕ) (log : List LogEntry) → IsIndexed base log → IsIndexed base (take n log)
IsIndexed-take base zero log h = tt
IsIndexed-take base (suc n) [] h = tt
IsIndexed-take base (suc n) (x ∷ log) h = (h.0, IsIndexed-take (base + 1) n log h.1)

term_at-append :
    (log : List LogEntry) (e : LogEntry) → term_at (log ++ e ∷ []) (length log) ≡ e.term
unfolding term_at
term_at-append [] e = refl
term_at-append (x ∷ log) e = term_at-append log e

term_at-append_lt :
    (log : List LogEntry) (e : LogEntry) (i : ℕ)
    → i < length log
    → term_at (log ++ e ∷ []) i ≡ term_at log i
unfolding term_at
term_at-append_lt [] e i h = absurd (omega arith)
term_at-append_lt (x ∷ log) e zero h = refl
term_at-append_lt (x ∷ log) e (suc i) h = term_at-append_lt log e i (omega arith)

term_at-take :
    (n : ℕ) (log : List LogEntry) (i : ℕ) → i < n → term_at (take n log) i ≡ term_at log i
unfolding term_at
term_at-take zero log i h = absurd (omega arith)
term_at-take (suc n) [] i h = refl
term_at-take (suc n) (x ∷ log) zero h = refl
term_at-take (suc n) (x ∷ log) (suc i) h = term_at-take n log i (omega arith)

-- The log `new` has the entry `e` where its index says, and below that the terms of `old`.
pub record Stored (base : ℕ) (old : List LogEntry) (e : LogEntry) (new : List LogEntry)
    : Type 0 where
  pub at_index : term_at new (e.index - base) ≡ e.term
  pub long : e.index - base < length new
  pub below : (i : ℕ) → i < e.index - base → term_at new i ≡ term_at old i

-- One entry whose predecessor is in the log: the round succeeds and stores it.
append_one_stores :
    (base : ℕ) (log : List LogEntry) (e : LogEntry)
    → base ≤ e.index
    → e.index ≤ base + length log
    → ((append_one base log e).0 ≡ true) × Stored base log e (append_one base log e).1
unfolding append_one position push_entry
append_one_stores base log e h k =
    let at : ℕ = e.index - base in
    let cut : List LogEntry = take at log in
    (
      ground (arith, length-take at log),
      record {
        at_index = ground (arith, length-take at log, term_at-append log e, term_at-append cut e);
        long =
            ground
              (arith, length-take at log, length-append log (e ∷ []), length-append cut (e ∷ []));
        below = λ i lt. ground (
          arith,
          length-take at log,
          term_at-append_lt log e i,
          term_at-append_lt cut e i,
          term_at-take at log i,
        );
      },
    )

append_one-IsIndexed :
    (base : ℕ) (log : List LogEntry) (e : LogEntry)
    → IsIndexed base log
    → IsIndexed base (append_one base log e).1
unfolding append_one position push_entry
append_one-IsIndexed base log e h = ground (
  arith,
  IsIndexed-append base log e h,
  IsIndexed-append base (take (e.index - base) log) e (IsIndexed-take base (e.index - base) log h),
  IsIndexed-take base (e.index - base) log h,
)

append_one-nonempty :
    (base : ℕ) (log : List LogEntry) (e : LogEntry)
    → 0 < length log
    → 0 < length (append_one base log e).1
unfolding append_one position push_entry
append_one-nonempty base log e h = ground (
  arith,
  length-take (e.index - base) log,
  length-append log (e ∷ []),
  length-append (take (e.index - base) log) (e ∷ []),
)

pub append_all-IsIndexed :
    (base : ℕ) (log es : List LogEntry)
    → IsIndexed base log
    → IsIndexed base (append_all base log es).1
unfolding append_all
append_all-IsIndexed base log [] h = h
append_all-IsIndexed base log (e ∷ es) h = ground (
  arith,
  append_one-IsIndexed base log e h,
  append_all-IsIndexed base (append_one base log e).1 es (append_one-IsIndexed base log e h),
)

pub append_all-nonempty :
    (base : ℕ) (log es : List LogEntry) → 0 < length log → 0 < length (append_all base log es).1
unfolding append_all
append_all-nonempty base log [] h = h
append_all-nonempty base log (e ∷ es) h = ground (
  arith,
  append_one-nonempty base log e h,
  append_all-nonempty base (append_one base log e).1 es (append_one-nonempty base log e h),
)

-- The log `new` has the entry where its index says.
abbrev pub HasEntry : ℕ → List LogEntry → LogEntry → Type 0
HasEntry base new e = (e.index - base < length new) × (term_at new (e.index - base) ≡ e.term)

-- What a run of entries from the index `first` on leaves.
pub record AllStored (base first : ℕ) (old es : List LogEntry) (result : Bool × List LogEntry)
    : Type 0 where
  pub succeeds : result.0 ≡ true
  pub stored : All (HasEntry base result.1) es
  pub reaches : first - base ≤ length result.1
  pub below : (i : ℕ) → i < first - base → term_at result.1 i ≡ term_at old i

-- The first round and the later ones together.
store_first :
    (base first : ℕ) (log es : List LogEntry) (e : LogEntry) (log' : List LogEntry)
    (result : Bool × List LogEntry)
    → e.index ≡ first
    → base ≤ first
    → Stored base log e log'
    → AllStored base (first + 1) log' es result
    → AllStored base first log (e ∷ es) result
store_first base first log es e log' result here h one later = record {
  succeeds = later.succeeds;
  stored = ((rw here (omega (arith, later.reaches)), rw here kept), later.stored);
  reaches = omega (arith, later.reaches);
  below = λ i lt. later.below i (omega arith) ∙ one.below i (omega arith);
}
  where
    kept : term_at result.1 (first - base) ≡ e.term
    kept =
        later.below (first - base) (omega arith)
        ∙ ap (λ k. term_at log' (k - base)) (sym here)
        ∙ one.at_index

pub append_all_stores :
    (base first : ℕ) (log es : List LogEntry)
    → IsIndexed first es
    → base ≤ first
    → first ≤ base + length log
    → AllStored base first log es (append_all base log es)
unfolding append_all
append_all_stores base first log [] indexed h k = record {
  succeeds = refl;
  stored = tt;
  reaches = omega arith;
  below = λ i lt. refl;
}
append_all_stores base first log (e ∷ es) (here, indexed) h k =
    let (went, one) = append_one_stores base log e (omega arith) (omega arith) in
    let later =
      append_all_stores base (first + 1) (append_one base log e).1 es indexed (omega arith)
        (omega (arith, one.long)) in
    rw (went, append_all)
      (store_first base first log es e (append_one base log e).1 _ here h one later)

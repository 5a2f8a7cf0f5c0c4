-- ===== src/Engine/Reads.antt =====
-- A write that succeeded is read back: what Get finds in the memtables, also after their rotation.
use lightkv.Prelude.{
  ℕ, zero, suc, ◌+◌, ◌^◌, ◌≤◌, ◌<◌, ◌≡◌, ◌⊎◌, inl, inr, refl, sym, ap, ◌∙◌, arith, Bool, true,
  false, not, Option, none, some, List, [], ◌∷◌, ◌++◌, All, length, length-append, append-nil, drop,
  drop-append_length, ltb, leb, if◌then◌else◌, ◌&&◌,
}
use lightkv.Encoding.{fixed_bytes, decode_fixed64, decode_fixed}
use lightkv.Encoding.Fixed.{length-fixed_bytes, decode_fixed-fixed_bytes}
use lightkv.VLog
use lightkv.VLog.{VLogManager}
use lightkv.MemTable
use lightkv.MemTable.{MemTable, RangeTombstone, Lookup, shadows, is_range_deleted, new_table}
use lightkv.MemTable.Find.{find-new_table}
use lightkv.Engine.{
  Status, Env, Db, is_ok, is_some, rotate_with, trigger_flush, check_size, finish_write,
  pointer_bytes,
}
use lightkv.Engine.Lookup.{covered_by_tombstone, unwrap, if_there, memtables, keep, get_tables}

-- What the memtables answer, the newer first.
unfoldable pub first_found : List ℕ → ℕ → List MemTable → Lookup
first_found key snapshot [] = Lookup.not_found
first_found key snapshot (table ∷ tables) = elim (MemTable.find key snapshot table) [
  | Lookup.not_found ↦ first_found key snapshot tables
  | Lookup.deleted seq ↦ Lookup.deleted seq
  | Lookup.found value seq ↦ Lookup.found value seq
]

-- The tombstones are not newer than the version.
abbrev pub NotNewer : ℕ → List RangeTombstone → Type 0
NotNewer seq ts = All (λ (t : RangeTombstone). t.tombstone_seq ≤ seq) ts

pub not_covered :
    (key : List ℕ) (seq snapshot : ℕ) (ts : List RangeTombstone)
    → NotNewer seq ts
    → covered_by_tombstone key seq snapshot ts ≡ false
unfolding covered_by_tombstone
not_covered key seq snapshot [] h = refl
not_covered key seq snapshot (t ∷ ts) h =
    let old : leb t.tombstone_seq seq ≡ true = ground (arith, h.0) in
    rw old (not_covered key seq snapshot ts h.1)

pub not_deleted :
    (key : List ℕ) (seq snapshot : ℕ) (ts : List RangeTombstone)
    → NotNewer seq ts
    → is_range_deleted key seq snapshot ts ≡ false
unfolding is_range_deleted shadows
not_deleted key seq snapshot [] h = refl
not_deleted key seq snapshot (t ∷ ts) h =
    let old : ltb seq t.tombstone_seq ≡ false = ground (arith, h.0) in
    rw old (not_deleted key seq snapshot ts h.1)

-- What the database looks like to a read: counter, tombstones, value log, and the memtables' answers.
pub record SameReads (a b : Db) : Type 0 where
  pub same_seq : b.last_seq ≡ a.last_seq
  pub same_tombstones : b.range_tombstones ≡ a.range_tombstones
  pub same_vlog : b.vlog ≡ a.vlog
  pub same_found :
      (key : List ℕ) (snapshot : ℕ)
      → first_found key snapshot (memtables b) ≡ first_found key snapshot (memtables a)

SameReads-refl : (a : Db) → SameReads a a
SameReads-refl a = record {
  same_seq = refl;
  same_tombstones = refl;
  same_vlog = refl;
  same_found = λ k s. refl;
}

new_in_front :
    (key : List ℕ) (snapshot : ℕ) (m : MemTable)
    → first_found key snapshot (new_table ∷ m ∷ []) ≡ first_found key snapshot (m ∷ [])
unfolding first_found
new_in_front key snapshot m = rw (find-new_table key snapshot, first_found) refl

rotate-SameReads :
    (o : Option MemTable) (opens : Bool) (db : Db)
    → db.imm ≡ o
    → SameReads db (rotate_with o opens db)
unfolding rotate_with
rotate-SameReads (some table) opens db e = SameReads-refl db
rotate-SameReads none opens db e = record {
  same_seq = refl;
  same_tombstones = refl;
  same_vlog = refl;
  same_found =
      λ k s. new_in_front k s db.mem ∙ ap (λ o. first_found k s (db.mem ∷ if_there o)) (sym e);
}

if-SameReads :
    (db : Db) (test : Bool) (a b : Status × Db)
    → SameReads db a.1
    → SameReads db b.1
    → SameReads db (if test then a else b).1
if-SameReads db true a b h k = h
if-SameReads db false a b h k = k

pub finish_write-SameReads :
    (env : Env) (sync : Bool) (db : Db) → SameReads db (finish_write env sync db).1
unfolding finish_write check_size trigger_flush
finish_write-SameReads env sync db =
    let same = SameReads-refl db in
    if-SameReads db (sync && not (is_ok env.sync)) _ _ same (
      if-SameReads db (not env.every_1024th) _ _ same (
        if-SameReads db (not (is_ok env.disk_space)) _ _ same (
          if-SameReads db (not env.over_size) _ _ same (
            if-SameReads db (is_some db.imm && env.flush_gave_up) (Status.io_error, db)
              (Status.ok, trigger_flush env.log_opens db) same
              (rotate-SameReads db.imm env.log_opens db refl)))))

pub Lookup-cases :
    (l : Lookup)
    → ((l ≡ Lookup.not_found) ⊎ ((s : ℕ) × (l ≡ Lookup.deleted s)))
      ⊎ ((v : List ℕ) × (s : ℕ) × (l ≡ Lookup.found v s))
Lookup-cases Lookup.not_found = inl (inl refl)
Lookup-cases (Lookup.deleted s) = inl (inr (s, refl))
Lookup-cases (Lookup.found v s) = inr (v, s, refl)

deleted-found : (q : ℕ) (v : List ℕ) (s : ℕ) → Lookup.deleted q ≡ Lookup.found v s → ⊥
deleted-found q v s e = cc

found_eq : (v w : List ℕ) (s q : ℕ) → Lookup.found v s ≡ Lookup.found w q → (v ≡ w) × (s ≡ q)
found_eq v w s q e = (cc, cc)

drop_8 : (a b : List ℕ) → length a ≡ 8 → drop 8 (a ++ b) ≡ b
drop_8 a b h = ap (λ n. drop n (a ++ b)) (sym h) ∙ drop-append_length a b

suc_add : (m n : ℕ) → suc m + n ≡ suc (m + n)
suc_add m n = omega arith

drop_none : (n : ℕ) → drop {A = ℕ} n [] ≡ []
drop_none zero = refl
drop_none (suc n) = refl

drop_twice : (m n : ℕ) (a : List ℕ) → drop (m + n) a ≡ drop n (drop m a)
drop_twice zero n a = ap (λ k. drop k a) (omega arith)
drop_twice (suc m) n [] = rw (suc_add m n) (sym (drop_none n))
drop_twice (suc m) n (x ∷ a) = rw (suc_add m n) (drop_twice m n a)

drop_16 : (a : List ℕ) → drop 16 a ≡ drop 8 (drop 8 a)
drop_16 a = drop_twice 8 8 a

-- A get that the memtables decide.
pub get_tables-found :
    (can_map : ℕ → Bool) (key : List ℕ) (snapshot : ℕ) (db : Db) (tables : List MemTable)
    (below : (Status × List ℕ) × Db) (v : List ℕ) (s : ℕ)
    → first_found key snapshot tables ≡ Lookup.found v s
    → covered_by_tombstone key s snapshot db.range_tombstones ≡ false
    → get_tables can_map key snapshot db tables below ≡ keep db (unwrap can_map v db.vlog)
unfolding get_tables first_found
get_tables-found can_map key snapshot db [] below v s e c = absurd (ground arith)
get_tables-found can_map key snapshot db (table ∷ tables) below v s e c =
    elim (Lookup-cases (MemTable.find key snapshot table)) [
      | inl (inl f) ↦
          rw (f, get_tables)
            (get_tables-found can_map key snapshot db tables below v s (rw (f, first_found) at e) c)
      | inl (inr (q, f)) ↦ absurd (deleted-found q v s (rw (f, first_found) at e))
      | inr (w, q, f) ↦
          let (value, number) = found_eq w v q s (rw (f, first_found) at e) in
          rw (f, get_tables) (rw value (rw number (rw c refl)))
    ]

-- How a value that was stored is read.
pointer_fields :
    (a b c : ℕ)
    → a < 2 ^ 64
    → b < 2 ^ 64
    → c < 2 ^ 64
    → (decode_fixed64 (fixed_bytes 8 a ++ (fixed_bytes 8 b ++ fixed_bytes 8 c)) ≡ a)
      × (decode_fixed64 (drop 8 (fixed_bytes 8 a ++ (fixed_bytes 8 b ++ fixed_bytes 8 c))) ≡ b)
      × (decode_fixed64 (drop 16 (fixed_bytes 8 a ++ (fixed_bytes 8 b ++ fixed_bytes 8 c))) ≡ c)
      × (length (fixed_bytes 8 a ++ (fixed_bytes 8 b ++ fixed_bytes 8 c)) ≡ 24)
unfolding decode_fixed64
pointer_fields a b c ha hb hc =
    let fa = fixed_bytes 8 a in
    let fb = fixed_bytes 8 b in
    let fc = fixed_bytes 8 c in
    let first = drop_8 fa (fb ++ fc) (length-fixed_bytes 8 a) in
    let second : drop 16 (fa ++ (fb ++ fc)) ≡ fc =
      drop_16 (fa ++ (fb ++ fc)) ∙ ap (drop 8) first ∙ drop_8 fb fc (length-fixed_bytes 8 b) in
    (
      decode_fixed-fixed_bytes 8 a (fb ++ fc) (omega arith),
      ap (decode_fixed 8) first ∙ decode_fixed-fixed_bytes 8 b fc (omega arith),
      ap (decode_fixed 8) second
          ∙ ap (decode_fixed 8) (sym (append-nil fc))
          ∙ decode_fixed-fixed_bytes 8 c [] (omega arith),
      omega (
        arith,
        length-append fa (fb ++ fc),
        length-append fb fc,
        length-fixed_bytes 8 a,
        length-fixed_bytes 8 b,
        length-fixed_bytes 8 c,
      ),
    )

pub unwrap-pointer :
    (can_map : ℕ → Bool) (id offset len : ℕ) (value : List ℕ) (vlog : VLogManager)
    → id < 2 ^ 64
    → offset < 2 ^ 64
    → len < 2 ^ 64
    → (VLog.read can_map id offset len vlog).0 ≡ VLog.ok value
    → (unwrap can_map (pointer_bytes id offset len) vlog).0 ≡ (Status.ok, value)
unfolding unwrap pointer_bytes
unwrap-pointer can_map id offset len value vlog hi ho hl e =
    let (a, b, c, size) = pointer_fields id offset len hi ho hl in
    rw size (rw a (rw b (rw c (rw e refl))))

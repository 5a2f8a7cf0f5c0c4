-- ===== src/ReplMaster/Resync.antt =====
-- HandlePSYNC: what a replica that asks has after it, with the backlog that follows.
use lightkv.Prelude.{
  ℕ, ◌≤◌, ◌≡◌, refl, ap, ◌∙◌, arith, Bool, true, false, List, [], ◌∷◌, ◌++◌, length, take, drop,
  leb, ◌==◌, if◌then◌else◌, not, ◌&&◌, ◌||◌, bytes_eq, bytes_eq_iff, take-append-drop, Bool-cases,
  inl, inr,
}
use lightkv.ReplMaster.{
  SlaveConn, ReplMaster, PsyncReply, full_resync, continue, unknown_id, has_slave, update_first,
  pending_of, resume_at, start_full, handle_psync, get_backlog_from,
}
use lightkv.ReplMaster.Ring.{Holds, get_backlog_from-drop}

pending_of-resume :
    (full : Bool) (offset fd : ℕ) (slaves : List SlaveConn)
    → has_slave fd slaves ≡ true
    → pending_of fd (update_first fd (resume_at full offset) slaves) ≡ offset
unfolding has_slave pending_of update_first resume_at
pending_of-resume full offset fd [] h = absurd (ground arith)
pending_of-resume full offset fd (s ∷ slaves) h = elim (Bool-cases (s.fd == fd)) [
  | inl this ↦ rw this (rw this refl)
  | inr other ↦ rw other (rw other (pending_of-resume full offset fd slaves (rw other at h)))
]

-- What a replica has after its request, for the stream `h`: it goes on from its own offset, or
-- starts from a snapshot of all that was fed. The bytes that the backlog gives from its pending
-- offset on make the stream whole.
pub data Served (h : List ℕ) (id : List ℕ) (offset fd : ℕ) (m m' : ReplMaster) (reply : PsyncReply)
    : Type 0 where
  resumed :
      reply ≡ continue m.repl_id
      → id ≡ m.repl_id
      → m.backlog_first_offset ≤ offset
      → offset ≤ length h
      → pending_of fd m'.slaves ≡ offset
      → take offset h ++ get_backlog_from (pending_of fd m'.slaves) m' ≡ h
      → Served h id offset fd m m' reply
  restarted :
      reply ≡ full_resync m.repl_id (length h)
      → pending_of fd m'.slaves ≡ length h
      → get_backlog_from (pending_of fd m'.slaves) m' ≡ []
      → Served h id offset fd m m' reply

-- The same ring under other connections.
pub with_slaves-Holds :
    (h : List ℕ) (m : ReplMaster) (slaves : List SlaveConn)
    → Holds h m
    → Holds h (record m { slaves = slaves })
with_slaves-Holds h m slaves ok = record {
  mirrors = record {
    offset = (ok.mirrors).offset;
    slots = (ok.mirrors).slots;
    some_room = (ok.mirrors).some_room;
    recent = (ok.mirrors).recent;
  };
  first_le = ok.first_le;
  within = ok.within;
}

start_full-Served :
    (h id : List ℕ) (offset fd : ℕ) (m : ReplMaster)
    → Holds h m
    → has_slave fd m.slaves ≡ true
    → Served h id offset fd m (start_full fd m).1 (start_full fd m).0
unfolding start_full
start_full-Served h id offset fd m ok there =
    let slaves : List SlaveConn = update_first fd (resume_at true m.repl_offset) m.slaves in
    let p : pending_of fd slaves ≡ length h =
      pending_of-resume true m.repl_offset fd m.slaves there ∙ (ok.mirrors).offset in
    restarted (ap (full_resync m.repl_id) (ok.mirrors).offset) p (
      ap (λ k. get_backlog_from k (record m { slaves = slaves })) p
      ∙ get_backlog_from-drop h (record m { slaves = slaves }) (length h)
          (with_slaves-Holds h m slaves ok)
      ∙ nothing_left h (leb m.backlog_first_offset (length h) && leb (length h) (length h)))
  where
    nothing_left : (h : List ℕ) (b : Bool) → (if b then drop (length h) h else []) ≡ []
    nothing_left h true = ended h
      where
        ended : (l : List ℕ) → drop (length l) l ≡ []
        ended [] = refl
        ended (x ∷ l) = ended l
    nothing_left h false = refl

-- HandlePSYNC for a registered replica, at a master whose ring mirrors the stream: the replica goes
-- on from its own offset only if it knows the master's id and the ring still has all bytes from
-- there; else it starts from a snapshot of all that was fed. In both cases what it holds and the
-- backlog from its pending offset make the whole stream, with no byte missing and none twice. The
-- ring is as it was.
pub handle_psync-Served :
    (h id : List ℕ) (offset fd : ℕ) (m : ReplMaster)
    → Holds h m
    → has_slave fd m.slaves ≡ true
    → Served h id offset fd m (handle_psync id offset fd m).1 (handle_psync id offset fd m).0
      × Holds h (handle_psync id offset fd m).1
unfolding handle_psync
handle_psync-Served h id offset fd m ok there =
    let full = start_full-Served h id offset fd m ok there in
    let full_ring : Holds h (start_full fd m).1 =
      unfold start_full in
      with_slaves-Holds h m (update_first fd (resume_at true m.repl_offset) m.slaves) ok in
    elim (Bool-cases (bytes_eq id unknown_id || not (bytes_eq id m.repl_id))) [
      | inl stranger ↦ rw stranger (full, full_ring)
      | inr known ↦
          elim (Bool-cases (leb m.backlog_first_offset offset && leb offset m.repl_offset)) [
            | inr gone ↦ rw known (rw gone (full, full_ring))
            | inl here ↦
                let slaves : List SlaveConn = update_first fd (resume_at false offset) m.slaves in
                let ring = with_slaves-Holds h m slaves ok in
                let p = pending_of-resume false offset fd m.slaves there in
                let same : bytes_eq id m.repl_id ≡ true = ground arith in
                let in_ring : leb m.backlog_first_offset offset && leb offset (length h) ≡ true =
                  rw (← (ok.mirrors).offset) here in
                rw known (
                  rw here (
                    resumed refl ((bytes_eq_iff id m.repl_id).0 same) (ground arith)
                        (ground (arith, in_ring)) p
                        (ap
                            (λ k.
                              take offset h ++ get_backlog_from k (record m { slaves = slaves }))
                            p
                          ∙ ap (λ l. take offset h ++ l)
                              (get_backlog_from-drop h (record m { slaves = slaves }) offset ring
                                ∙ rw in_ring refl)
                          ∙ take-append-drop offset h),
                    ring,
                  ))
          ]
    ]

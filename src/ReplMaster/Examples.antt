-- ===== src/ReplMaster/Examples.antt =====
-- A ring of four slots.
use lightkv.Prelude.{ℕ, ◌≡◌, refl, arith, false, List, [], ◌∷◌, ◌++◌}
use lightkv.ReplMaster.{
  ReplMaster, new_master, feed, has_slave, handle_psync, ring_bytes, get_backlog_from,
}
use lightkv.ReplMaster.Ring.{Holds, new_master-Holds, feed-Holds}
use lightkv.ReplMaster.Resync.{Served, with_slaves-Holds, handle_psync-Served}

abbrev start : ReplMaster
start = new_master (b'm' ∷ []) 4

abbrev six : List ℕ
six = 1 ∷ 2 ∷ 3 ∷ 4 ∷ 5 ∷ 6 ∷ []

start-Holds : Holds [] start
start-Holds = new_master-Holds (b'm' ∷ []) 4 (omega arith)

feed-Holds_example : ((feed six start).0 ≡ 0) × Holds ([] ++ six) (feed six start).1
feed-Holds_example = feed-Holds [] six start start-Holds

abbrev fed : ReplMaster
fed = (feed six start).1

-- The last three bytes, out of a ring that has wrapped around.
wrapped : get_backlog_from 3 fed ≡ 4 ∷ 5 ∷ 6 ∷ []
unfolding get_backlog_from feed new_master ring_bytes
wrapped = refl

-- The same ring with a replica.
abbrev with_slave : ReplMaster
with_slave = record fed {
  slaves =
      (record {
        fd = 9;
        ack_offset = 0;
        pending_offset = 0;
        sent_full_resync = false;
        in_rdb_transfer = false;
      })
      ∷ [];
}

handle_psync-Served_example :
    Served six
      (b'm' ∷ [])
      3
      9
      with_slave
      (handle_psync (b'm' ∷ []) 3 9 with_slave).1
      (handle_psync (b'm' ∷ []) 3 9 with_slave).0
    × Holds six (handle_psync (b'm' ∷ []) 3 9 with_slave).1
handle_psync-Served_example =
    handle_psync-Served six (b'm' ∷ []) 3 9 with_slave
      (with_slaves-Holds six fed with_slave.slaves (feed-Holds [] six start start-Holds).1)
      (unfold has_slave in refl)

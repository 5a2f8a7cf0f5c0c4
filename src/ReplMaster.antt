-- ===== src/ReplMaster.antt =====
-- src/repl_master.cpp: the replication master, its ring buffer and its replicas. A call holds
-- `mutex_`, so each is one step. A descriptor is a natural number (AddSlave ignores negative ones),
-- and the offset of a request is its value after the cast to `uint64_t`.
pub mod Ring
pub mod Resync
pub mod Examples
use lightkv.Prelude.{
  ℕ, zero, suc, ◌+◌, ◌-◌, ◌%◌, Bool, true, false, List, [], ◌∷◌, ◌++◌, length, get_or, set,
  replicate, ltb, leb, ◌==◌, if◌then◌else◌, not, ◌&&◌, ◌||◌, bytes_eq,
}

-- SlaveConn
pub record SlaveConn : Type 0 where
  pub fd : ℕ
  pub ack_offset : ℕ
  pub pending_offset : ℕ
  pub sent_full_resync : Bool
  pub in_rdb_transfer : Bool

pub record ReplMaster : Type 0 where
  pub repl_id : List ℕ
  pub repl_offset : ℕ
  pub slaves : List SlaveConn
  pub backlog : List ℕ
  pub backlog_size : ℕ
  pub backlog_first_offset : ℕ

-- The constructor; the id is what `generate_uuid` drew.
pub new_master : List ℕ → ℕ → ReplMaster
new_master repl_id backlog_size = record {
  repl_id = repl_id;
  repl_offset = 0;
  slaves = [];
  backlog = replicate backlog_size 0;
  backlog_size = backlog_size;
  backlog_first_offset = 0;
}

-- The loop of Feed over the bytes of a command.
pub feed_loop : List ℕ → ReplMaster → ReplMaster
feed_loop [] m = m
feed_loop (b ∷ cmd) m = feed_loop cmd (record m {
  backlog = set m.backlog (m.repl_offset % m.backlog_size) b;
  repl_offset = m.repl_offset + 1;
})

pub trim_first : ReplMaster → ReplMaster
trim_first m =
    if ltb m.backlog_size (m.repl_offset - m.backlog_first_offset)
    then record m { backlog_first_offset = m.repl_offset - m.backlog_size }
    else m

-- ReplMaster::Feed, with the offset that it returns.
pub feed : List ℕ → ReplMaster → ℕ × ReplMaster
unfolding feed_loop trim_first
feed resp_cmd m = (m.repl_offset, trim_first (feed_loop resp_cmd m))

pub has_slave : ℕ → List SlaveConn → Bool
has_slave fd [] = false
has_slave fd (s ∷ slaves) = s.fd == fd || has_slave fd slaves

-- ReplMaster::AddSlave
pub add_slave : ℕ → ReplMaster → ReplMaster
add_slave fd m = if has_slave fd m.slaves then m else record m {
  slaves =
      m.slaves
      ++ (record {
        fd = fd;
        ack_offset = 0;
        pending_offset = 0;
        sent_full_resync = false;
        in_rdb_transfer = false;
      })
        ∷ [];
}

-- ReplMaster::RemoveSlave
pub without : ℕ → List SlaveConn → List SlaveConn
without fd [] = []
without fd (s ∷ slaves) = if s.fd == fd then without fd slaves else s ∷ without fd slaves

pub remove_slave : ℕ → ReplMaster → ReplMaster
remove_slave fd m = record m { slaves = without fd m.slaves }

-- The loops that change the first connection of a descriptor.
pub update_first : ℕ → (SlaveConn → SlaveConn) → List SlaveConn → List SlaveConn
update_first fd change [] = []
update_first fd change (s ∷ slaves) =
    if s.fd == fd then change s ∷ slaves else s ∷ update_first fd change slaves

-- The first line of the answer to PSYNC.
pub data PsyncReply : Type 0 where
  full_resync : List ℕ → ℕ → PsyncReply
  continue : List ℕ → PsyncReply

pub resume_at : Bool → ℕ → SlaveConn → SlaveConn
resume_at full offset s = record s {
  sent_full_resync = full;
  ack_offset = offset;
  pending_offset = offset;
}

pub start_full : ℕ → ReplMaster → PsyncReply × ReplMaster
unfolding resume_at
start_full fd m = (
  full_resync m.repl_id m.repl_offset,
  record m { slaves = update_first fd (resume_at true m.repl_offset) m.slaves },
)

abbrev pub unknown_id : List ℕ
unknown_id = b'?' ∷ []

-- ReplMaster::HandlePSYNC
pub handle_psync : List ℕ → ℕ → ℕ → ReplMaster → PsyncReply × ReplMaster
unfolding start_full
handle_psync slave_repl_id slave_offset slave_fd m =
    if bytes_eq slave_repl_id unknown_id || not (bytes_eq slave_repl_id m.repl_id)
    then start_full slave_fd m
    else if leb m.backlog_first_offset slave_offset && leb slave_offset m.repl_offset
    then (
      continue m.repl_id,
      record m { slaves = update_first slave_fd (resume_at false slave_offset) m.slaves },
    )
    else start_full slave_fd m

-- The loop of GetBacklogFrom, for the bytes left.
pub ring_bytes : ℕ → ℕ → ReplMaster → List ℕ
ring_bytes zero offset m = []
ring_bytes (suc len) offset m =
    get_or m.backlog (offset % m.backlog_size) 0 ∷ ring_bytes len (offset + 1) m

-- ReplMaster::GetBacklogFrom
pub get_backlog_from : ℕ → ReplMaster → List ℕ
get_backlog_from offset m =
    if ltb offset m.backlog_first_offset || ltb m.repl_offset offset
    then []
    else ring_bytes (m.repl_offset - offset) offset m

-- ReplMaster::CanServeFrom
pub can_serve_from : ℕ → ReplMaster → Bool
can_serve_from offset m = leb m.backlog_first_offset offset && leb offset m.repl_offset

-- ReplMaster::GetSlaveFds
pub get_slave_fds : List SlaveConn → List ℕ
get_slave_fds [] = []
get_slave_fds (s ∷ slaves) = s.fd ∷ get_slave_fds slaves

-- ReplMaster::UpdateSlaveAck
pub update_slave_ack : ℕ → ℕ → ReplMaster → ReplMaster
update_slave_ack fd offset m = record m {
  slaves = update_first fd (λ s. record s { ack_offset = offset }) m.slaves;
}

-- ReplMaster::MarkSlaveSynced
pub mark_slave_synced : ℕ → ReplMaster → ReplMaster
mark_slave_synced fd m = record m {
  slaves = update_first fd (λ s. record s { in_rdb_transfer = false }) m.slaves;
}

-- ReplMaster::UpdateSlavePendingOffset
pub update_slave_pending_offset : ℕ → ℕ → ReplMaster → ReplMaster
update_slave_pending_offset fd offset m = record m {
  slaves = update_first fd (λ s. record s { pending_offset = offset }) m.slaves;
}

-- ReplMaster::GetSlavePendingOffset
pub pending_of : ℕ → List SlaveConn → ℕ
pending_of fd [] = 0
pending_of fd (s ∷ slaves) = if s.fd == fd then s.pending_offset else pending_of fd slaves

-- ReplMaster::SlaveCount and GetBacklogUsed
pub slave_count : ReplMaster → ℕ
slave_count m = length m.slaves

pub get_backlog_used : ReplMaster → ℕ
get_backlog_used m = m.repl_offset - m.backlog_first_offset

-- ===== src/Lib.antt =====
-- LightKV, a key-value store with a write-ahead log, table files, replication and a Raft mode: a
-- model of its core and what holds of it.
--
-- The parts and their files. Each part is a module with the definitions, and child modules with what
-- is proved of them; a child `Examples` runs them on small inputs.
--   Encoding      include/lightkv/encoding.h: PutVarint32/64, GetVarint32/64, EncodeFixed32/64 and
--                 DecodeFixed32/64, PutLengthPrefixedSlice, GetLengthPrefixedSlice.
--   Slice         include/lightkv/slice.h: compare, operator==, operator<, Hash.
--   InternalKey   encoding.h: MakeInternalKey, the Extract functions, SeekInternalKey and
--                 CompareInternalKeys, over Slice's order.
--   Crc           encoding.h: Crc32cExtend and its table.
--   Bloom         src/bloom_filter.cpp: Add and MayMatch; the floating-point product that gives the number
--                 of probes is a parameter, as what a refill adds is in RateLimiter.
--   Block         src/block_builder.cpp and src/block.cpp: a block of sorted entries with shared
--                 prefixes, restart points and a checksum, and the iterator that scans it.
--   BlockHandle   src/block_handle.cpp.
--   Cache         include/lightkv/cache.h: the LRU cache; Cache/Blocks is src/cache.cpp, the cache of
--                 blocks by file and offset over it.
--   Wal           src/wal.cpp: Append, AppendRangeDelete, AppendBatch, GrowFile, ReadRecord; Wal/Replay is
--                 the replay loop of src/db_impl.cpp, which emits the calls on the memtable.
--   ReplMaster    src/repl_master.cpp: the ring of recent commands and the table of replicas.
--   Raft          src/raft.cpp: Raft holds the state and the changes of role, Raft/Replication
--                 HandleAppendEntries, AdvanceCommitIndex and the leader's side, Raft/Election
--                 HandleRequestVote and StartElection, Raft/Snapshot TriggerSnapshot, CompactLog,
--                 HandleInstallSnapshot, AddPeer and RemovePeer, Raft/Restart LoadPersistentState.
--                 Raft/Steps has a relation of one critical section each, of the calls that do not
--                 cut the log, and Raft/Calls one of all calls; an election is a sequence of steps.
--   SkipList      include/lightkv/skiplist.h: the list of levels, Insert, InsertDeletion, Find, SeekGE,
--                 Contains. SkipList/Level and /Levels have the laws of a walk and of the links.
--   MemTable      src/memtable.cpp over SkipList: versions by key, the newest inserted first, and range
--                 tombstones. MemTable/Content runs the calls that the replay of a log emits.
--   VLog          src/vlog.cpp: the files of large values and the manager that reads and appends by
--                 pointer.
--   Engine        src/db_impl.cpp: Put, Delete, DeleteRange, BatchWrite, FinishWrite and TriggerFlush over
--                 Wal, VLog and MemTable; Engine/Lookup is Get over the memtables and the table files;
--                 Engine/Recovery is the part of Initialize that replays the logs.
--   Transaction   src/transaction.cpp over an interface of the store; Transaction/Database fills the interface
--                 with Engine's operations and its laws with what Engine/Writes, Deletes and Others prove.
--   RateLimiter   include/lightkv/rate_limiter.h: the token bucket.
--   Watch         src/watch.cpp: the hub of watchers and the calls that a Notify makes.
--   Protocol      src/server_protocol.cpp: the payload of Raft entries, the blobs of sets, the keys of
--                 structures. What the leader proposes to Raft is encoded by Protocol.
--   Prelude       Boolean tests, lists over native numbers, bit operations, well-founded order.
--
-- How the code is read. A byte is a number below 256 and a string is a list of bytes. A pointer with a
-- limit is the list of bytes between them, a null result is `none`. Integers are natural numbers with
-- the wrap-around of their width written out where the code relies on it or casts; sizes and offsets
-- of data in memory are below 2^64 and are not reduced. A call that holds its object's mutex is one
-- function from state to state. What Raft's peers answer, and what other calls do to a node while
-- StartElection waits with its lock free, are parameters; ApplyCommitted, which frees the lock for each
-- command, is one step here. The answers of ftruncate and mmap are a parameter of the log writer and of
-- the value log. Whether a call of Raft's SavePersistentState succeeds is an answer of the file system
-- by the call's number, and its callers ignore it. RandomHeight is a parameter that may depend on how
-- many nodes there are; its results are at least 1. A pointer to a node of the skip list is the list of
-- nodes behind it on its level. A table file is what its lookup answers for a key and a snapshot, and
-- `last_seq_` does not change during a Get. What the platform and the background work answer to a write is in `Env`.
--
-- Bounds and fuel. The varint loops run 5 and 10 rounds at most, as in the code. The replay of a log
-- recurs on the file's length, and a record takes eight bytes at least; the loop over a set's blob
-- recurs on the blob's length, and each round takes a byte. Eviction recurs on the number of keys in the
-- recency list, of which a round takes one. A request of the rate limiter runs on fuel; its theorem says
-- how much is enough. All other loops recur on a list or a count.
--
-- Not modelled: threads, timers, sockets and files beyond the above; how Raft sends and stages the chunks
-- of a snapshot, what an applied change of membership does to its configuration, and the encoding of its
-- files; the seeking operations of the block iterator; the arena and the ranked form of the skip list; the inside of table files, the flush and compaction, the
-- group commit of syncs; the command server; floating-point scores.
pub mod Prelude
pub mod Encoding
pub mod Slice
pub mod SkipList
pub mod MemTable
pub mod VLog
pub mod Bloom
pub mod Engine
pub mod RateLimiter
pub mod Transaction
pub mod Watch
pub mod InternalKey
pub mod Crc
pub mod Block
pub mod Cache
pub mod Wal
pub mod ReplMaster
pub mod Protocol
pub mod BlockHandle
pub mod Raft

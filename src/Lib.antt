-- ===== src/Lib.antt =====
-- go-core-x: the consensus layer of the key-value service, internal/infrastructure/raft, and the
-- storage engine under it, internal/infrastructure/storage.
--
-- A cluster of Raft nodes (node.go, cluster_config.go) replicates a log of entries. A client's write
-- is proposed to the leader, replicated by AppendEntries, committed on a quorum and applied to a
-- state machine (kv_state_machine.go, or mvcc_state_machine.go, which publishes each change to the
-- change log of change_log.go). What a node must not forget, its term, vote and log, is kept in a
-- MetaStore and a LogStore (meta_store.go, log_store.go).
--
-- A log store and the store of the state machine write to log files (storage/wal): records with a
-- checksum, read back at startup. The state machine's store (storage/kv) keeps the offset of each
-- key's record in memory, as in Bitcask. An ingested event is written to such a file and handed to
-- a pool of workers (internal/application/ingestion, executor, pool).
--
-- Prelude: native numbers, Boolean tests, lists and maps.
-- Raft.Types: the data of state.go, server.go, cluster_config.go and node.go. An int64 index or
--   term is a natural number, since the program only counts them up from 0; the entry type that
--   arrives as a uint32 is cut to 8 bits.
-- Raft.Stores: MetaStore and LogStore as their contents, with a function that says which calls
--   fail.
-- Raft.Config: ClusterConfig, quorumFor and ComputeNewVoters. Overlap is about
--   quorums, Voters about the lists.
-- Raft.Node: RaftNode as a record, lastEntry, entryAt, termAt and truncateLogPrefix. Log has the
--   shape of the log, Ballot what it means to keep a vote.
-- Raft.Vote: HandleRequestVote. Raft.Election: runFollower and runCandidate in their parts under
--   the lock. Raft.Membership: proposeEntry, applyConfigEntry and EnsureConnected;
--   its child Change: ProposeConfigChange, waitForCommit, containsSelf and proposeStableConfig.
-- Raft.Append: HandleAppendEntries. Raft.Leader: runLeader's first step, sendHeartbeats in its parts
--   under the lock, maybeAdvanceCommitIndex; Replicates is about both. Raft.ReadIndex: ReadIndex and confirmLeadership.
-- Raft.Apply: runApplyLoop. Raft.Registry: RaftGroupRegistry (group_registry.go).
-- Raft.Safety: the steps of a node in any order, but those that forget its vote, and what holds over
--   all of them. Leaders has the votes of a term among members that are known by their addresses.
-- Raft.MetaFile: FileMetaStore (meta_store.go). Raft.LogFile: WALLogStore (log_store.go). Codec and Legacy are about the bytes of an entry, Replay
--   about a file, Ascending and Refines about the calls of the store.
-- Raft.SnapshotFile: the bytes of a snapshot (snapshot_store.go). Raft.Snapshots: maybeSnapshot,
--   HandleInstallSnapshot and recoverFromSnapshot, in Safe, Stream (with the chunks of client.go and
--   server.go) and Recovered. The state machine is a record of its three operations there.
-- Storage.Wal: the record format and the reader (wal/reader.go), in Records, Scan and Torn.
--   Storage.Writer: wal/writer.go. Storage.Index: kv/index.go. Storage.Kv: kv/wal_codec.go and
--   kv/raft_store.go; Offsets, Recovery and Bounded are about the index of a store.
--   Storage.Events: the path of ingested events, wal/encode.go, DecodeEvent, kv/store.go and
--   kv/compact.go, whose order of walking a map is an argument.
-- Ingest: the ingestion of events (internal/application/ingestion, pool, executor). EventPool and
--   WorkerPool are those components, Service lets many calls of Ingest and the workers interleave.
-- Replication.Link: the copy of a log file to another node (internal/infrastructure/replication), with the
--   primary's and the replica's end in one state, each with its own lag object.
-- Bytes: byte slices, encoding/binary and io.ReadFull.
-- Cluster.Ring: the consistent hash ring (internal/infrastructure/cluster/ring.go).
-- Machine.Kv and Machine.Mvcc: the two state machines, with the waiters of WaitForIndex. The store
--   of Machine.Kv is a value of the interface KVDurableStore, of which nothing is assumed.
-- Cdc: ChangeLog; Publish in two parts, as the code releases its lock in between.
-- The modules called Tests run the definitions on small inputs.
--
-- A method that holds the mutex is one step: a function from the state before to the state after
-- and the result. A loop is recursion over the list that it walks, or over the index that it counts
-- down, so no fuel is needed; only the scan of a file and the cutting of a snapshot into
-- chunks take fuel, the number of bytes, since each round takes some of them. The answers of peers, the time and the failures of a store are
-- arguments; how a call of the operating system on a file ends is one too, a write that leaves some
-- of its bytes included. The checksum of hash/crc32 is a parameter below 2 ^ 32. JSON encoding, the hash of the ring and dialling a peer are parameters. Logging and metrics are left out.
--
-- Not modelled: what other steps do between the parts of an installation, what a restart makes of a
-- node beyond the loading of its stores and snapshots, the event loop and its timers, the background fsync and the closing of files, the health probes and roles of the cluster,
-- the switching of replication, servers and tools.
pub mod Prelude
pub mod Bytes
pub mod Storage
pub mod Raft
pub mod Machine
pub mod Cdc
pub mod Cluster
pub mod Ingest
pub mod Replication

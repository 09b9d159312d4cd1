-- ===== src/Raft/Node.antt =====
-- The state of a Raft node (node.go, `RaftNode`), and the reads that every handler shares.
pub mod Log
pub mod Ballot
pub mod Compact
use go_core_x.Prelude.{
  ℕ, ◌+◌, ◌-◌, String, Bool, true, false, Option, none, some, List, [], ◌∷◌, ◌++◌, Map, leb, ltb,
  get_last?, ◌==◌, nat_eq, if◌then◌else◌,
}
use go_core_x.Raft.Types.{LogEntry, RaftRole, ClusterConfig, ConfigChangePayload, Bytes}
use go_core_x.Raft.Stores.{MetaStore, LogStore, SnapshotStore, drop_through}

-- What the node takes from libraries: JSON encoding of a config change, and dialling a peer.
pub record Externals : Type 0 where
  pub marshal : ConfigChangePayload → Option Bytes
  pub unmarshal : Bytes → Option ConfigChangePayload
  pub dial : String → Bool

-- `peers` and `next_index` are nil-able in the source; reading a missing key of a map gives 0.
-- `reset_ch` holds one signal at most. A lease expiry of 0 is the zero time.
pub record RaftNode : Type 0 where
  pub id : String
  pub peers : Option (List String)
  pub current_term : ℕ
  pub voted_for : String
  pub role : RaftRole
  pub leader_id : String
  pub log : List LogEntry
  pub commit_index : ℕ
  pub last_applied : ℕ
  pub next_index : Option (Map String ℕ)
  pub match_index : Map String ℕ
  pub meta : Option MetaStore
  pub log_store : Option LogStore
  pub apply_ch : List LogEntry
  pub reset_ch : Bool
  pub snapshot_index : ℕ
  pub snapshot_term : ℕ
  pub snapshot_store : Option SnapshotStore
  pub lease_expiry : ℕ
  pub lease_enabled : Bool
  pub cluster_config : ClusterConfig

unfoldable pub last_entry : RaftNode → ℕ × ℕ
last_entry n = elim (get_last? n.log) [
  | none ↦ (n.snapshot_index, n.snapshot_term)
  | some e ↦ (e.index, e.term)
]

-- The last entry of the list with this index.
unfoldable pub find_back : ℕ → List LogEntry → Option LogEntry
find_back index [] = none
find_back index (e ∷ es) = elim (find_back index es) [
  | some later ↦ some later
  | none ↦ if e.index == index then some e else none
]

unfoldable pub entry_at : RaftNode → ℕ → Option LogEntry
unfolding find_back
entry_at n index = if leb index 0 then none else find_back index n.log

unfoldable pub term_at : RaftNode → ℕ → Option ℕ
unfolding entry_at
term_at n index = if leb index 0 then none else elim (entry_at n index) [
  | some e ↦ some e.term
  | none ↦ if index == n.snapshot_index then some n.snapshot_term else none
]

unfoldable pub truncate_log_prefix : RaftNode → ℕ → ℕ → RaftNode
unfolding drop_through
truncate_log_prefix n up_to term = record n {
  log = drop_through up_to n.log;
  snapshot_index = up_to;
  snapshot_term = term;
}

-- The non-blocking send on `resetCh`.
abbrev pub signal_reset : RaftNode → RaftNode
signal_reset n = record n { reset_ch = true }

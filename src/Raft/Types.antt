-- ===== src/Raft/Types.antt =====
-- The data that the Raft node keeps and exchanges: state.go, server.go, cluster_config.go and the
-- types at the head of node.go. An `int64` index or term is a natural number, since the program
-- only counts them up from 0.
pub use go_core_x.Bytes.{Bytes}
use go_core_x.Prelude.{ℕ, ◌%◌, ◌^◌, String, Bool, List, ◌==◌, nat_eq}

-- uint8; the wire carries a uint32.
abbrev pub EntryType : Type 0
EntryType = ℕ

abbrev pub entry_type_command : EntryType
entry_type_command = 0

abbrev pub entry_type_config : EntryType
entry_type_config = 1

abbrev pub entry_type_of_wire : ℕ → EntryType
entry_type_of_wire n = n % 2 ^ 8

pub record LogEntry : Type 0 where
  pub index : ℕ
  pub term : ℕ
  pub entry_type : EntryType
  pub payload : Bytes

-- pb.LogEntry
pub record WireEntry : Type 0 where
  pub index : ℕ
  pub term : ℕ
  pub entry_type : ℕ
  pub payload : Bytes

pub data RaftRole : Type 0 where
  follower candidate leader : RaftRole

pub data ConfigPhase : Type 0 where
  stable joint : ConfigPhase

pub record ClusterConfig : Type 0 where
  pub phase : ConfigPhase
  pub voters : List String
  pub new_voters : List String

pub record ConfigChangePayload : Type 0 where
  pub phase : String
  pub voters : List String
  pub new_voters : List String

pub record AppendEntriesArgs : Type 0 where
  pub term : ℕ
  pub leader_id : String
  pub prev_log_index : ℕ
  pub prev_log_term : ℕ
  pub entries : List WireEntry
  pub leader_commit : ℕ

pub record AppendEntriesResult : Type 0 where
  pub term : ℕ
  pub success : Bool
  pub conflict_index : ℕ
  pub conflict_term : ℕ

pub record InstallSnapshotArgs : Type 0 where
  pub term : ℕ
  pub leader_id : String
  pub last_included_index : ℕ
  pub last_included_term : ℕ
  pub offset : ℕ
  pub chunk : Bytes
  pub done : Bool

pub record InstallSnapshotResult : Type 0 where
  pub term : ℕ

abbrev pub is_config : LogEntry → Bool
is_config e = e.entry_type == entry_type_config

abbrev pub is_leader_role : RaftRole → Bool
is_leader_role leader = Bool.true
is_leader_role _ = Bool.false

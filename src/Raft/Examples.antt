-- ===== src/Raft/Examples.antt =====
-- The node, the store and the messages that the tests of the Raft modules run on.
use go_core_x.Prelude.{ℕ, true, false, none, some, List, [], ◌∷◌}
use go_core_x.Raft.Types.{
  LogEntry, WireEntry, follower, stable, joint, ClusterConfig, AppendEntriesArgs,
}
use go_core_x.Raft.Stores.{MetaStore}
use go_core_x.Raft.Node.{Externals, RaftNode}

abbrev pub externals : Externals
externals = record { marshal = λ _. some []; unmarshal = λ _. none; dial = λ _. true }

abbrev pub three_nodes : ClusterConfig
three_nodes = record { phase = stable; voters = "b" ∷ "c" ∷ []; new_voters = [] }

abbrev pub three_to_two : ClusterConfig
three_to_two = record { phase = joint; voters = "b" ∷ "c" ∷ []; new_voters = "b" ∷ [] }

abbrev pub two_nodes : ClusterConfig
two_nodes = record { phase = stable; voters = "b" ∷ []; new_voters = [] }

abbrev pub reliable_meta : MetaStore
reliable_meta = record { meta = record { term = 0; voted_for = "" }; fails = λ _. false; calls = 0 }

abbrev pub entry : ℕ → ℕ → LogEntry
entry i t = record { index = i; term = t; entry_type = 0; payload = [] }

abbrev pub node_with : ℕ → List LogEntry → RaftNode
node_with term log = record {
  id = "a";
  peers = some ("b" ∷ "c" ∷ []);
  current_term = term;
  voted_for = "";
  role = follower;
  leader_id = "";
  log = log;
  commit_index = 0;
  last_applied = 0;
  next_index = some [];
  match_index = ("b", 3) ∷ ("c", 1) ∷ [];
  meta = some reliable_meta;
  log_store = some (record { entries = log; fails = λ _. false; calls = 0 });
  apply_ch = [];
  reset_ch = false;
  snapshot_index = 0;
  snapshot_term = 0;
  snapshot_store = none;
  lease_expiry = 0;
  lease_enabled = false;
  cluster_config = three_nodes;
}

-- The log of a follower whose last entry conflicts with the leader's.
abbrev pub behind : RaftNode
behind = node_with 1 (entry 1 1 ∷ entry 2 1 ∷ [])

abbrev pub wire : ℕ → ℕ → WireEntry
wire i t = record { index = i; term = t; entry_type = 0; payload = [] }

abbrev pub replicate_two : AppendEntriesArgs
replicate_two = record {
  term = 2;
  leader_id = "b";
  prev_log_index = 1;
  prev_log_term = 1;
  entries = wire 2 2 ∷ wire 3 2 ∷ [];
  leader_commit = 1;
}

-- A message whose previous entry has another term than the follower's.
abbrev pub mismatch : AppendEntriesArgs
mismatch = record {
  term = 2;
  leader_id = "b";
  prev_log_index = 2;
  prev_log_term = 2;
  entries = [];
  leader_commit = 0;
}

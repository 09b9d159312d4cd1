-- ===== src/Raft/Membership.antt =====
-- node.go, the log's entries on a leader and its config entries: `applyConfigEntry`, `proposeEntry` and
-- `Propose`, with `EnsureConnected` of client.go.
pub mod Frame
pub mod Ballots
pub mod Change
pub mod Proposals
use go_core_x.Prelude.{
  ℕ, ◌+◌, String, Bool, Option, none, some, List, [], ◌∷◌, ◌++◌, Map, lookup, insert, contains,
  ◌==◌, nat_eq, string_eq, if◌then◌else◌,
}
use go_core_x.Raft.Types.{
  LogEntry, is_config, entry_type_command, Bytes, is_leader_role, stable, joint, ClusterConfig,
  ConfigChangePayload,
}
use go_core_x.Raft.Stores.{store_append}
use go_core_x.Raft.Node.{Externals, RaftNode, last_entry}

-- client.go, `PeerClients.EnsureConnected`: dial what is not connected yet.
pub ensure_connected : (String → Bool) → List String → List String → List String
ensure_connected dial clients [] = clients
ensure_connected dial clients (addr ∷ rest) =
    ensure_connected dial
      (if contains clients addr
        then clients
        else if dial addr
        then clients ++ addr ∷ []
        else clients)
      rest

-- Progress for the peers that have none yet.
init_progress : ℕ → Map String ℕ → Map String ℕ → List String → Map String ℕ × Map String ℕ
init_progress last_index next match [] = (next, match)
init_progress last_index next match (addr ∷ rest) = elim (lookup addr next) [
  | some _ ↦ init_progress last_index next match rest
  | none ↦ init_progress last_index (insert addr (last_index + 1) next) (insert addr 0 match) rest
]

-- Adopt a configuration: connect to its peers and, on a leader, begin to track them.
adopt_config : Externals → ClusterConfig → List String → RaftNode → RaftNode
adopt_config x config addrs n =
    let tracked : Option (Map String ℕ) × Map String ℕ = elim n.next_index [
      | none ↦ (none, n.match_index)
      | some next ↦
          (let (next', match') = init_progress (last_entry n).0 next n.match_index addrs in
            (some next', match'))
    ] in
    record n {
      cluster_config = config;
      peers = elim n.peers [ none ↦ none | some cs ↦ some (ensure_connected x.dial cs addrs) ];
      next_index = tracked.0;
      match_index = tracked.1;
    }

apply_payload : Externals → ConfigChangePayload → RaftNode → RaftNode
apply_payload x p n =
    if p.phase == "joint"
    then adopt_config x (record { phase = joint; voters = p.voters; new_voters = p.new_voters })
        p.new_voters n
    else if p.phase == "stable"
    then adopt_config x (record { phase = stable; voters = p.voters; new_voters = [] }) p.voters n
    else n

-- A malformed entry, or one with an unknown phase, is logged and skipped.
pub apply_config_entry : Externals → LogEntry → RaftNode → RaftNode
apply_config_entry x e n = elim (x.unmarshal e.payload) [ none ↦ n | some p ↦ apply_payload x p n ]

-- Append to the log in memory; a config entry takes effect at once.
unfoldable pub append_entry : Externals → LogEntry → RaftNode → RaftNode
append_entry x e n =
    let n' = record n { log = n.log ++ e ∷ [] } in
    if is_config e then apply_config_entry x e n' else n'

-- The result is the node, and the index and term given to the entry; `none` is isLeader = false.
pub propose_entry : Externals → RaftNode → LogEntry → RaftNode × Option (ℕ × ℕ)
propose_entry x n e =
    if is_leader_role n.role
    then (let e' = record e { index = (last_entry n).0 + 1; term = n.current_term } in
        let (store', ok) = store_append e' n.log_store in
        let n' = record n { log_store = store' } in
        if ok then (append_entry x e' n', some (e'.index, n.current_term)) else (n', none))
    else (n, none)

pub propose : Externals → RaftNode → Bytes → RaftNode × Option (ℕ × ℕ)
propose x n payload =
    propose_entry x n
      (record { index = 0; term = 0; entry_type = entry_type_command; payload = payload })

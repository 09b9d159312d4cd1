-- ===== src/Raft/Membership/Change.antt =====
-- node.go, the change of the membership in two phases: `ProposeConfigChange`, `containsSelf`,
-- `waitForCommit` and `proposeStableConfig`. Between its parts under the lock other steps of the
-- node may come; a part takes the node as it stands then.
pub mod Phases
mod Tests
use go_core_x.Prelude.{
  ℕ, String, Bool, true, false, Option, none, some, List, [], ◌∷◌, ◌⊎◌, inl, inr, leb, ◌==◌,
  string_eq, if◌then◌else◌,
}
use go_core_x.Raft.Types.{
  LogEntry, Bytes, entry_type_config, is_leader_role, follower, ConfigChangePayload,
}
use go_core_x.Raft.Node.{Externals, RaftNode}
use go_core_x.Raft.Config.{is_joint}
use go_core_x.Raft.Membership.{propose_entry}

pub data ChangeError : Type 0 where
  not_leader config_change_in_progress marshal_failed : ChangeError

abbrev pub config_entry : Bytes → LogEntry
config_entry payload = record {
  index = 0;
  term = 0;
  entry_type = entry_type_config;
  payload = payload;
}

abbrev pub joint_payload : RaftNode → List String → ConfigChangePayload
joint_payload n new_voters = record {
  phase = "joint";
  voters = n.cluster_config.voters;
  new_voters = new_voters;
}

abbrev pub stable_payload : List String → ConfigChangePayload
stable_payload new_voters = record { phase = "stable"; voters = new_voters; new_voters = [] }

-- The index that a proposal was given.
unfoldable pub proposal_index : Option (ℕ × ℕ) → ChangeError ⊎ ℕ
proposal_index none = inl not_leader
proposal_index (some (index, term)) = inr index

-- `json.Marshal` of the payload, and the proposal of the entry.
unfoldable pub propose_payload :
    Externals → RaftNode → ConfigChangePayload → RaftNode × (ChangeError ⊎ ℕ)
unfolding proposal_index
propose_payload x n p = elim (x.marshal p) [
  | none ↦ (n, inl marshal_failed)
  | some payload ↦
      (let (n', given) = propose_entry x n (config_entry payload) in (n', proposal_index given))
]

-- Phase A, before the goroutine starts.
unfoldable pub propose_config_change :
    Externals → RaftNode → List String → RaftNode × (ChangeError ⊎ ℕ)
unfolding propose_payload
propose_config_change x n new_voters =
    if is_leader_role n.role
    then (if is_joint n.cluster_config
        then (n, inl config_change_in_progress)
        else propose_payload x n (joint_payload n new_voters))
    else (n, inl not_leader)

-- The commit indexes that the polls find until the context is done.
unfoldable pub wait_for_commit : ℕ → List ℕ → Bool
wait_for_commit target [] = false
wait_for_commit target (commit ∷ later) =
    let rest = wait_for_commit target later in if leb target commit then true else rest

-- Phase B. An error closes the channel.
unfoldable pub propose_new_config :
    Externals → RaftNode → List String → RaftNode × (ChangeError ⊎ ℕ)
unfolding propose_payload
propose_new_config x n new_voters =
    if is_leader_role n.role
    then propose_payload x n (stable_payload new_voters)
    else (n, inl not_leader)

-- The proposal of `proposeStableConfig`, which encodes the payload first.
unfoldable pub propose_stable_config :
    Externals → RaftNode → List String → RaftNode × (ChangeError ⊎ ℕ)
unfolding proposal_index
propose_stable_config x n new_voters = elim (x.marshal (stable_payload new_voters)) [
  | none ↦ (n, inl marshal_failed)
  | some payload ↦
      if is_leader_role n.role
      then (let (n', given) = propose_entry x n (config_entry payload) in
          (n', proposal_index given))
      else (n, inl not_leader)
]

unfoldable pub contains_self : RaftNode → List String → Bool
contains_self n [] = false
contains_self n (addr ∷ rest) =
    let later = contains_self n rest in if addr == n.id then true else later

-- After the commit of the new configuration.
unfoldable pub resign_if_removed : RaftNode → List String → RaftNode
unfolding contains_self
resign_if_removed n new_voters =
    if contains_self n new_voters then n else record n { role = follower; lease_expiry = 0 }

-- The wait for the commit of the new configuration, and what follows it. `between` is what the other
-- steps of the node do during the wait; the result is what the channel gets, or `none` for an error.
unfoldable pub settle_change :
    List String
    → List ℕ
    → (RaftNode → RaftNode)
    → RaftNode × (ChangeError ⊎ ℕ)
    → RaftNode × Option ℕ
unfolding wait_for_commit resign_if_removed
settle_change new_voters polls between (n, inl e) = (n, none)
settle_change new_voters polls between (n, inr index) =
    if wait_for_commit index polls
    then (resign_if_removed (between n) new_voters, some index)
    else (between n, none)

-- The goroutine of ProposeConfigChange, with the result of phase A.
unfoldable pub complete_change :
    Externals
    → List String
    → List ℕ × List ℕ
    → (RaftNode → RaftNode) × (RaftNode → RaftNode)
    → RaftNode × (ChangeError ⊎ ℕ)
    → RaftNode × Option ℕ
unfolding propose_new_config settle_change wait_for_commit
complete_change x new_voters polls between (n, inl e) = (n, none)
complete_change x new_voters (polls, polls') (between, between') (n, inr index) =
    if wait_for_commit index polls
    then settle_change new_voters polls' between' (propose_new_config x (between n) new_voters)
    else (between n, none)

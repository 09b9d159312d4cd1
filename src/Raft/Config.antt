-- ===== src/Raft/Config.antt =====
-- cluster_config.go: the active membership and the quorum rule, with `ComputeNewVoters` of node.go.
pub mod Overlap
pub mod Voters
mod Tests
use go_core_x.Prelude.{
  ℕ, ◌+◌, ◌/◌, String, Bool, true, false, not, ◌&&◌, Option, none, some, List, [], ◌∷◌, ◌++◌, leb,
  length, count, select, contains, ◌==◌, nat_eq, string_eq, if◌then◌else◌,
}
use go_core_x.Raft.Types.{ConfigPhase, stable, joint, ClusterConfig}

unfoldable pub is_joint : ClusterConfig → Bool
is_joint c = elim c.phase [ joint ↦ true | stable ↦ false ]

unfoldable pub is_zero : ClusterConfig → Bool
is_zero c = length c.voters == 0

unfoldable pub old_quorum_size : ClusterConfig → ℕ
old_quorum_size c = (length c.voters + 1) / 2 + 1

unfoldable pub new_quorum_size : ClusterConfig → ℕ
new_quorum_size c = (length c.new_voters + 1) / 2 + 1

-- The loop that appends to `out` each address not in `seen`. `seen` holds what `out` holds.
unfoldable pub add_unseen : List String → List String → List String
add_unseen out [] = out
add_unseen out (addr ∷ rest) = add_unseen (if contains out addr then out else out ++ addr ∷ []) rest

unfoldable pub all_peers : ClusterConfig → List String
unfolding add_unseen
all_peers c = add_unseen (add_unseen [] c.voters) c.new_voters

old_quorum : ClusterConfig → (String → Bool) → Bool
unfolding old_quorum_size
old_quorum c ack = leb (old_quorum_size c) (1 + count ack c.voters)

new_quorum : ClusterConfig → (String → Bool) → Bool
unfolding new_quorum_size
new_quorum c ack = leb (new_quorum_size c) (1 + count ack c.new_voters)

quorum_in : ConfigPhase → ClusterConfig → (String → Bool) → Bool
unfolding old_quorum new_quorum
quorum_in stable c ack = old_quorum c ack
quorum_in joint c ack = old_quorum c ack && new_quorum c ack

-- The node itself always counts as acknowledged.
unfoldable pub quorum_for : ClusterConfig → (String → Bool) → Bool
unfolding quorum_in
quorum_for c ack = quorum_in c.phase c ack

-- `none` is ErrConfigChangeInProgress, which the code also returns for an unknown action.
unfoldable pub compute_new_voters : ClusterConfig → String → List String → Option (List String)
unfolding is_joint add_unseen
compute_new_voters c action nodes =
    if is_joint c
    then none
    else if action == "add"
    then some (add_unseen (add_unseen [] c.voters) nodes)
    else if action == "remove"
    then some (select (λ addr. not (contains nodes addr)) c.voters)
    else none

-- ===== src/Raft/Node/Ballot.antt =====
-- What it means for a step of a node to respect the vote that the node has cast.
use go_core_x.Prelude.{◌<◌, ◌≡◌, refl, ◌⊎◌, inr, arith}
use go_core_x.Raft.Node.{RaftNode}

-- Either the term grows, or it stays and a vote that was cast stays with it.
abbrev pub KeepsBallot : RaftNode → RaftNode → Type 0
KeepsBallot n n' =
    (n.current_term < n'.current_term)
    ⊎ ((n'.current_term ≡ n.current_term) × ((n.voted_for ≡ "") ⊎ (n'.voted_for ≡ n.voted_for)))

pub KeepsBallot-refl : (n : RaftNode) → KeepsBallot n n
KeepsBallot-refl n = inr (refl, inr refl)

pub KeepsBallot-trans : (a b c : RaftNode) → KeepsBallot a b → KeepsBallot b c → KeepsBallot a c
KeepsBallot-trans a b c h k = ground arith

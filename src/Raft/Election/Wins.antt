-- ===== src/Raft/Election/Wins.antt =====
-- When an election is won.
use go_core_x.Prelude.{true, ◌≡◌, none, arith, contains, string_eq}
use go_core_x.Raft.Config.{quorum_for}
use go_core_x.Raft.Node.{RaftNode}
use go_core_x.Raft.Election.{Election, check_votes}

-- Votes end an election only with a quorum.
pub check_votes-quorum :
    (e : Election) (n : RaftNode)
    → (check_votes e n).1 ≡ none
    → quorum_for e.config (contains e.grants) ≡ true
unfolding check_votes
check_votes-quorum e n h = ground arith

-- ===== src/Raft/Vote/Ballots.antt =====
-- `HandleRequestVote` and the vote that the node has cast.
use go_core_x.Prelude.{ℕ, String, arith, eq_iff}
use go_core_x.Raft.Node.{RaftNode}
use go_core_x.Raft.Node.Ballot.{KeepsBallot}
use go_core_x.Raft.Vote.{adopt_term, cast_vote, decide_vote, handle_request_vote}

decide_vote-KeepsBallot :
    (n : RaftNode) (c : String) (i t : ℕ) → KeepsBallot n (decide_vote n c i t).0
unfolding decide_vote cast_vote
decide_vote-KeepsBallot n c i t = ground (arith, eq_iff n.voted_for "", eq_iff n.voted_for c)

pub handle_request_vote-KeepsBallot :
    (n : RaftNode) (term : ℕ) (c : String) (i t : ℕ)
    → KeepsBallot n (handle_request_vote n term c i t).0
unfolding handle_request_vote adopt_term
handle_request_vote-KeepsBallot n term c i t =
    ground
      (arith, decide_vote-KeepsBallot n c i t, decide_vote-KeepsBallot (adopt_term term n) c i t)

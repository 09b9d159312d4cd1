-- ===== src/Raft/Election/Ballots.antt =====
-- The candidate's steps and the vote that it has cast.
use go_core_x.Prelude.{ℕ, ◌≤◌, ◌<◌, ◌⊎◌, String, Bool, ◌≡◌, some, arith}
use go_core_x.Raft.Node.{RaftNode}
use go_core_x.Raft.Node.Ballot.{KeepsBallot, KeepsBallot-refl}
use go_core_x.Raft.Election.{
  Election, election_timeout, hear_leader, start_election, check_votes, collect_vote,
}

pub start_election-KeepsBallot :
    (n : RaftNode) {e : Election}
    → (start_election n).1 ≡ some e
    → KeepsBallot n (start_election n).0
unfolding start_election
start_election-KeepsBallot n h = ground arith

-- A node that has not voted in its term loses nothing when its own vote cannot be saved.
pub give_up-KeepsBallot : (n : RaftNode) → n.voted_for ≡ "" → KeepsBallot n (start_election n).0
unfolding start_election
give_up-KeepsBallot n h = ground (arith, h)

pub collect_vote-KeepsBallot :
    (e : Election) (resp_term : ℕ) (addr : String) (vote : Bool) (n : RaftNode)
    → (resp_term ≤ e.term) ⊎ (n.current_term < resp_term)
    → KeepsBallot n (collect_vote e resp_term addr vote n).0
unfolding collect_vote check_votes
collect_vote-KeepsBallot e resp_term addr vote n h = ground arith

pub role_change-KeepsBallot :
    (n : RaftNode) → KeepsBallot n (election_timeout n) × KeepsBallot n (hear_leader n)
unfolding election_timeout hear_leader
role_change-KeepsBallot n = (KeepsBallot-refl n, KeepsBallot-refl n)

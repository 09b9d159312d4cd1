-- ===== src/Raft/Leader/Ballots.antt =====
-- The leader's steps and the vote that it has cast.
use go_core_x.Prelude.{ℕ, zero, suc, String, ◌≡◌, refl, Option, none, some, arith}
use go_core_x.Raft.Types.{AppendEntriesResult, ClusterConfig}
use go_core_x.Raft.Node.{RaftNode}
use go_core_x.Raft.Node.Ballot.{KeepsBallot}
use go_core_x.Raft.Leader.{
  advance_from, maybe_advance_commit_index, step_down_leader, acknowledge, refused, renew_lease,
  start_leader, HeartbeatRound, handle_reply,
}

advance_from-ballot :
    (t : ℕ) (cfg : ClusterConfig) (n : RaftNode) (i : ℕ)
    → ((advance_from t cfg n i).current_term ≡ n.current_term)
      × ((advance_from t cfg n i).voted_for ≡ n.voted_for)
unfolding advance_from
advance_from-ballot t cfg n zero = (refl, refl)
advance_from-ballot t cfg n (suc i) = ground (arith, advance_from-ballot t cfg n i)

acknowledge-ballot :
    (addr : String) (last_sent : ℕ) (n : RaftNode)
    → ((acknowledge addr last_sent n).current_term ≡ n.current_term)
      × ((acknowledge addr last_sent n).voted_for ≡ n.voted_for)
unfolding acknowledge
acknowledge-ballot addr last_sent n = ground arith

pub handle_reply-KeepsBallot :
    (now : ℕ) (r : HeartbeatRound) (addr : String) (last_sent : ℕ)
    (resp : Option AppendEntriesResult) (n : RaftNode)
    → KeepsBallot n (handle_reply now r addr last_sent resp n).0
unfolding handle_reply step_down_leader refused renew_lease maybe_advance_commit_index
handle_reply-KeepsBallot now r addr last_sent none n = ground arith
handle_reply-KeepsBallot now r addr last_sent (some resp) n = ground (
  arith,
  acknowledge-ballot addr last_sent n,
  advance_from-ballot r.term r.config (acknowledge addr last_sent n) r.last_index,
)

pub start_leader-KeepsBallot : (n : RaftNode) → KeepsBallot n (start_leader n).0
unfolding start_leader
start_leader-KeepsBallot n = ground arith

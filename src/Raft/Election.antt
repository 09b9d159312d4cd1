-- ===== src/Raft/Election.antt =====
-- node.go, the candidate's side of an election: `runFollower`'s timeout and the parts of
-- `runCandidate` under the lock.
pub mod Ballots
pub mod Wins
pub mod Tests
use go_core_x.Prelude.{
  ℕ, ◌+◌, ◌-◌, String, Bool, false, Option, none, some, List, [], ◌∷◌, contains, ltb, ◌==◌, nat_eq,
  string_eq, if◌then◌else◌,
}
use go_core_x.Raft.Types.{follower, candidate, leader, ClusterConfig}
use go_core_x.Raft.Config.{quorum_for}
use go_core_x.Raft.Stores.{save_meta}
use go_core_x.Raft.Node.{RaftNode, last_entry}

pub election_timeout : RaftNode → RaftNode
election_timeout n = record n { role = candidate }

-- What a candidate asks for and has collected. The result of an election step is the node and, while
-- the election goes on, this.
pub record Election : Type 0 where
  pub term : ℕ
  pub last_log_index : ℕ
  pub last_log_term : ℕ
  pub config : ClusterConfig
  pub grants : List String

-- Raise the term and vote for oneself. If that cannot be saved the election is given up.
unfoldable pub start_election : RaftNode → RaftNode × Option Election
unfolding last_entry
start_election n =
    let term = n.current_term + 1 in
    let (meta', saved) = save_meta n.meta (record { term = term; voted_for = n.id }) in
    if saved
    then (
      record n { current_term = term; voted_for = n.id; role = candidate; meta = meta' },
      some (record {
        term = term;
        last_log_index = (last_entry n).0;
        last_log_term = (last_entry n).1;
        config = n.cluster_config;
        grants = [];
      }),
    )
    else (record n { current_term = term - 1; voted_for = ""; role = follower; meta = meta' }, none)

abbrev granted : Election → String → Bool
granted e = contains e.grants

-- With a quorum of votes, and the term still the election's, the node leads.
pub check_votes : Election → RaftNode → RaftNode × Option Election
check_votes e n =
    if quorum_for e.config (granted e)
    then (if n.current_term == e.term then record n { role = leader } else n, none)
    else (n, some e)

-- A message of a valid leader has come in: the case `<-n.resetCh`.
pub hear_leader : RaftNode → RaftNode
hear_leader n = record n { role = follower; lease_expiry = 0; reset_ch = false }

-- The case `res := <-resultCh`. A failed call answers with term 0 and no vote.
pub collect_vote : Election → ℕ → String → Bool → RaftNode → RaftNode × Option Election
unfolding check_votes
collect_vote e resp_term addr vote n =
    if ltb e.term resp_term
    then (
      record n { current_term = resp_term; voted_for = ""; role = follower; lease_expiry = 0 },
      none,
    )
    else check_votes (if vote then record e { grants = addr ∷ e.grants } else e) n

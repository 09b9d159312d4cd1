-- ===== src/Raft/Vote.antt =====
-- node.go, `HandleRequestVote` and `candidateLogUpToDate`: the voter's side of an election.
pub mod Ballots
pub mod Grants
pub mod Tests
use go_core_x.Prelude.{
  ℕ, String, Bool, true, false, not, ◌||◌, ltb, leb, ◌==◌, nat_eq, string_eq, if◌then◌else◌,
}
use go_core_x.Raft.Types.{RaftRole, follower}
use go_core_x.Raft.Stores.{RaftMeta, save_meta}
use go_core_x.Raft.Node.{RaftNode, last_entry, signal_reset}

pub candidate_log_up_to_date : RaftNode → ℕ → ℕ → Bool
candidate_log_up_to_date n last_log_index last_log_term =
    let (our_index, our_term) = last_entry n in
    if not (last_log_term == our_term)
    then ltb our_term last_log_term
    else leb our_index last_log_index

-- A message from a higher term: adopt it. A failed save is logged and otherwise ignored.
pub adopt_term : ℕ → RaftNode → RaftNode
adopt_term term n = record n {
  current_term = term;
  voted_for = "";
  role = follower;
  lease_expiry = 0;
  meta = (save_meta n.meta (record { term = term; voted_for = "" })).0;
}

-- The vote is given only once it is saved.
pub cast_vote : RaftNode → String → RaftNode × ℕ × Bool
cast_vote n candidate_id =
    let (meta', saved) =
      save_meta n.meta (record { term = n.current_term; voted_for = candidate_id }) in
    if saved
    then (
      record n { voted_for = candidate_id; meta = meta'; reset_ch = true },
      n.current_term,
      true,
    )
    else (record n { meta = meta' }, n.current_term, false)

-- The rest of the handler, for a term that is not below the node's.
decide_vote : RaftNode → String → ℕ → ℕ → RaftNode × ℕ × Bool
decide_vote n candidate_id last_log_index last_log_term =
    if not (candidate_log_up_to_date n last_log_index last_log_term)
    then (n, n.current_term, false)
    else if n.voted_for == "" || n.voted_for == candidate_id
    then cast_vote n candidate_id
    else (n, n.current_term, false)

-- The result is the node, its term, and whether the vote is granted.
pub handle_request_vote : RaftNode → ℕ → String → ℕ → ℕ → RaftNode × ℕ × Bool
handle_request_vote n term candidate_id last_log_index last_log_term =
    if ltb term n.current_term
    then (n, n.current_term, false)
    else if ltb n.current_term term
    then decide_vote (adopt_term term n) candidate_id last_log_index last_log_term
    else decide_vote n candidate_id last_log_index last_log_term

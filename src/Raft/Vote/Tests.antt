-- ===== src/Raft/Vote/Tests.antt =====
-- Requests for a vote, answered by a node that has not voted.
use go_core_x.Prelude.{true, ◌≡◌, ◌≤◌, ◌<◌, ◌⊎◌, ◌↔◌, refl}
use go_core_x.Raft.Stores.{save_meta}
use go_core_x.Raft.Node.{RaftNode, last_entry}
use go_core_x.Raft.Examples.{behind}
use go_core_x.Raft.Vote.{
  candidate_log_up_to_date, adopt_term, cast_vote, decide_vote, handle_request_vote,
}
use go_core_x.Raft.Vote.Grants.{AtLeast, vote_granted_iff}

pub grants_first : (handle_request_vote behind 2 "b" 2 1).2 ≡ true
unfolding handle_request_vote adopt_term decide_vote candidate_log_up_to_date cast_vote last_entry
    save_meta
grants_first = refl

-- The node after a vote for "b", and after it has refused "c".
abbrev pub after_refusal : RaftNode
after_refusal = (handle_request_vote (handle_request_vote behind 2 "b" 2 1).0 2 "c" 2 1).0

pub grants_again : (handle_request_vote after_refusal 2 "b" 2 1).2 ≡ true
unfolding handle_request_vote adopt_term decide_vote candidate_log_up_to_date cast_vote last_entry
    save_meta
grants_again = refl

vote_granted_iff_example : ((handle_request_vote behind 2 "b" 2 1).2 ≡ true) ↔ (
    (behind.current_term ≤ 2)
    × AtLeast (last_entry behind) 2 1
    × ((behind.current_term < 2) ⊎ (behind.voted_for ≡ "") ⊎ (behind.voted_for ≡ "b")))
vote_granted_iff_example = vote_granted_iff behind 2 "b" 2 1 (λ _. refl)

abbrev pub node_b : RaftNode
node_b = record behind { id = "b" }

pub b_grants_a : (handle_request_vote node_b 2 "a" 2 1).2 ≡ true
unfolding handle_request_vote adopt_term decide_vote candidate_log_up_to_date cast_vote last_entry
    save_meta
b_grants_a = refl

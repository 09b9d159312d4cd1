-- ===== src/Raft/Election/Tests.antt =====
-- An election that "a" ends among three nodes with the vote of the peer at "B".
use go_core_x.Prelude.{String, List, none, some, [], ◌∷◌, ◌≡◌, refl}
use go_core_x.Raft.Types.{stable}
use go_core_x.Raft.Stores.{save_meta}
use go_core_x.Raft.Node.{RaftNode, last_entry}
use go_core_x.Raft.Examples.{behind}
use go_core_x.Raft.Config.{quorum_for}
use go_core_x.Raft.Election.{Election, start_election, check_votes}

abbrev pub election_with : String → List String → Election
election_with peer granted_by = record {
  term = 2;
  last_log_index = 2;
  last_log_term = 1;
  config = record { phase = stable; voters = peer ∷ "C" ∷ []; new_voters = [] };
  grants = granted_by;
}

abbrev pub node_a : RaftNode
node_a = record behind {
  cluster_config = record { phase = stable; voters = "B" ∷ "C" ∷ []; new_voters = [] };
}

pub a_stands : (start_election node_a).1 ≡ some (election_with "B" [])
unfolding start_election save_meta last_entry
a_stands = refl

pub a_wins : (check_votes (election_with "B" ("B" ∷ [])) node_a).1 ≡ none
unfolding check_votes quorum_for
a_wins = refl

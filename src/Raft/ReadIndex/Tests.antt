-- ===== src/Raft/ReadIndex/Tests.antt =====
-- A leader of three nodes without a lease, whose peer "c" does not answer and whose peer "b" does.
use go_core_x.Prelude.{◌<◌, true, some, none, [], ◌∷◌, ◌≡◌, refl, ◌⊎◌}
use go_core_x.Raft.Types.{leader}
use go_core_x.Raft.Config.{quorum_for}
use go_core_x.Raft.Node.{RaftNode}
use go_core_x.Raft.Examples.{behind}
use go_core_x.Raft.ReadIndex.{Answers, collect_answers, confirm_leadership, read_at, read_index}
use go_core_x.Raft.ReadIndex.Confirmed.{confirmed, read_index-confirmed}

abbrev leading : RaftNode
leading = record behind { role = leader; commit_index = 2 }

abbrev b_answers : Answers
b_answers = ("c", none) ∷ ("b", some 1) ∷ []

reads : read_index 5 leading leading b_answers ≡ read_at 2
unfolding read_index confirm_leadership collect_answers quorum_for
reads = refl

read_index-confirmed_example :
    (leading.role ≡ leader)
    × (2 ≡ leading.commit_index)
    × ((leading.lease_enabled ≡ true) × (5 < leading.lease_expiry)
        ⊎ (quorum_for leading.cluster_config (confirmed leading.current_term b_answers) ≡ true))
read_index-confirmed_example =
    read_index-confirmed 5 leading leading b_answers "b" ("c" ∷ []) {i = 2} refl reads

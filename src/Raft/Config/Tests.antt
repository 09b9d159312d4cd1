-- ===== src/Raft/Config/Tests.antt =====
-- Quorums of three nodes, before and during the removal of "c".
use go_core_x.Prelude.{String, Bool, true, ◌≡◌, refl, [], ◌∷◌, Memᴰ, perm_refl, contains, string_eq}
use go_core_x.Raft.Examples.{three_nodes, three_to_two, two_nodes}
use go_core_x.Raft.Config.{quorum_for}
use go_core_x.Raft.Config.Overlap.{supports, quorums_overlap, joint_overlaps_new}

abbrev by_b : String → Bool
by_b = contains ("b" ∷ [])

abbrev by_c : String → Bool
by_c = contains ("c" ∷ [])

three_by_b : quorum_for three_nodes by_b ≡ true
unfolding quorum_for
three_by_b = refl

three_by_c : quorum_for three_nodes by_c ≡ true
unfolding quorum_for
three_by_c = refl

joint_by_b : quorum_for three_to_two by_b ≡ true
unfolding quorum_for
joint_by_b = refl

two_by_b : quorum_for two_nodes by_b ≡ true
unfolding quorum_for
two_by_b = refl

quorums_overlap_example :
    (m : String) × Memᴰ m ("a" ∷ three_nodes.voters)
    × (supports "a" by_b m ≡ true)
    × (supports "a" by_c m ≡ true)
quorums_overlap_example =
    quorums_overlap "a" "a" three_nodes three_nodes by_b by_c (perm_refl _) three_by_b three_by_c

joint_overlaps_new_example :
    (m : String) × Memᴰ m ("a" ∷ three_to_two.new_voters)
    × (supports "a" by_b m ≡ true)
    × (supports "a" by_b m ≡ true)
joint_overlaps_new_example =
    joint_overlaps_new "a" "a" three_to_two two_nodes by_b by_b refl (perm_refl _) joint_by_b
      two_by_b

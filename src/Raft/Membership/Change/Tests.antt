-- ===== src/Raft/Membership/Change/Tests.antt =====
-- A change of the membership of three nodes: the leader adds a peer.
use go_core_x.Prelude.{
  ℕ, String, true, some, List, [], ◌∷◌, ◌==◌, string_eq, if◌then◌else◌, ◌≡◌, refl, arith,
}
use go_core_x.Raft.Types.{Bytes, leader, follower, ConfigChangePayload}
use go_core_x.Raft.Stores.{store_append}
use go_core_x.Raft.Node.{Externals, RaftNode, last_entry}
use go_core_x.Raft.Examples.{node_with, entry}
use go_core_x.Raft.Config.{compute_new_voters, add_unseen}
use go_core_x.Raft.Membership.{
  propose_entry, append_entry, apply_config_entry, apply_payload, adopt_config,
}
use go_core_x.Raft.Membership.Change.{
  joint_payload, stable_payload, propose_config_change, propose_new_config, propose_payload,
  settle_change, complete_change,
}
use go_core_x.Raft.Membership.Change.Phases.{
  Started, Outcome, IsReadBack, stable_config, change_phases, change_resigns,
}

abbrev leading : RaftNode
leading = record (node_with 1 (entry 1 1 ∷ entry 2 1 ∷ [])) { role = leader }

abbrev added : List String
added = "b" ∷ "c" ∷ "d" ∷ []

-- Encodes the joint payload of this change as no bytes and its stable payload as one.
abbrev encoded : ConfigChangePayload → Bytes
encoded p = if p.phase == "joint" then [] else 2 ∷ []

abbrev decoded : Bytes → ConfigChangePayload
decoded [] = joint_payload leading added
decoded (_ ∷ _) = stable_payload added

abbrev codec : Externals
codec = record {
  marshal = λ p. some (encoded p);
  unmarshal = λ b. some (decoded b);
  dial = λ _. true;
}

joint_payload-IsReadBack : IsReadBack codec (joint_payload leading added)
unfolding IsReadBack
joint_payload-IsReadBack [] q = refl
joint_payload-IsReadBack (b ∷ bs) q = ground arith

stable_payload-IsReadBack : IsReadBack codec (stable_payload added)
unfolding IsReadBack
stable_payload-IsReadBack [] q = ground arith
stable_payload-IsReadBack (b ∷ bs) q = refl

change_phases_example :
    Started codec leading added (propose_config_change codec leading added)
    × Outcome leading (stable_config added) (propose_new_config codec leading added)
change_phases_example =
    change_phases codec leading leading added (record { consecutive = (refl, (refl, tt)) })
      (record { consecutive = (refl, (refl, tt)) }) joint_payload-IsReadBack
      stable_payload-IsReadBack

abbrev committed_to : ℕ → RaftNode → RaftNode
committed_to i n = record leading {
  log = n.log;
  commit_index = i;
  cluster_config = n.cluster_config;
}

change_resigns_example :
    (complete_change codec added
      (2 ∷ 3 ∷ [], 3 ∷ 4 ∷ [])
      (committed_to 3, committed_to 4)
      (propose_config_change codec leading added)).0.role
    ≡ follower
unfolding compute_new_voters add_unseen complete_change settle_change propose_config_change
    propose_new_config propose_payload propose_entry append_entry apply_config_entry apply_payload
    adopt_config store_append last_entry
change_resigns_example =
    change_resigns codec leading "add" ("d" ∷ []) added (2 ∷ 3 ∷ [], 3 ∷ 4 ∷ [])
      (committed_to 3, committed_to 4) 4 refl refl refl (λ m. refl) refl

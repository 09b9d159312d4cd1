-- ===== src/Raft/Membership/Change/Phases.antt =====
-- The two phases of a change of the membership: what each proposal does to the configuration, and
-- what the end of a change does to the leader.
use go_core_x.Prelude.{
  ℕ, suc, ◌+◌, String, true, false, not, some, List, [], ◌∷◌, ◌++◌, ◌≡◌, refl, arith, ◌⊎◌, inl, inr,
  length, contains, string_eq, Bool-cases, Option-cases,
}
use go_core_x.Raft.Types.{
  Bytes, is_leader_role, follower, joint, stable, ClusterConfig, ConfigChangePayload,
}
use go_core_x.Raft.Stores.{store_append}
use go_core_x.Raft.Node.{Externals, RaftNode, last_entry}
use go_core_x.Raft.Node.Log.{IsWellFormed}
use go_core_x.Raft.Config.{is_joint, add_unseen, compute_new_voters}
use go_core_x.Raft.Config.Voters.{contains-add_unseen, contains-select}
use go_core_x.Raft.Membership.{
  adopt_config, apply_payload, apply_config_entry, append_entry, propose_entry,
}
use go_core_x.Raft.Membership.Frame.{append_entry-IsFramed}
use go_core_x.Raft.Membership.Proposals.{proposed, last_entry-index}
use go_core_x.Raft.Membership.Change.{
  ChangeError, not_leader, config_change_in_progress, marshal_failed, config_entry, joint_payload,
  stable_payload, proposal_index, propose_payload, propose_config_change, propose_new_config,
  contains_self, resign_if_removed, settle_change, complete_change,
}

-- The leader has the entry behind its log, and the configuration is in force.
pub record IsAdopted (n n' : RaftNode) (c : ClusterConfig) (index : ℕ) : Type 0 where
  pub leads : is_leader_role n.role ≡ true
  pub position : index ≡ suc (n.snapshot_index + length n.log)
  pub log : (payload : Bytes) × (n'.log ≡ n.log ++ proposed n (config_entry payload) ∷ [])
  pub config : n'.cluster_config ≡ c
  pub role : n'.role ≡ n.role

-- Nothing was proposed: the log and the configuration are as before.
pub record IsRefused (n n' : RaftNode) : Type 0 where
  pub log : n'.log ≡ n.log
  pub config : n'.cluster_config ≡ n.cluster_config
  pub role : n'.role ≡ n.role

pub Outcome : RaftNode → ClusterConfig → RaftNode × (ChangeError ⊎ ℕ) → Type 0
Outcome n c (n', r) =
    ((index : ℕ) × (r ≡ inr index) × IsAdopted n n' c index)
    ⊎ (e : ChangeError) × (r ≡ inl e) × IsRefused n n'

-- JSON brings back the payload that it encoded.
unfoldable pub IsReadBack : Externals → ConfigChangePayload → Type 0
IsReadBack x p = (b : Bytes) → x.marshal p ≡ some b → x.unmarshal b ≡ some p

IsRefused-refl : (n : RaftNode) → IsRefused n n
IsRefused-refl n = record { log = refl; config = refl; role = refl }

refused_lem : (n : RaftNode) (c : ClusterConfig) (e : ChangeError) → Outcome n c (n, inl e)
unfolding Outcome
refused_lem n c e = inr (e, refl, IsRefused-refl n)

propose_entry-Outcome :
    (x : Externals) (n : RaftNode) (b : Bytes) (p : ConfigChangePayload) (c : ClusterConfig)
    → IsWellFormed n
    → x.unmarshal b ≡ some p
    → ((m : RaftNode) → (apply_payload x p m).cluster_config ≡ c)
    → Outcome n c (
      (propose_entry x n (config_entry b)).0,
      proposal_index (propose_entry x n (config_entry b)).1,
    )
unfolding Outcome propose_entry append_entry apply_config_entry proposal_index
propose_entry-Outcome x n b p c w back adopts =
    let e = proposed n (config_entry b) in
    let i : (last_entry n).0 + 1 ≡ suc (n.snapshot_index + length n.log) =
      omega (arith, last_entry-index n w) in
    elim (Bool-cases (is_leader_role n.role)) [
      | inl q ↦
          rw (propose_entry, q, i)
            (elim (Bool-cases (store_append e n.log_store).1) [
              | inl ok ↦
                  let n' = record n { log_store = (store_append e n.log_store).0 } in
                  let (f, l) = append_entry-IsFramed x e n' in
                  rw ok (
                    inl (
                      _,
                      refl,
                      record {
                        leads = q;
                        position = refl;
                        log = (b, l);
                        config =
                            rw (apply_config_entry, back)
                              (adopts (record n' { log = n.log ++ e ∷ [] }));
                        role = f.role;
                      },
                    ))
              | inr failed ↦
                  rw failed
                    (inr (not_leader, refl, record { log = refl; config = refl; role = refl }))
            ])
      | inr q ↦ rw (propose_entry, q) (refused_lem n c not_leader)
    ]

propose_payload-Outcome :
    (x : Externals) (n : RaftNode) (p : ConfigChangePayload) (c : ClusterConfig)
    → IsWellFormed n
    → IsReadBack x p
    → ((m : RaftNode) → (apply_payload x p m).cluster_config ≡ c)
    → Outcome n c (propose_payload x n p)
unfolding IsReadBack propose_payload
propose_payload-Outcome x n p c w back adopts = elim (Option-cases (x.marshal p)) [
  | inl q ↦ rw (propose_payload, q) (refused_lem n c marshal_failed)
  | inr (b, q) ↦ rw (propose_payload, q) (propose_entry-Outcome x n b p c w (back b q) adopts)
]

abbrev joint_config : RaftNode → List String → ClusterConfig
joint_config n new_voters = record {
  phase = joint;
  voters = n.cluster_config.voters;
  new_voters = new_voters;
}

abbrev pub stable_config : List String → ClusterConfig
stable_config voters = record { phase = stable; voters = voters; new_voters = [] }

joint_adopted :
    (x : Externals) (n : RaftNode) (vs : List String) (m : RaftNode)
    → (apply_payload x (joint_payload n vs) m).cluster_config ≡ joint_config n vs
unfolding apply_payload adopt_config
joint_adopted x n vs m = refl

stable_adopted :
    (x : Externals) (vs : List String) (m : RaftNode)
    → (apply_payload x (stable_payload vs) m).cluster_config ≡ stable_config vs
unfolding apply_payload adopt_config
stable_adopted x vs m = refl

propose_new_config-Outcome :
    (x : Externals) (n : RaftNode) (vs : List String)
    → IsWellFormed n
    → IsReadBack x (stable_payload vs)
    → Outcome n (stable_config vs) (propose_new_config x n vs)
unfolding propose_new_config
propose_new_config-Outcome x n vs w back = elim (Bool-cases (is_leader_role n.role)) [
  | inl q ↦
      rw (propose_new_config, q)
        (propose_payload-Outcome x n (stable_payload vs) (stable_config vs) w back
          (stable_adopted x vs))
  | inr q ↦ rw (propose_new_config, q) (refused_lem n (stable_config vs) not_leader)
]

-- The joint configuration is in force from a stable one, and no other change starts.
pub record IsStarted (x : Externals) (n n' : RaftNode) (vs : List String) (index : ℕ) : Type 0 where
  pub was_stable : is_joint n.cluster_config ≡ false
  pub adopted : IsAdopted n n' (joint_config n vs) index
  pub excludes :
      (others : List String)
      → propose_config_change x n' others ≡ (n', inl config_change_in_progress)

pub Started : Externals → RaftNode → List String → RaftNode × (ChangeError ⊎ ℕ) → Type 0
Started x n vs (n', r) =
    ((index : ℕ) × (r ≡ inr index) × IsStarted x n n' vs index)
    ⊎ (e : ChangeError) × (r ≡ inl e) × IsRefused n n'

excludes_lem :
    (x : Externals) (n n' : RaftNode) (vs : List String) (index : ℕ)
    → IsAdopted n n' (joint_config n vs) index
    → (others : List String)
    → propose_config_change x n' others ≡ (n', inl config_change_in_progress)
unfolding propose_config_change is_joint
excludes_lem x n n' vs index a others = rw (propose_config_change, a.role, a.leads, a.config) refl

Outcome-Started :
    (x : Externals) (n : RaftNode) (vs : List String) (res : RaftNode × (ChangeError ⊎ ℕ))
    → is_joint n.cluster_config ≡ false
    → Outcome n (joint_config n vs) res
    → Started x n vs res
unfolding Outcome Started
Outcome-Started x n vs res s o = elim o [
  | inl (i, q, a) ↦
      inl (i, q, record { was_stable = s; adopted = a; excludes = excludes_lem x n res.0 vs i a })
  | inr failed ↦ inr failed
]

propose_config_change-Started :
    (x : Externals) (n : RaftNode) (vs : List String)
    → IsWellFormed n
    → IsReadBack x (joint_payload n vs)
    → Started x n vs (propose_config_change x n vs)
unfolding Outcome Started propose_config_change
propose_config_change-Started x n vs w back = elim (Bool-cases (is_leader_role n.role)) [
  | inl q ↦ elim (Bool-cases (is_joint n.cluster_config)) [
    | inl j ↦
        rw (propose_config_change, q, j) (inr (config_change_in_progress, refl, IsRefused-refl n))
    | inr s ↦
        rw (propose_config_change, q, s)
          (Outcome-Started x n vs (propose_payload x n (joint_payload n vs)) s (
            propose_payload-Outcome x n (joint_payload n vs) (joint_config n vs) w back
              (joint_adopted x n vs)))
  ]
  | inr q ↦ rw (propose_config_change, q) (inr (not_leader, refl, IsRefused-refl n))
]

-- Where JSON brings back the payloads, a change starts on a leader with a stable configuration: the
-- entry gets the index behind the log, which is returned, the joint configuration of the old and
-- the new voters is in force, and every other change is refused in it. Otherwise log and
-- configuration stay. In the second part the same holds of the new voters' stable configuration, on
-- whatever node it is proposed.
pub change_phases :
    (x : Externals) (n m : RaftNode) (vs : List String)
    → IsWellFormed n
    → IsWellFormed m
    → IsReadBack x (joint_payload n vs)
    → IsReadBack x (stable_payload vs)
    → Started x n vs (propose_config_change x n vs)
      × Outcome m (stable_config vs) (propose_new_config x m vs)
change_phases x n m vs w w' back back' =
    (propose_config_change-Started x n vs w back, propose_new_config-Outcome x m vs w' back')

contains_self_lem : (n : RaftNode) (vs : List String) → contains_self n vs ≡ contains vs n.id
unfolding contains_self
contains_self_lem n [] = refl
contains_self_lem n (v ∷ vs) = ground (arith, contains_self_lem n vs)

-- An address that neither the configuration nor the request names is not among the new voters.
compute_new_voters-without :
    (c : ClusterConfig) (action : String) (nodes vs : List String) (a : String)
    → compute_new_voters c action nodes ≡ some vs
    → contains c.voters a ≡ false
    → contains nodes a ≡ false
    → contains vs a ≡ false
unfolding compute_new_voters
compute_new_voters-without c action nodes vs a q h k = ground (
  arith,
  contains-add_unseen (add_unseen [] c.voters) nodes a,
  contains-add_unseen [] c.voters a,
  contains-select (λ addr. not (contains nodes addr)) c.voters a,
)

settle_change-resigns :
    (vs : List String) (polls : List ℕ) (between : RaftNode → RaftNode)
    → (res : RaftNode × (ChangeError ⊎ ℕ)) → (a : String) (index : ℕ) → contains vs a ≡ false
    → ((m : RaftNode) → (between m).id ≡ a)
    → (settle_change vs polls between res).1 ≡ some index
    → (settle_change vs polls between res).0.role ≡ follower
unfolding settle_change resign_if_removed
settle_change-resigns vs polls between (n, inl e) a index h i q = ground (arith, q)
settle_change-resigns vs polls between (n, inr j) a index h i q =
    ground (arith, q, contains_self_lem (between n) vs, i n, h)

complete_change-resigns :
    (x : Externals) (vs : List String) (polls : List ℕ × List ℕ)
    → (between : (RaftNode → RaftNode) × (RaftNode → RaftNode))
    → (res : RaftNode × (ChangeError ⊎ ℕ)) → (a : String) (index : ℕ) → contains vs a ≡ false
    → ((m : RaftNode) → (between.1 m).id ≡ a)
    → (complete_change x vs polls between res).1 ≡ some index
    → (complete_change x vs polls between res).0.role ≡ follower
unfolding complete_change
complete_change-resigns x vs polls between (n, inl e) a index h i q = ground (arith, q)
complete_change-resigns x vs polls between (n, inr j) a index h i q = ground (
  arith,
  q,
  settle_change-resigns vs polls.1 between.1 (propose_new_config x (between.0 n) vs) a index h i,
)

-- A leader whose id is not among the addresses of its configuration, as its voters leave itself
-- out, is a follower when a change that names other nodes has ended with an index, whatever its
-- other steps do in between. They keep its id.
pub change_resigns :
    (x : Externals) (n : RaftNode) (action : String) (nodes vs : List String)
    → (polls : List ℕ × List ℕ) → (between : (RaftNode → RaftNode) × (RaftNode → RaftNode))
    → (index : ℕ) → contains n.cluster_config.voters n.id ≡ false
    → contains nodes n.id ≡ false
    → compute_new_voters n.cluster_config action nodes ≡ some vs
    → ((m : RaftNode) → (between.1 m).id ≡ n.id)
    → (complete_change x vs polls between (propose_config_change x n vs)).1 ≡ some index
    → (complete_change x vs polls between (propose_config_change x n vs)).0.role ≡ follower
change_resigns x n action nodes vs polls between index h k q i =
    complete_change-resigns x vs polls between (propose_config_change x n vs) n.id index
      (compute_new_voters-without n.cluster_config action nodes vs n.id q h k) i

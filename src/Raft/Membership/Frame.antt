-- ===== src/Raft/Membership/Frame.antt =====
-- `applyConfigEntry` and the fields that a config entry does not write.
use go_core_x.Prelude.{List, [], ◌∷◌, ◌++◌, ◌≡◌, refl, arith, String, Option-cases, inl, inr}
use go_core_x.Raft.Types.{LogEntry, ClusterConfig, ConfigChangePayload, joint, stable}
use go_core_x.Raft.Node.{Externals, RaftNode}
use go_core_x.Raft.Membership.{adopt_config, apply_payload, apply_config_entry, append_entry}

-- The fields that neither a config entry nor a change of the log writes.
pub record IsFramed (n n' : RaftNode) : Type 0 where
  pub id : n'.id ≡ n.id
  pub current_term : n'.current_term ≡ n.current_term
  pub voted_for : n'.voted_for ≡ n.voted_for
  pub role : n'.role ≡ n.role
  pub meta : n'.meta ≡ n.meta
  pub commit_index : n'.commit_index ≡ n.commit_index
  pub last_applied : n'.last_applied ≡ n.last_applied
  pub snapshot_index : n'.snapshot_index ≡ n.snapshot_index
  pub snapshot_term : n'.snapshot_term ≡ n.snapshot_term

pub IsFramed-refl : (n : RaftNode) → IsFramed n n
IsFramed-refl n = ground arith

pub IsFramed-trans : {a b c : RaftNode} → IsFramed a b → IsFramed b c → IsFramed a c
IsFramed-trans h k = ground arith

adopt_config-IsFramed :
    (x : Externals) (c : ClusterConfig) (addrs : List String) (n : RaftNode)
    → IsFramed n (adopt_config x c addrs n) × ((adopt_config x c addrs n).log ≡ n.log)
unfolding adopt_config
adopt_config-IsFramed x c addrs n = (ground arith, refl)

apply_payload-IsFramed :
    (x : Externals) (p : ConfigChangePayload) (n : RaftNode)
    → IsFramed n (apply_payload x p n) × ((apply_payload x p n).log ≡ n.log)
unfolding apply_payload
apply_payload-IsFramed x p n = ground (
  arith,
  adopt_config-IsFramed x (record { phase = joint; voters = p.voters; new_voters = p.new_voters })
      p.new_voters n,
  adopt_config-IsFramed x (record { phase = stable; voters = p.voters; new_voters = [] }) p.voters
      n,
)

pub apply_config_entry-IsFramed :
    (x : Externals) (e : LogEntry) (n : RaftNode)
    → IsFramed n (apply_config_entry x e n) × ((apply_config_entry x e n).log ≡ n.log)
unfolding apply_config_entry
apply_config_entry-IsFramed x e n = elim (Option-cases (x.unmarshal e.payload)) [
  | inl q ↦ rw (q, apply_config_entry) (IsFramed-refl n, refl)
  | inr (p, q) ↦ rw (q, apply_config_entry) (apply_payload-IsFramed x p n)
]

pub append_entry-IsFramed :
    (x : Externals) (e : LogEntry) (n : RaftNode)
    → IsFramed n (append_entry x e n) × ((append_entry x e n).log ≡ n.log ++ e ∷ [])
unfolding append_entry
append_entry-IsFramed x e n =
    ground (arith, apply_config_entry-IsFramed x e (record n { log = n.log ++ e ∷ [] }))

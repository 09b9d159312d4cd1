-- ===== src/Raft/Apply/Tests.antt =====
-- A node that starts behind a snapshot of its first entry, of which it has applied nothing, and has
-- committed the next one.
use go_core_x.Prelude.{suc, ◌-◌, ◌<◌, ◌≤◌, ◌⊎◌, ◌≡◌, refl, [], ◌∷◌, arith}
use go_core_x.Raft.Node.{RaftNode}
use go_core_x.Raft.Examples.{behind, entry}
use go_core_x.Raft.Apply.{apply_tick}
use go_core_x.Raft.Apply.Order.{later, IsRange, IsReadyToApply, apply_tick-IsRange}

abbrev restarted : RaftNode
restarted = record behind { snapshot_index = 1; log = entry 2 1 ∷ []; commit_index = 2 }

apply_tick-IsRange_example :
    let behind = later restarted.last_applied restarted.snapshot_index in
    (restarted.last_applied < restarted.commit_index)
      × ((apply_tick restarted).0.last_applied ≡ restarted.commit_index)
      × IsRange restarted (suc behind) (restarted.commit_index - behind) (apply_tick restarted).1
      × IsReadyToApply (apply_tick restarted).0
    ⊎ (restarted.commit_index ≤ restarted.last_applied) × (apply_tick restarted ≡ (restarted, []))
apply_tick-IsRange_example =
    apply_tick-IsRange restarted
      (record { well_formed = record { consecutive = (refl, tt) }; present = omega arith })

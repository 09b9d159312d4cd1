-- ===== src/Raft/Membership/Ballots.antt =====
-- `proposeEntry` and the fields that a proposal does not write.
use go_core_x.Prelude.{arith, ◌+◌}
use go_core_x.Raft.Types.{LogEntry}
use go_core_x.Raft.Stores.{store_append}
use go_core_x.Raft.Node.{Externals, RaftNode, last_entry}
use go_core_x.Raft.Membership.{propose_entry}
use go_core_x.Raft.Membership.Frame.{IsFramed, append_entry-IsFramed}

pub propose_entry-IsFramed :
    (x : Externals) (n : RaftNode) (e : LogEntry) → IsFramed n (propose_entry x n e).0
unfolding propose_entry
propose_entry-IsFramed x n e =
    let e' = record e { index = (last_entry n).0 + 1; term = n.current_term } in
    ground
      (arith, append_entry-IsFramed x e' (record n { log_store = (store_append e' n.log_store).0 }))

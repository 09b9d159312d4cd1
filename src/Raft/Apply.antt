-- ===== src/Raft/Apply.antt =====
-- node.go, `runApplyLoop`: how committed entries reach the state machine.
pub mod Order
mod Tests
use go_core_x.Prelude.{ℕ, zero, suc, ◌+◌, ◌-◌, none, some, List, [], ◌∷◌, ◌++◌, leb, if◌then◌else◌}
use go_core_x.Raft.Types.{LogEntry}
use go_core_x.Raft.Node.{RaftNode, entry_at}

-- The loop from `from` on, for so many indices. An index without an entry is skipped.
pub collect_entries : RaftNode → ℕ → ℕ → List LogEntry
collect_entries n from zero = []
collect_entries n from (suc k) =
    let rest = collect_entries n (suc from) k in
    elim (entry_at n from) [ none ↦ rest | some e ↦ e ∷ rest ]

-- One tick under the lock: the node, and the entries that are then sent on `applyCh`.
unfoldable pub apply_tick : RaftNode → RaftNode × List LogEntry
unfolding collect_entries
apply_tick n = if leb n.commit_index n.last_applied then (n, []) else (
  record n { last_applied = n.commit_index },
  collect_entries n (n.last_applied + 1) (n.commit_index - n.last_applied),
)

-- The sends after it.
pub send_entries : List LogEntry → RaftNode → RaftNode
send_entries es n = record n { apply_ch = n.apply_ch ++ es }

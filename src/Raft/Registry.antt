-- ===== src/Raft/Registry.antt =====
-- group_registry.go, `RaftGroupRegistry`: the Raft group of each partition.
pub mod Entries
use go_core_x.Prelude.{String, Option, none, some, [], ◌∷◌, Map, lookup, insert, string_eq, List}
use go_core_x.Raft.Node.{RaftNode}

abbrev pub RaftGroupRegistry : Type 0
RaftGroupRegistry = Map String RaftNode

abbrev pub new_raft_group_registry : RaftGroupRegistry
new_raft_group_registry = []

-- `get`, named `Get` in the source: `none` is (nil, false).
pub get_group : String → RaftGroupRegistry → Option RaftNode
get_group id r = lookup id r

-- The node is `none` if it is nil, and the result is `none` for the panic.
pub register_group : String → Option RaftNode → RaftGroupRegistry → Option RaftGroupRegistry
register_group id none r = none
register_group id (some n) r = elim (lookup id r) [ some _ ↦ some r | none ↦ some (insert id n r) ]

-- Registrations one after another, up to a panic.
pub register_groups : List (String × RaftNode) → RaftGroupRegistry → Option RaftGroupRegistry
register_groups [] r = some r
register_groups ((id, n) ∷ rest) r = elim (register_group id (some n) r) [
  | none ↦ none
  | some r' ↦ register_groups rest r'
]

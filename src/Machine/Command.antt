-- ===== src/Machine/Command.antt =====
-- kv_state_machine.go, `RaftKVCommand`, and the durable store behind the interface KVDurableStore.
use go_core_x.Prelude.{ℕ, String, Bool, Option}
use go_core_x.Raft.Types.{Bytes}

pub record RaftKvCommand : Type 0 where
  pub op : String
  pub key : String
  pub value : String
  pub expected_version : ℕ

-- JSON decoding of an entry's data; `none` for malformed data.
abbrev pub Decoder : Type 0
Decoder = Bytes → Option RaftKvCommand

-- The interface KVDurableStore: a store of any kind with its state, and what its methods do to it. The
-- result of a method is the state after it, and `true` for a nil error; after an error the state may
-- have changed too.
pub record KvDurableStore : Type 1 where
  pub State : Type 0
  pub state : State
  pub write_kv : String → String → ℕ → State → State × Bool
  pub delete_kv : String → ℕ → State → State × Bool

-- ===== src/Machine/Kv/Tests.antt =====
-- A machine whose durable store fails in its first call, to which two writes are applied.
use go_core_x.Prelude.{ℕ, ◌+◌, some, [], ◌∷◌, leb}
use go_core_x.Raft.Types.{LogEntry, Bytes}
use go_core_x.Machine.Command.{RaftKvCommand, Decoder, KvDurableStore}
use go_core_x.Machine.Kv.{KvStateMachine, new_kv_state_machine}

abbrev set_x : RaftKvCommand
set_x = record { op = "set"; key = "x"; value = "1"; expected_version = 0 }

abbrev set_y : RaftKvCommand
set_y = record { op = "set"; key = "y"; value = "2"; expected_version = 0 }

abbrev decoded : Bytes → RaftKvCommand
decoded [] = set_x
decoded (_ ∷ _) = set_y

abbrev decode_both : Decoder
decode_both = λ b. some (decoded b)

-- The state of the store is the number of its calls.
abbrev fails_once : KvDurableStore
fails_once = record {
  State = ℕ;
  state = 0;
  write_kv = λ key value index calls. (calls + 1, leb 1 calls);
  delete_kv = λ key index calls. (calls + 1, leb 1 calls);
}

abbrev entry_x : LogEntry
entry_x = record { index = 3; term = 1; entry_type = 0; payload = [] }

abbrev entry_y : LogEntry
entry_y = record { index = 4; term = 1; entry_type = 0; payload = 0 ∷ [] }

abbrev waited : KvStateMachine
waited = record (new_kv_state_machine (some fails_once)) { waiters = (3, 7 ∷ []) ∷ [] }

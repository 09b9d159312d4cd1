-- ===== src/Machine/Kv.antt =====
-- kv_state_machine.go, `KVStateMachine`.
pub mod Outcome
pub mod Snapshot
pub mod Replay
mod Tests
use go_core_x.Prelude.{
  ℕ, ◌+◌, String, Bool, true, false, Option, none, some, List, [], ◌∷◌, ◌++◌, Map, lookup, insert,
  delete, leb, ltb, ◌==◌, nat_eq, string_eq, if◌then◌else◌,
}
use go_core_x.Raft.Types.{LogEntry}
use go_core_x.Machine.Command.{RaftKvCommand, Decoder, KvDurableStore}
use go_core_x.Machine.Waiters.{Waiters, waiting, register, unregister, take_up_to}

-- `closed` lists the channels that have been closed, the last one first.
pub record KvStateMachine : Type 1 where
  pub kv : Map String String
  pub waiters : Waiters
  pub closed : List ℕ
  pub store : Option KvDurableStore
  pub last_applied : ℕ

abbrev pub new_kv_state_machine : Option KvDurableStore → KvStateMachine
new_kv_state_machine store = record {
  kv = [];
  waiters = [];
  closed = [];
  store = store;
  last_applied = 0;
}

pub notify_waiters : ℕ → KvStateMachine → KvStateMachine
unfolding waiting
notify_waiters index sm = record sm {
  waiters = delete index sm.waiters;
  closed = waiting index sm.waiters ++ sm.closed;
}

pub notify_all_waiters_up_to : ℕ → KvStateMachine → KvStateMachine
unfolding take_up_to
notify_all_waiters_up_to up_to sm =
    let (chans, rest) = take_up_to up_to sm.waiters in
    record sm { waiters = rest; closed = chans ++ sm.closed }

-- Step 1 of `apply`: any other op writes nothing and succeeds.
pub durable_write : RaftKvCommand → ℕ → Option KvDurableStore → Option KvDurableStore × Bool
durable_write cmd index none = (none, true)
durable_write cmd index (some s) =
    if cmd.op == "set"
    then (let (st, ok) = s.write_kv cmd.key cmd.value index s.state in
        (some (record s { state = st }), ok))
    else if cmd.op == "del"
    then (let (st, ok) = s.delete_kv cmd.key index s.state in (some (record s { state = st }), ok))
    else (some s, true)

-- Step 2 of `apply`, and the loop body of `RecoverFromStore`.
pub update_cache : RaftKvCommand → Map String String → Map String String
update_cache cmd kv =
    if cmd.op == "set"
    then insert cmd.key cmd.value kv
    else if cmd.op == "del"
    then delete cmd.key kv
    else kv

apply_command : RaftKvCommand → ℕ → KvStateMachine → KvStateMachine
unfolding durable_write update_cache notify_waiters
apply_command cmd index sm =
    let (store', ok) = durable_write cmd index sm.store in
    if ok
    then notify_waiters index
        (record sm { store = store'; kv = update_cache cmd sm.kv; last_applied = index })
    else record sm { store = store' }

-- A malformed entry wakes its waiters and is otherwise skipped.
pub apply : Decoder → LogEntry → KvStateMachine → KvStateMachine
apply decode e sm = elim (decode e.payload) [
  | none ↦ notify_waiters e.index sm
  | some cmd ↦ apply_command cmd e.index sm
]

pub apply_direct : Decoder → LogEntry → KvStateMachine → KvStateMachine
apply_direct decode e sm = if leb e.index sm.last_applied then sm else apply decode e sm

-- cmd/main.go, the loop over the entries that the store has not applied yet.
pub replay_gap : Decoder → ℕ → List LogEntry → KvStateMachine → KvStateMachine
unfolding apply_direct
replay_gap decode applied [] sm = sm
replay_gap decode applied (e ∷ es) sm =
    replay_gap decode applied es (if ltb applied e.index then apply_direct decode e sm else sm)

-- The loop of `Run` over the entries that the channel delivers.
pub apply_all : Decoder → List LogEntry → KvStateMachine → KvStateMachine
apply_all decode [] sm = sm
apply_all decode (e ∷ es) sm = apply_all decode es (apply decode e sm)

recover_cache : Decoder → ℕ → List LogEntry → Map String String → Map String String
unfolding update_cache
recover_cache decode applied [] kv = kv
recover_cache decode applied (e ∷ es) kv =
    let rest =
      recover_cache decode applied es
        (elim (decode e.payload) [ none ↦ kv | some cmd ↦ update_cache cmd kv ]) in
    if ltb applied e.index then kv else rest

-- `recovered` is what the store's RecoverKV returns, `none` for an error. The result is the
-- machine, and the index or `none` for the error.
pub recover_from_store :
    Decoder
    → (KvDurableStore → Option ℕ)
    → List LogEntry
    → KvStateMachine
    → KvStateMachine × Option ℕ
unfolding recover_cache
recover_from_store decode recovered entries sm = elim sm.store [
  | none ↦ (sm, some 0)
  | some s ↦ elim (recovered s) [
    | none ↦ (sm, none)
    | some applied ↦ (
      record sm { kv = recover_cache decode applied entries sm.kv; last_applied = applied },
      some applied,
    )
  ]
]

pub get : String → KvStateMachine → Option String
get key sm = lookup key sm.kv

-- `WaitForIndex` up to its wait: `true` if it returns at once, and otherwise a registered channel.
pub wait_for_index : ℕ → ℕ → KvStateMachine → KvStateMachine × Bool
unfolding register
wait_for_index index ch sm =
    if leb index sm.last_applied
    then (sm, true)
    else (record sm { waiters = register index ch sm.waiters }, false)

-- The end of the wait by the context.
pub stop_waiting : ℕ → ℕ → KvStateMachine → KvStateMachine
unfolding unregister
stop_waiting index ch sm = record sm { waiters = unregister index ch sm.waiters }

pub take_snapshot : KvStateMachine → Map String String × ℕ
take_snapshot sm = (sm.kv, sm.last_applied)

pub restore_snapshot : Map String String → ℕ → KvStateMachine → KvStateMachine
unfolding notify_all_waiters_up_to
restore_snapshot kv last_applied sm =
    notify_all_waiters_up_to last_applied (record sm { kv = kv; last_applied = last_applied })

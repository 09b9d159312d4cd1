-- ===== src/Machine/Mvcc.antt =====
-- mvcc_state_machine.go, `MVCCStateMachine`.
pub mod Invariant
pub mod Reads
pub mod Conflicts
pub mod Snapshot
mod Tests
use go_core_x.Prelude.{
  ℕ, ◌+◌, ◌-◌, String, Bool, true, false, not, Option, none, some, List, [], ◌∷◌, ◌++◌, Map, lookup,
  insert, delete, length, drop, get_last?, map, leb, ltb, ◌==◌, nat_eq, string_eq, if◌then◌else◌,
}
use go_core_x.Raft.Types.{LogEntry}
use go_core_x.Machine.Command.{RaftKvCommand, Decoder}
use go_core_x.Machine.Waiters.{Waiters, waiting, register, unregister, take_up_to}
use go_core_x.Cdc.{ChangeEvent, ChangeLog, publish}

pub record MvccVersion : Type 0 where
  pub version : ℕ
  pub value : String
  pub deleted : Bool

-- `nil` tells a waiter that its entry was applied or was a conflict; `displaced` is
-- ErrSnapshotDisplaced.
pub data WaitResult : Type 0 where
  nil displaced : WaitResult

-- `woken` lists the channels that have been answered, the last one first.
pub record MvccStateMachine : Type 0 where
  pub versions : Map String (List MvccVersion)
  pub latest : Map String ℕ
  pub conflict_results : Map ℕ ℕ
  pub retention : ℕ
  pub waiters : Waiters
  pub woken : List (ℕ × WaitResult)
  pub last_applied : ℕ

abbrev pub new_mvcc_state_machine : ℕ → MvccStateMachine
new_mvcc_state_machine retention = record {
  versions = [];
  latest = [];
  conflict_results = [];
  retention = retention;
  waiters = [];
  woken = [];
  last_applied = 0;
}

-- Reading a map: a missing key gives nil, or 0.
pub versions_of : String → MvccStateMachine → List MvccVersion
versions_of key sm = elim (lookup key sm.versions) [ none ↦ [] | some vs ↦ vs ]

pub latest_of : String → MvccStateMachine → ℕ
latest_of key sm = elim (lookup key sm.latest) [ none ↦ 0 | some v ↦ v ]

abbrev answer : WaitResult → List ℕ → List (ℕ × WaitResult)
answer r = map (λ ch. (ch, r))

pub notify_waiters : ℕ → MvccStateMachine → MvccStateMachine
notify_waiters index sm = record sm {
  waiters = delete index sm.waiters;
  woken = answer nil (waiting index sm.waiters) ++ sm.woken;
}

pub displace_waiters_up_to : ℕ → MvccStateMachine → MvccStateMachine
displace_waiters_up_to up_to sm =
    let (chans, rest) = take_up_to up_to sm.waiters in
    record sm { waiters = rest; woken = answer displaced chans ++ sm.woken }

-- The versions that `gc` leaves of a key.
pub collect : ℕ → List MvccVersion → List MvccVersion
collect retention vs =
    if retention == 0
    then vs
    else if ltb retention (length vs)
    then drop (length vs - retention) vs
    else vs

-- The entry's write: a new version, at most `retention` kept.
pub write_version : RaftKvCommand → ℕ → MvccStateMachine → MvccStateMachine
unfolding collect
write_version cmd index sm = record sm {
  versions =
      insert cmd.key
        (collect sm.retention (
          versions_of cmd.key sm
          ++ record {
            version = latest_of cmd.key sm + 1;
            value = cmd.value;
            deleted = cmd.op == "del";
          }
            ∷ []))
        sm.versions;
  latest = insert cmd.key (latest_of cmd.key sm + 1) sm.latest;
  last_applied = index;
}

pub is_conflict : RaftKvCommand → MvccStateMachine → Bool
is_conflict cmd sm =
    if ltb 0 cmd.expected_version then not (latest_of cmd.key sm == cmd.expected_version) else false

abbrev change_of : RaftKvCommand → ℕ → ℕ → ℕ → ChangeEvent
change_of cmd version index now = record {
  event_type = cmd.op;
  key = cmd.key;
  value = cmd.value;
  version = version;
  offset = index;
  timestamp = now;
}

-- The result is the machine, and the change that is then published, if any.
pub apply_command : RaftKvCommand → ℕ → ℕ → MvccStateMachine → MvccStateMachine × Option ChangeEvent
unfolding is_conflict write_version notify_waiters
apply_command cmd index now sm =
    if is_conflict cmd sm
    then (
      notify_waiters index (record sm {
        conflict_results = insert index (latest_of cmd.key sm) sm.conflict_results;
      }),
      none,
    )
    else (
      notify_waiters index (write_version cmd index sm),
      some (change_of cmd (latest_of cmd.key sm + 1) index now),
    )

pub apply : Decoder → LogEntry → ℕ → MvccStateMachine → MvccStateMachine × Option ChangeEvent
apply decode e now sm = elim (decode e.payload) [
  | none ↦ (notify_waiters e.index sm, none)
  | some cmd ↦ apply_command cmd e.index now sm
]

-- `apply` with its publication; a nil ChangeLog publishes nothing, and `none` is Publish's panic.
pub apply_and_publish :
    Decoder
    → LogEntry
    → ℕ
    → MvccStateMachine
    → Option ChangeLog
    → Option (MvccStateMachine × Option ChangeLog)
apply_and_publish decode e now sm none = some ((apply decode e now sm).0, none)
apply_and_publish decode e now sm (some cl) =
    let (sm', change) = apply decode e now sm in
    elim change [
      | none ↦ some (sm', some cl)
      | some ev ↦ elim (publish ev cl) [ none ↦ none | some cl' ↦ some (sm', some cl') ]
    ]

-- `WaitForIndex` up to its wait: `true` if it returns nil at once.
pub wait_for_index : ℕ → ℕ → MvccStateMachine → MvccStateMachine × Bool
wait_for_index index ch sm =
    if leb index sm.last_applied then (sm, true) else elim (lookup index sm.conflict_results) [
      | some _ ↦ (sm, true)
      | none ↦ (record sm { waiters = register index ch sm.waiters }, false)
    ]

pub stop_waiting : ℕ → ℕ → MvccStateMachine → MvccStateMachine
stop_waiting index ch sm = record sm { waiters = unregister index ch sm.waiters }

-- The version at the time of the conflict; reading it removes it.
pub is_cas_conflict : ℕ → MvccStateMachine → MvccStateMachine × Option ℕ
is_cas_conflict index sm = elim (lookup index sm.conflict_results) [
  | none ↦ (sm, none)
  | some v ↦ (record sm { conflict_results = delete index sm.conflict_results }, some v)
]

-- The value, if it is found, and the version.
pub get : String → MvccStateMachine → Option String × ℕ
get key sm = elim (lookup key sm.latest) [
  | none ↦ (none, 0)
  | some ver ↦ elim (get_last? (versions_of key sm)) [
    | none ↦ (none, 0)
    | some v ↦ (if v.deleted then none else some v.value, ver)
  ]
]

find_version : ℕ → List MvccVersion → Option String
find_version version [] = none
find_version version (v ∷ vs) =
    if v.version == version
    then (if v.deleted then none else some v.value)
    else find_version version vs

pub get_version : String → ℕ → MvccStateMachine → Option String
unfolding find_version
get_version key version sm = find_version version (versions_of key sm)

-- What a snapshot holds of the machine, before its JSON encoding.
pub record MvccSnapshotPayload : Type 0 where
  pub versions : Map String (List MvccVersion)
  pub latest : Map String ℕ

abbrev pub snapshot_mvcc_key : String
snapshot_mvcc_key = "\0__mvcc_state__"

-- JSON encoding of the payload: `marshal` may fail, and `unmarshal` too.
pub record PayloadCodec : Type 0 where
  pub marshal : MvccSnapshotPayload → Option String
  pub unmarshal : String → Option MvccSnapshotPayload

pub take_snapshot : PayloadCodec → MvccStateMachine → Option (Map String String × ℕ)
take_snapshot codec sm =
    elim (codec.marshal (record { versions = sm.versions; latest = sm.latest })) [
      | none ↦ none
      | some b ↦ some ((snapshot_mvcc_key, b) ∷ [], sm.last_applied)
    ]

install : MvccSnapshotPayload → ℕ → MvccStateMachine → MvccStateMachine
unfolding displace_waiters_up_to
install p last_applied sm = displace_waiters_up_to last_applied (record sm {
  versions = p.versions;
  latest = p.latest;
  conflict_results = [];
  last_applied = last_applied;
})

-- The Boolean is `true` for a nil error.
pub restore_snapshot :
    PayloadCodec → Map String String → ℕ → MvccStateMachine → MvccStateMachine × Bool
unfolding install
restore_snapshot codec kv last_applied sm = elim (lookup snapshot_mvcc_key kv) [
  | none ↦ (install (record { versions = []; latest = [] }) last_applied sm, true)
  | some raw ↦ elim (codec.unmarshal raw) [
    | none ↦ (sm, false)
    | some p ↦ (install p last_applied sm, true)
  ]
]

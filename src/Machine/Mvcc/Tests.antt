-- ===== src/Machine/Mvcc/Tests.antt =====
-- A machine that keeps two versions of a key, and a conditional write to it.
use go_core_x.Prelude.{
  some, true, lookup, insert, [], ◌∷◌, refl, arith, ◌≢◌, ◌+◌, ◌≡◌, string_eq, ◌==◌, nat_eq, ltb,
  not, ◌&&◌, if◌then◌else◌,
}
use go_core_x.Machine.Command.{RaftKvCommand}
use go_core_x.Machine.Mvcc.{
  PayloadCodec, snapshot_mvcc_key, take_snapshot, restore_snapshot, write_version, MvccStateMachine,
  new_mvcc_state_machine, latest_of, apply_command, wait_for_index, get,
}
use go_core_x.Machine.Mvcc.Conflicts.{IsReported, apply_command-IsReported}
use go_core_x.Machine.Mvcc.Snapshot.{IsRestored, restore-IsRestored}
use go_core_x.Machine.Mvcc.Reads.{visible, apply_command-get}
use go_core_x.Machine.Mvcc.Invariant.{IsVersioned, new-IsVersioned, apply_command-IsVersioned}

abbrev set_x : RaftKvCommand
set_x = record { op = "set"; key = "x"; value = "1"; expected_version = 0 }

abbrev set_x_again : RaftKvCommand
set_x_again = record { op = "set"; key = "x"; value = "2"; expected_version = 1 }

abbrev written : MvccStateMachine
written = (apply_command set_x 1 10 (new_mvcc_state_machine 2)).0

apply_command-get_example : get "x" (apply_command set_x_again 2 11 written).0 ≡ (
    if ltb 0 set_x_again.expected_version
      && not (latest_of set_x_again.key written == set_x_again.expected_version)
    then get "x" written
    else if set_x_again.key == "x"
    then (visible set_x_again, latest_of "x" written + 1)
    else get "x" written)
apply_command-get_example = apply_command-get set_x_again 2 11 written "x"

apply_command-IsVersioned_example :
    IsVersioned (apply_command set_x 1 10 (new_mvcc_state_machine 2)).0
apply_command-IsVersioned_example =
    apply_command-IsVersioned set_x 1 10 (new_mvcc_state_machine 2) (new-IsVersioned 2)

abbrev set_x_late : RaftKvCommand
set_x_late = record { op = "set"; key = "x"; value = "3"; expected_version = 9 }

-- With a channel that waits for the next entry.
abbrev awaited : MvccStateMachine
awaited = (wait_for_index 2 7 written).0

late : latest_of "x" awaited ≢ 9
unfolding latest_of apply_command write_version lookup insert wait_for_index
late = λ e. ground (arith, e)

apply_command-IsReported_example :
    IsReported 2 (latest_of "x" awaited) awaited (apply_command set_x_late 2 12 awaited).0
apply_command-IsReported_example =
    apply_command-IsReported set_x_late 2 12 awaited (omega arith) late

-- An encoding that serves for the machine that is encoded.
abbrev codec_of : MvccStateMachine → PayloadCodec
codec_of sm = record {
  marshal = λ _. some "{}";
  unmarshal = λ _. some (record { versions = sm.versions; latest = sm.latest });
}

taken :
    take_snapshot (codec_of written) written
    ≡ some ((snapshot_mvcc_key, "{}") ∷ [], written.last_applied)
unfolding take_snapshot
taken = refl

restore-IsRestored_example :
    ((restore_snapshot
        (codec_of written)
        ((snapshot_mvcc_key, "{}") ∷ [])
        written.last_applied
        (new_mvcc_state_machine 0)).1
      ≡ true)
    × IsRestored written
        (new_mvcc_state_machine 0)
        (restore_snapshot
          (codec_of written)
          ((snapshot_mvcc_key, "{}") ∷ [])
          written.last_applied
          (new_mvcc_state_machine 0)).0
restore-IsRestored_example =
    restore-IsRestored (codec_of written) written (new_mvcc_state_machine 0)
      {kv = (snapshot_mvcc_key, "{}") ∷ []} {index = written.last_applied} (λ b q. refl) taken

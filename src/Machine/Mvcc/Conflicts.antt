-- ===== src/Machine/Mvcc/Conflicts.antt =====
-- mvcc_state_machine.go, `apply` and `IsCASConflict`: a conditional write whose expected version is not the latest.
use go_core_x.Prelude.{
  ℕ, true, none, some, ◌++◌, map, ◌<◌, ◌≢◌, ◌==◌, if◌then◌else◌, ◌≡◌, refl, ap, ◌∙◌, arith, Map,
  lookup, insert, delete, lookup-insert, lookup-delete, nat_eq, same_self,
}
use go_core_x.Machine.Command.{RaftKvCommand}
use go_core_x.Machine.Waiters.{waiting}
use go_core_x.Machine.Mvcc.{
  nil, MvccStateMachine, latest_of, notify_waiters, is_conflict, apply_command, is_cas_conflict,
  wait_for_index,
}
use go_core_x.Machine.Mvcc.Reads.{apply_conflict}

-- The conflict at an index is known to the next caller and to no other, and changes no data.
pub record IsReported (index version : ℕ) (sm sm' : MvccStateMachine) : Type 0 where
  pub versions : sm'.versions ≡ sm.versions
  pub latest : sm'.latest ≡ sm.latest
  pub last_applied : sm'.last_applied ≡ sm.last_applied
  pub answered : sm'.woken ≡ map (λ ch. (ch, nil)) (waiting index sm.waiters) ++ sm.woken
  pub waiters : (j : ℕ) → lookup j sm'.waiters ≡ (if index == j then none else lookup j sm.waiters)
  pub at_once : (ch : ℕ) → (wait_for_index index ch sm').1 ≡ true
  pub once : (is_cas_conflict index sm').1 ≡ some version
  pub not_again : (is_cas_conflict index (is_cas_conflict index sm').0).1 ≡ none

lookup-same : {V : Type 0} → (i : ℕ) (v : V) (m : Map ℕ V) → lookup i (insert i v m) ≡ some v
lookup-same i v m = rw (lookup-insert i i v m, same_self i) refl

lookup-gone : {V : Type 0} → (i : ℕ) (m : Map ℕ V) → lookup i (delete i m) ≡ none
lookup-gone i m = rw (lookup-delete i i m, same_self i) refl

gone :
    (index : ℕ) (sm : MvccStateMachine)
    → (is_cas_conflict index (record sm { conflict_results = delete index sm.conflict_results })).1
      ≡ none
unfolding is_cas_conflict
gone index sm = rw (is_cas_conflict, lookup-gone index sm.conflict_results) refl

read_once :
    (index version : ℕ) (sm : MvccStateMachine)
    → lookup index sm.conflict_results ≡ some version
    → (is_cas_conflict index (is_cas_conflict index sm).0).1 ≡ none
unfolding is_cas_conflict
read_once index version sm known =
    let e : (is_cas_conflict index sm).0
        ≡ record sm { conflict_results = delete index sm.conflict_results } =
      rw (is_cas_conflict, known) refl in
    ap (λ m. (is_cas_conflict index m).1) e ∙ gone index sm

conflicting :
    (cmd : RaftKvCommand) (sm : MvccStateMachine)
    → 0 < cmd.expected_version
    → latest_of cmd.key sm ≢ cmd.expected_version
    → is_conflict cmd sm ≡ true
unfolding is_conflict
conflicting cmd sm p q = ground (arith, p, q)

recorded :
    (index version : ℕ) (sm : MvccStateMachine)
    → IsReported index version sm (
        notify_waiters index
          (record sm { conflict_results = insert index version sm.conflict_results }))
unfolding notify_waiters is_cas_conflict wait_for_index
recorded index version sm =
    let known = lookup-same index version sm.conflict_results in
    record {
      versions = refl;
      latest = refl;
      last_applied = refl;
      answered = refl;
      waiters = λ j. lookup-delete j index sm.waiters;
      at_once = λ ch. ground (arith, known);
      once = rw (is_cas_conflict, known) refl;
      not_again = read_once index version _ known;
    }

-- The entry of a write that expects a version, but not the latest one, leaves the data and the last
-- applied index alone. Every channel that waits for its index, and no other, is sent nil and
-- forgotten, and who asks later is answered at once. The latest version is reported for the index to
-- the first caller that asks, and to no second one.
pub apply_command-IsReported :
    (cmd : RaftKvCommand) (index now : ℕ) (sm : MvccStateMachine)
    → 0 < cmd.expected_version
    → latest_of cmd.key sm ≢ cmd.expected_version
    → IsReported index (latest_of cmd.key sm) sm (apply_command cmd index now sm).0
apply_command-IsReported cmd index now sm p q =
    rw (apply_conflict cmd index now sm (conflicting cmd sm p q))
      (recorded index (latest_of cmd.key sm) sm)

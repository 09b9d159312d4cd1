-- ===== src/Machine/Kv/Outcome.antt =====
-- kv_state_machine.go, `apply`: what becomes of an entry, and of one whose durable write fails.
use go_core_x.Prelude.{
  ℕ, true, false, none, some, ◌++◌, ◌≡◌, refl, lookup, lookup-delete, nat_eq, ◌==◌, Bool-cases, inl,
  inr, ◌⊎◌, if◌then◌else◌,
}
use go_core_x.Raft.Types.{LogEntry}
use go_core_x.Machine.Command.{RaftKvCommand, Decoder}
use go_core_x.Machine.Waiters.{waiting}
use go_core_x.Machine.Kv.{KvStateMachine, durable_write, update_cache, apply_command, apply}

-- A write that the store takes: the index and the cache move on, and the waiters for the index, and
-- no others, are told and forgotten.
pub record IsApplied (cmd : RaftKvCommand) (index : ℕ) (sm sm' : KvStateMachine) : Type 1 where
  pub store : sm'.store ≡ (durable_write cmd index sm.store).0
  pub last_applied : sm'.last_applied ≡ index
  pub kv : sm'.kv ≡ update_cache cmd sm.kv
  pub closed : sm'.closed ≡ waiting index sm.waiters ++ sm.closed
  pub waiters : (j : ℕ) → lookup j sm'.waiters ≡ (if index == j then none else lookup j sm.waiters)

-- A write that the store refuses: only the store has changed.
pub record IsHeldBack (cmd : RaftKvCommand) (index : ℕ) (sm sm' : KvStateMachine) : Type 1 where
  pub store : sm'.store ≡ (durable_write cmd index sm.store).0
  pub last_applied : sm'.last_applied ≡ sm.last_applied
  pub kv : sm'.kv ≡ sm.kv
  pub closed : sm'.closed ≡ sm.closed
  pub waiters : sm'.waiters ≡ sm.waiters

-- A well-formed entry is applied exactly when its durable write succeeds. Otherwise nothing but the
-- store changes: the last applied index does not move, and no waiter is told.
pub apply_outcome :
    (decode : Decoder) (e : LogEntry) (cmd : RaftKvCommand) (sm : KvStateMachine)
    → decode e.payload ≡ some cmd
    → ((durable_write cmd e.index sm.store).1 ≡ true) × IsApplied cmd e.index sm (apply decode e sm)
      ⊎ ((durable_write cmd e.index sm.store).1 ≡ false)
        × IsHeldBack cmd e.index sm (apply decode e sm)
unfolding apply apply_command
apply_outcome decode e cmd sm q =
    rw (q, apply)
      (elim (Bool-cases (durable_write cmd e.index sm.store).1) [
        | inl ok ↦ inl (
          ok,
          rw (ok, apply_command)
              (record {
                store = refl;
                last_applied = refl;
                kv = refl;
                closed = refl;
                waiters = λ j. lookup-delete j e.index sm.waiters;
              }),
        )
        | inr failed ↦ inr (
          failed,
          rw (failed, apply_command)
              (record {
                store = refl;
                last_applied = refl;
                kv = refl;
                closed = refl;
                waiters = refl;
              }),
        )
      ])

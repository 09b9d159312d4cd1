-- ===== src/Machine/Kv/Snapshot.antt =====
-- kv_state_machine.go, `TakeSnapshot` and `RestoreSnapshot` together.
use go_core_x.Prelude.{ℕ, String, none, ◌≡◌, refl, lookup, leb, string_eq, nat_eq, if◌then◌else◌}
use go_core_x.Machine.Waiters.{take_up_to-left}
use go_core_x.Machine.Kv.{KvStateMachine, get, take_snapshot, restore_snapshot}

-- A machine restored from another's snapshot answers every read as that one, has its last applied
-- index, and keeps of its own waiters those for later indices.
pub restore-take :
    (sm other : KvStateMachine)
    → let (kv, index) = take_snapshot sm in
      let sm' = restore_snapshot kv index other in
      ((key : String) → get key sm' ≡ get key sm)
      × (sm'.last_applied ≡ sm.last_applied)
      × (sm'.store ≡ other.store)
      × ((j : ℕ)
          → lookup j sm'.waiters ≡ (if leb j sm.last_applied then none else lookup j other.waiters))
unfolding take_snapshot restore_snapshot get
restore-take sm other =
    (λ key. refl, refl, refl, λ j. take_up_to-left sm.last_applied j other.waiters)

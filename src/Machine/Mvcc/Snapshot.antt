-- ===== src/Machine/Mvcc/Snapshot.antt =====
-- mvcc_state_machine.go, `TakeSnapshot` and `RestoreSnapshot` together.
use go_core_x.Prelude.{
  ℕ, String, true, none, some, [], ◌∷◌, ◌≡◌, refl, arith, Map, lookup, leb, nat_eq, string_eq,
  if◌then◌else◌, Option-cases, inl, inr,
}
use go_core_x.Machine.Waiters.{take_up_to-left}
use go_core_x.Machine.Mvcc.{
  MvccStateMachine, MvccSnapshotPayload, PayloadCodec, displace_waiters_up_to, versions_of,
  snapshot_mvcc_key, take_snapshot, install, restore_snapshot, get, get_version, is_cas_conflict,
}
use go_core_x.Machine.Mvcc.Reads.{get-same}

-- What one machine shows of another.
pub record IsRestored (sm other sm' : MvccStateMachine) : Type 0 where
  pub reads : (key : String) → get key sm' ≡ get key sm
  pub reads_version : (key : String) (v : ℕ) → get_version key v sm' ≡ get_version key v sm
  pub last_applied : sm'.last_applied ≡ sm.last_applied
  pub retention : sm'.retention ≡ other.retention
  pub no_conflicts : (i : ℕ) → (is_cas_conflict i sm').1 ≡ none
  pub waiters :
      (j : ℕ)
      → lookup j sm'.waiters ≡ (if leb j sm.last_applied then none else lookup j other.waiters)

installed :
    (sm other : MvccStateMachine)
    → IsRestored sm other
        (install (record { versions = sm.versions; latest = sm.latest }) sm.last_applied other)
unfolding install displace_waiters_up_to get_version versions_of is_cas_conflict lookup
installed sm other = record {
  reads = λ key. get-same key sm _ refl refl;
  reads_version = λ key v. refl;
  last_applied = refl;
  retention = refl;
  no_conflicts = λ i. refl;
  waiters = λ j. take_up_to-left sm.last_applied j other.waiters;
}

restore_one :
    (codec : PayloadCodec) (b : String) (p : MvccSnapshotPayload) (index : ℕ)
    (sm : MvccStateMachine)
    → codec.unmarshal b ≡ some p
    → restore_snapshot codec ((snapshot_mvcc_key, b) ∷ []) index sm ≡ (install p index sm, true)
unfolding restore_snapshot lookup
restore_one codec b p index sm u = rw (restore_snapshot, u) refl

-- If the encoding of a machine's payload is decoded to the same payload, then another machine that
-- is given its snapshot answers every read as it, at every version, has its last applied index,
-- remembers no conflict and keeps of its own waiters those for later indices.
pub restore-IsRestored :
    (codec : PayloadCodec) (sm other : MvccStateMachine) {kv : Map String String} {index : ℕ}
    → ((b : String)
        → codec.marshal (record { versions = sm.versions; latest = sm.latest }) ≡ some b
        → codec.unmarshal b ≡ some (record { versions = sm.versions; latest = sm.latest }))
    → take_snapshot codec sm ≡ some (kv, index)
    → ((restore_snapshot codec kv index other).1 ≡ true)
      × IsRestored sm other (restore_snapshot codec kv index other).0
unfolding take_snapshot
restore-IsRestored codec sm other {kv} {index} inverse h =
    elim (Option-cases (codec.marshal (record { versions = sm.versions; latest = sm.latest }))) [
      | inl q ↦ absurd (ground (arith, h, q))
      | inr (b, q) ↦
          let k : kv ≡ (snapshot_mvcc_key, b) ∷ [] = ground (arith, h, q) in
          let i : index ≡ sm.last_applied = ground (arith, h, q) in
          rw (k, i, restore_one codec b _ sm.last_applied other (inverse b q))
            (refl, installed sm other)
    ]

-- ===== src/Machine/Mvcc/Invariant.antt =====
-- mvcc_state_machine.go, `apply` and `gc`: INV-MV1 and the retention bound.
use go_core_x.Prelude.{
  ℕ, zero, suc, ◌+◌, ◌-◌, ◌≤◌, ◌<◌, String, Bool, true, false, none, some, List, [], ◌∷◌, ◌++◌, ◌≡◌,
  ◌≢◌, refl, sym, ap, arith, eq_iff, lookup, length, length-drop, drop, ltb, ◌==◌, nat_eq,
  string_eq, if◌then◌else◌, Bool-cases, inl, inr,
}
use go_core_x.Machine.Command.{RaftKvCommand}
use go_core_x.Machine.Mvcc.{
  MvccVersion, MvccStateMachine, new_mvcc_state_machine, versions_of, latest_of, notify_waiters,
  collect, write_version, is_conflict, apply_command,
}
use go_core_x.Machine.Mvcc.Reads.{lookup-own, lookup-other}

-- The versions rise by one, and the last is `n`; only version 0 has none.
abbrev pub runs_to : List MvccVersion → ℕ → Bool
runs_to [] n = n == 0
runs_to (v ∷ []) n = v.version == n
runs_to (v ∷ w ∷ vs) n = if v.version + 1 == w.version then runs_to (w ∷ vs) n else false

-- The versions kept of a key are the last ones, as many as the retention allows at most, where it is
-- not 0.
pub record IsKept (retention : ℕ) (vs : List MvccVersion) (latest : ℕ) : Type 0 where
  pub runs : runs_to vs latest ≡ true
  pub bound : retention ≢ 0 → length vs ≤ retention

pub IsVersioned : MvccStateMachine → Type 0
IsVersioned sm = (key : String) → IsKept sm.retention (versions_of key sm) (latest_of key sm)

pub new-IsVersioned : (retention : ℕ) → IsVersioned (new_mvcc_state_machine retention)
unfolding IsVersioned versions_of latest_of lookup
new-IsVersioned retention key = record { runs = refl; bound = λ ne. omega arith }

runs_to-append :
    (vs : List MvccVersion) (n : ℕ) (v : MvccVersion)
    → runs_to vs n ≡ true
    → v.version ≡ n + 1
    → runs_to (vs ++ v ∷ []) (n + 1) ≡ true
runs_to-append [] n v h e = ground (arith, h, e)
runs_to-append (u ∷ []) n v h e = ground (arith, h, e)
runs_to-append (u ∷ w ∷ vs) n v h e = ground (arith, h, e, runs_to-append (w ∷ vs) n v)

runs_to-drop :
    (k : ℕ) (vs : List MvccVersion) (n : ℕ)
    → k < length vs
    → runs_to vs n ≡ true
    → runs_to (drop k vs) n ≡ true
runs_to-drop zero vs n l h = h
runs_to-drop (suc k) [] n l h = absurd (omega arith)
runs_to-drop (suc zero) (v ∷ []) n l h = absurd (omega arith)
runs_to-drop (suc (suc k)) (v ∷ []) n l h = absurd (omega arith)
runs_to-drop (suc k) (v ∷ w ∷ vs) n l h =
    runs_to-drop k (w ∷ vs) n (omega arith) (ground (arith, h))

-- Collecting the versions of a key that are in a row leaves them so, and within the bound.
collect-IsKept :
    (retention : ℕ) (vs : List MvccVersion) (n : ℕ)
    → runs_to vs n ≡ true
    → IsKept retention (collect retention vs) n
unfolding collect
collect-IsKept retention vs n h = elim (Bool-cases (retention == 0)) [
  | inl q ↦ rw (collect, q) (record { runs = h; bound = λ ne. absurd (ground (arith, q, ne)) })
  | inr q ↦ elim (Bool-cases (ltb retention (length vs))) [
    | inl p ↦
        rw (collect, q, p)
          (record {
            runs = runs_to-drop (length vs - retention) vs n (ground (arith, p, q)) h;
            bound = λ ne. ground (arith, p, length-drop (length vs - retention) vs);
          })
    | inr p ↦ rw (collect, q, p) (record { runs = h; bound = λ ne. ground (arith, p) })
  ]
]

new_versions : RaftKvCommand → MvccStateMachine → List MvccVersion
new_versions cmd sm =
    versions_of cmd.key sm
    ++ record { version = latest_of cmd.key sm + 1; value = cmd.value; deleted = cmd.op == "del" }
      ∷ []

versions_own :
    (cmd : RaftKvCommand) (index : ℕ) (sm : MvccStateMachine)
    → versions_of cmd.key (write_version cmd index sm) ≡ collect sm.retention (new_versions cmd sm)
unfolding versions_of write_version new_versions
versions_own cmd index sm = rw (versions_of, lookup-own cmd.key) refl

latest_own :
    (cmd : RaftKvCommand) (index : ℕ) (sm : MvccStateMachine)
    → latest_of cmd.key (write_version cmd index sm) ≡ latest_of cmd.key sm + 1
unfolding latest_of write_version
latest_own cmd index sm = rw (latest_of, lookup-own cmd.key) refl

versions_other :
    (cmd : RaftKvCommand) (index : ℕ) (sm : MvccStateMachine) (key : String)
    → (cmd.key == key) ≡ false
    → versions_of key (write_version cmd index sm) ≡ versions_of key sm
unfolding versions_of write_version
versions_other cmd index sm key ne =
    ap (λ o. elim o as (λ _. List MvccVersion) [ none ↦ [] | some vs ↦ vs ])
      (lookup-other cmd.key key _ sm.versions ne)

latest_other :
    (cmd : RaftKvCommand) (index : ℕ) (sm : MvccStateMachine) (key : String)
    → (cmd.key == key) ≡ false
    → latest_of key (write_version cmd index sm) ≡ latest_of key sm
unfolding latest_of write_version
latest_other cmd index sm key ne =
    ap (λ o. elim o as (λ _. ℕ) [ none ↦ 0 | some v ↦ v ]) (lookup-other cmd.key key _ sm.latest ne)

write_own :
    (cmd : RaftKvCommand) (index : ℕ) (sm : MvccStateMachine)
    → IsKept sm.retention (versions_of cmd.key sm) (latest_of cmd.key sm)
    → IsKept sm.retention
        (versions_of cmd.key (write_version cmd index sm))
        (latest_of cmd.key (write_version cmd index sm))
unfolding new_versions
write_own cmd index sm h =
    rw (versions_own cmd index sm, latest_own cmd index sm)
      (collect-IsKept sm.retention (new_versions cmd sm) (latest_of cmd.key sm + 1)
        (runs_to-append (versions_of cmd.key sm) (latest_of cmd.key sm) _ h.runs refl))

write_version-IsVersioned :
    (cmd : RaftKvCommand) (index : ℕ) (sm : MvccStateMachine)
    → IsVersioned sm
    → IsVersioned (write_version cmd index sm)
unfolding IsVersioned write_version
write_version-IsVersioned cmd index sm h key = elim (Bool-cases (cmd.key == key)) [
  | inl q ↦ rw (sym ((eq_iff cmd.key key).0 q)) (write_own cmd index sm (h cmd.key))
  | inr q ↦ rw (versions_other cmd index sm key q, latest_other cmd index sm key q) (h key)
]

-- The entry of a client, whether it is a conflict or not, keeps the invariant: each key's versions
-- rise by one up to its latest, and at most as many are kept as the retention allows.
pub apply_command-IsVersioned :
    (cmd : RaftKvCommand) (index now : ℕ) (sm : MvccStateMachine)
    → IsVersioned sm
    → IsVersioned (apply_command cmd index now sm).0
unfolding IsVersioned apply_command notify_waiters versions_of latest_of
apply_command-IsVersioned cmd index now sm h = elim (Bool-cases (is_conflict cmd sm)) [
  | inl q ↦ rw (apply_command, q) h
  | inr q ↦ rw (apply_command, q) (write_version-IsVersioned cmd index sm h)
]

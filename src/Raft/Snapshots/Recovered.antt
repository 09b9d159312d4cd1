-- ===== src/Raft/Snapshots/Recovered.antt =====
-- node.go, `recoverFromSnapshot`: a node that starts from its newest snapshot.
use go_core_x.Prelude.{
  ℕ, suc, ◌+◌, ◌≤◌, ◌<◌, ◌≡◌, refl, ap, ◌∙◌, arith, true, false, Bool-cases, inl, inr, none, some,
  List, [], ◌∷◌, ltb, leb, select, nat_eq, same_self, if◌then◌else◌,
}
use go_core_x.Raft.Types.{LogEntry}
use go_core_x.Raft.Config.{is_zero}
use go_core_x.Raft.SnapshotFile.{Decoded}
use go_core_x.Raft.Stores.{SnapshotStore, drop_through}
use go_core_x.Raft.Node.{Externals, RaftNode, entry_at}
use go_core_x.Raft.Node.Log.{
  IsConsecutive, IsWellFormed, drop_through-IsConsecutive, find_back-drop_through,
}
use go_core_x.Raft.Snapshots.{
  Machine, SnapshotExternals, SnapshotConfig, newest, with_index, load_latest, restore_config,
  recover_from_snapshot,
}

select_above :
    (up_to i : ℕ) (es : List LogEntry)
    → IsConsecutive i es
    → up_to < i
    → select (λ y. ltb up_to y.index) es ≡ es
select_above up_to i [] c h = refl
select_above up_to i (e ∷ es) c h =
    let keep : ltb up_to e.index ≡ true = ground (arith, c.0) in
    rw keep (ap (λ l. e ∷ l) (select_above up_to (suc i) es c.1 (omega arith)))

select-consecutive :
    (up_to i : ℕ) (es : List LogEntry)
    → IsConsecutive i es
    → select (λ y. ltb up_to y.index) es ≡ drop_through up_to es
unfolding drop_through
select-consecutive up_to i [] c = refl
select-consecutive up_to i (e ∷ es) c = elim (Bool-cases (leb e.index up_to)) [
  | inl out ↦
      let skip : ltb up_to e.index ≡ false = ground (arith, out) in
      rw (skip, out) (select-consecutive up_to (suc i) es c.1)
  | inr above ↦
      let keep : ltb up_to e.index ≡ true = ground (arith, above) in
      rw (keep, above)
        (ap (λ l. e ∷ l) (select_above up_to (suc i) es c.1 (ground (arith, above, c.0))))
]

-- The node stands where the snapshot does; of its log it has what comes behind.
pub record StandsAt (d : Decoded) (n n' : RaftNode) : Type 0 where
  pub well_formed : IsWellFormed n'
  pub snapshot_index : n'.snapshot_index ≡ d.index
  pub snapshot_term : n'.snapshot_term ≡ d.term
  pub config :
      n'.cluster_config ≡ (if is_zero d.content.config then n.cluster_config else d.content.config)
  pub entries : (j : ℕ) → entry_at n' j ≡ (if leb j d.index then none else entry_at n j)

abbrev shortened : SnapshotStore → Decoded → RaftNode → RaftNode
shortened st d n = record n {
  snapshot_store = some st;
  log = select (λ y. ltb d.index y.index) n.log;
  snapshot_index = d.index;
  snapshot_term = d.term;
}

module _ (d : Decoded) (i : ℕ) (n : RaftNode) (c : IsConsecutive i n.log)
    (h : i ≤ suc d.index) where
  shortened-entries :
      (st : SnapshotStore) (j : ℕ)
      → entry_at (shortened st d n) j ≡ (if leb j d.index then none else entry_at n j)
  unfolding entry_at
  shortened-entries st j =
      rw (entry_at, select-consecutive d.index i n.log c)
        (ground (arith, find_back-drop_through i d.index j n.log c))

  shortened-IsConsecutive :
      (st : SnapshotStore) → IsConsecutive (suc d.index) (shortened st d n).log
  shortened-IsConsecutive st =
      rw (select-consecutive d.index i n.log c) (drop_through-IsConsecutive i d.index n.log c h)

  restore_config-StandsAt :
      (x : Externals) (st : SnapshotStore)
      → StandsAt d n (restore_config x d.content.config (shortened st d n))
  unfolding restore_config entry_at
  restore_config-StandsAt x st = elim (Bool-cases (is_zero d.content.config)) [
    | inl none_given ↦
        rw (restore_config, none_given)
          (record {
            well_formed = record { consecutive = shortened-IsConsecutive st };
            snapshot_index = refl;
            snapshot_term = refl;
            config = rw none_given refl;
            entries = shortened-entries st;
          })
    | inr given ↦
        rw (restore_config, given)
          (record {
            well_formed = record { consecutive = shortened-IsConsecutive st };
            snapshot_index = refl;
            snapshot_term = refl;
            config = rw given refl;
            entries = shortened-entries st;
          })
  ]

load_latest-newest :
    (st : SnapshotStore) (d : Decoded) (others : List Decoded)
    → st.snapshots ≡ d ∷ others
    → st.fails st.calls ≡ false
    → st.fails (st.calls + 1) ≡ false
    → load_latest st ≡ (record st { calls = st.calls + 2 }, some d)
unfolding load_latest
load_latest-newest st d others only latest loads =
    let first : newest st.snapshots ≡ some d = ap newest only in
    let found : with_index d.index st.snapshots ≡ some d =
      ap (with_index d.index) only ∙ (rw (same_self d.index) refl) in
    rw (load_latest, latest, first, loads, found) refl

module _ {S : Type 0} (m : Machine S) (x : Externals) (e : SnapshotExternals)
    (cfg : SnapshotConfig) where
  -- A node starts with a log of consecutive indices that leaves no gap behind its newest snapshot, the store can be
  -- read, and the machine can be restored: the index of that snapshot is returned, the machine is restored from it,
  -- and the node stands there, with a well-formed log of exactly the entries behind it. If the snapshot has a
  -- configuration, that one is in force, whatever config entries stand behind it in the log, which the node had
  -- adopted when it loaded them.
  pub recover_from_snapshot-StandsAt :
      (st : SnapshotStore) (d : Decoded) (others : List Decoded) (s s' : S) (n : RaftNode) (i : ℕ)
      → st.snapshots ≡ d ∷ others
      → st.fails st.calls ≡ false
      → st.fails (st.calls + 1) ≡ false
      → m.restore_snapshot d.content d.index s ≡ (s', true)
      → IsConsecutive i n.log
      → i ≤ suc d.index
      → let r = recover_from_snapshot m x e cfg st s n in
        (r.2 ≡ d.index) × (r.1 ≡ s') × StandsAt d n r.0
  unfolding recover_from_snapshot
  recover_from_snapshot-StandsAt st d others s s' n i only latest loads restored c h =
      rw (recover_from_snapshot, load_latest-newest st d others only latest loads, restored)
        (refl, refl, restore_config-StandsAt d i n c h x (load_latest st).0)

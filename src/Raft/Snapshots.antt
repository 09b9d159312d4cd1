-- ===== src/Raft/Snapshots.antt =====
-- Taking, installing and recovering a snapshot: node.go, `maybeSnapshot`, `HandleInstallSnapshot` and
-- `recoverFromSnapshot`, with the store of snapshot_store.go. A store is the list of its snapshots,
-- newest first; of two with one index the order is not meaningful. `fails` says which of its calls
-- fail. The handler releases its lock between its parts; here no other step comes between them.
pub mod Safe
pub mod Stream
pub mod Recovered
pub mod Tests
use go_core_x.Prelude.{
  ℕ, ◌+◌, ◌-◌, String, Bool, true, false, not, ◌&&◌, ◌||◌, Option, none, some, List, [], ◌∷◌, ◌++◌,
  ltb, leb, select, ◌==◌, nat_eq, if◌then◌else◌, Map,
}
use go_core_x.Bytes.{Bytes, take}
use go_core_x.Raft.Types.{LogEntry, follower, ClusterConfig, InstallSnapshotArgs}
use go_core_x.Raft.Config.{is_zero, all_peers}
use go_core_x.Raft.SnapshotFile.{SnapshotData, Decoded, decode_snapshot}
use go_core_x.Raft.Stores.{SnapshotStore, save_meta, store_compact_prefix}
use go_core_x.Raft.Node.{Externals, RaftNode, entry_at, truncate_log_prefix}
use go_core_x.Raft.Membership.{ensure_connected}

-- Snapshotable, with `LastApplied`: `false` and `none` stand for an error.
pub record Machine (S : Type 0) : Type 0 where
  pub last_applied : S → ℕ
  pub take_snapshot : S → Option (SnapshotData × ℕ)
  pub restore_snapshot : SnapshotData → ℕ → S → S × Bool

-- What else the handlers take from outside the package.
pub record SnapshotExternals : Type 0 where
  pub crc : Bytes → ℕ
  pub unmarshal_config : Bytes → ClusterConfig

pub record SnapshotConfig : Type 0 where
  pub threshold : ℕ
  pub retain_count : ℕ

-- The file that is written again is replaced.
abbrev pub is_file : Decoded → Decoded → Bool
is_file a b = a.index == b.index && a.term == b.term

pub file_snapshot : Decoded → List Decoded → List Decoded
file_snapshot s [] = s ∷ []
file_snapshot s (x ∷ xs) =
    let rest = file_snapshot s xs in if leb x.index s.index then s ∷ x ∷ xs else x ∷ rest

-- `Save`: `true` for a nil error.
unfoldable pub save_snapshot : Decoded → SnapshotStore → SnapshotStore × Bool
unfolding file_snapshot
save_snapshot s st =
    let others = select (λ x. not (is_file x s)) st.snapshots in
    if st.fails st.calls
    then (record st { calls = st.calls + 1 }, false)
    else (record st { snapshots = file_snapshot s others; calls = st.calls + 1 }, true)

abbrev pub take_first : ℕ → List Decoded → List Decoded
take_first ℕ.zero xs = []
take_first (ℕ.suc n) [] = []
take_first (ℕ.suc n) (x ∷ xs) = x ∷ take_first n xs

-- `Prune`
unfoldable pub prune : ℕ → SnapshotStore → SnapshotStore
prune retain st = record st {
  snapshots = take_first (if ltb retain 1 then 1 else retain) st.snapshots;
}

abbrev pub with_index : ℕ → List Decoded → Option Decoded
with_index index [] = none
with_index index (x ∷ xs) =
    let rest = with_index index xs in if x.index == index then some x else rest

abbrev pub newest : List Decoded → Option Decoded
newest [] = none
newest (x ∷ xs) = some x

-- `Latest` and `Load` of its index: `none` where either fails or there is none.
unfoldable pub load_latest : SnapshotStore → SnapshotStore × Option Decoded
load_latest st =
    let after = record st { calls = st.calls + 2 } in
    if st.fails st.calls
    then (record st { calls = st.calls + 1 }, none)
    else elim (newest st.snapshots) [
      | none ↦ (record st { calls = st.calls + 1 }, none)
      | some m ↦ (after, if st.fails (st.calls + 1) then none else with_index m.index st.snapshots)
    ]

abbrev pub retained : SnapshotConfig → ℕ
retained cfg = if ltb cfg.retain_count 1 then 2 else cfg.retain_count

-- The saving of a snapshot with the pruning behind it, which both callers do.
abbrev pub save_and_prune :
    SnapshotConfig → Decoded → Option SnapshotStore → Option SnapshotStore × Bool
save_and_prune cfg s none = (none, false)
save_and_prune cfg s (some st) =
    let (st', good) = save_snapshot s st in
    (some (if good then prune (retained cfg) st' else st'), good)

-- The first part of `HandleInstallSnapshot`, for a term that is not old.
unfoldable pub follow_snapshot : InstallSnapshotArgs → RaftNode → RaftNode
follow_snapshot args n =
    let raised =
      if ltb n.current_term args.term
      then record n {
        current_term = args.term;
        voted_for = "";
        meta = (save_meta n.meta (record { term = args.term; voted_for = "" })).0;
      }
      else n in
    record raised { role = follower; lease_expiry = 0; leader_id = args.leader_id; reset_ch = true }

-- The buffer with one more chunk.
abbrev pub add_chunk : InstallSnapshotArgs → Bytes → Bytes
add_chunk args buf = (if args.offset == 0 then [] else buf) ++ args.chunk

abbrev pub max_of : ℕ → ℕ → ℕ
max_of a b = if ltb a b then b else a

-- `n.clusterConfig` and the connections, from a snapshot that has a configuration.
unfoldable pub restore_config : Externals → ClusterConfig → RaftNode → RaftNode
restore_config x c n = if is_zero c then n else record n {
  cluster_config = c;
  peers = elim n.peers [ none ↦ none | some cs ↦ some (ensure_connected x.dial cs (all_peers c)) ];
}

-- The log is dropped, and the node stands where the snapshot does.
unfoldable pub install_state : Externals → Decoded → RaftNode → RaftNode
unfolding restore_config
install_state x d n = restore_config x d.content.config (record n {
  log = [];
  snapshot_index = d.index;
  snapshot_term = d.term;
  commit_index = max_of n.commit_index d.index;
  last_applied = max_of n.last_applied d.index;
})

-- The node with its state machine and the buffer for chunks.
pub record Installing (S : Type 0) : Type 0 where
  pub node : RaftNode
  pub machine : Option S
  pub buffer : Bytes

module _ {S : Type 0} (m : Machine S) (x : Externals) (e : SnapshotExternals)
    (cfg : SnapshotConfig) where
  -- Whether the entry is there and has been applied.
  unfoldable pub is_covered : Decoded → RaftNode → Option S → Bool
  is_covered d n none = false
  is_covered d n (some s) = elim (entry_at n d.index) [
    | none ↦ false
    | some entry ↦ entry.term == d.term && leb d.index (m.last_applied s)
  ]

  abbrev pub restore : Decoded → Option S → Option S × Bool
  restore d none = (none, true)
  restore d (some s) = let (s', good) = m.restore_snapshot d.content d.index s in (some s', good)

  -- The end of the handler, where the snapshot has been decoded.
  unfoldable pub apply_snapshot : Decoded → Installing S → Installing S
  unfolding is_covered install_state
  apply_snapshot d t =
      let (machine, good) = restore d t.machine in
      let installed = install_state x d t.node in
      if is_covered d t.node t.machine
      then record t { node = truncate_log_prefix t.node d.index d.term }
      else if good
      then record t {
        machine = machine;
        node = record installed {
          snapshot_store = (save_and_prune cfg d installed.snapshot_store).0;
        };
      }
      else record t { machine = machine }

  abbrev pub announced : InstallSnapshotArgs → Decoded → Bool
  announced args d = d.index == args.last_included_index && d.term == args.last_included_term

  -- The part behind the last chunk.
  unfoldable pub finish_install : InstallSnapshotArgs → Bytes → Installing S → Installing S
  unfolding apply_snapshot
  finish_install args bytes t = elim (decode_snapshot e.crc e.unmarshal_config bytes) [
    | none ↦ t
    | some d ↦ if announced args d then apply_snapshot d t else t
  ]

  -- `HandleInstallSnapshot`: the state and the term of the answer.
  unfoldable pub handle_install_snapshot : InstallSnapshotArgs → Installing S → Installing S × ℕ
  unfolding follow_snapshot finish_install
  handle_install_snapshot args t =
      let node = follow_snapshot args t.node in
      let bytes = add_chunk args t.buffer in
      if ltb args.term t.node.current_term
      then (t, t.node.current_term)
      else if args.done
      then (finish_install args bytes (record t { node = node; buffer = [] }), node.current_term)
      else (record t { node = node; buffer = bytes }, node.current_term)

  -- `recoverFromSnapshot`: the node, the machine and the index that is returned.
  abbrev pub recover_to : RaftNode → Decoded → S × Bool → RaftNode × S × ℕ
  recover_to n d (s, false) = (n, s, 0)
  recover_to n d (s, true) = (
    restore_config x d.content.config (record n {
      log = select (λ y. ltb d.index y.index) n.log;
      snapshot_index = d.index;
      snapshot_term = d.term;
    }),
    s,
    d.index,
  )

  unfoldable pub recover_from_snapshot : SnapshotStore → S → RaftNode → RaftNode × S × ℕ
  unfolding load_latest restore_config
  recover_from_snapshot st s n =
      let (st', found) = load_latest st in
      let n' = record n { snapshot_store = some st' } in
      elim found [
        | none ↦ (n', s, 0)
        | some d ↦ recover_to n' d (m.restore_snapshot d.content d.index s)
      ]

abbrev captured : RaftNode → SnapshotData → ℕ → ℕ → Decoded
captured n content index term = record {
  index = index;
  term = term;
  content = record content { config = n.cluster_config };
}

-- The part of `maybeSnapshot` under the lock: the snapshot that is to be saved.
unfoldable pub capture : SnapshotConfig → RaftNode → SnapshotData × ℕ → Option Decoded
capture cfg n (content, index) =
    if index == 0
    then none
    else if ltb index (n.snapshot_index + cfg.threshold)
    then none
    else elim (entry_at n index) [
      | some entry ↦ some (captured n content index entry.term)
      | none ↦
          if index == n.snapshot_index
          then some (captured n content index n.snapshot_term)
          else none
    ]

abbrev pub is_given {ℓ} : {A : Type ℓ} → Option A → Bool
is_given none = false
is_given (some a) = true

abbrev capture_from : SnapshotConfig → RaftNode → Option (SnapshotData × ℕ) → Bool × Option Decoded
capture_from cfg n none = (false, none)
capture_from cfg n (some c) = let d = capture cfg n c in (is_given d, d)

-- `maybeSnapshot` up to the goroutine: whether a snapshot is then in progress, and which one is to
-- be saved.
unfoldable pub maybe_snapshot :
    {S : Type 0} → Machine S → SnapshotConfig → Bool → Option S → RaftNode → Bool × Option Decoded
unfolding capture
maybe_snapshot m cfg in_progress none n = (in_progress, none)
maybe_snapshot m cfg in_progress (some s) n =
    if cfg.threshold == 0 || not (is_given n.snapshot_store)
    then (in_progress, none)
    else if in_progress
    then (true, none)
    else capture_from cfg n (m.take_snapshot s)

-- The part in a goroutine.
unfoldable pub finish_snapshot : SnapshotConfig → Decoded → RaftNode → RaftNode
finish_snapshot cfg d n =
    let (store, good) = save_and_prune cfg d n.snapshot_store in
    if good
    then record (truncate_log_prefix n d.index d.term) {
      snapshot_store = store;
      log_store = (store_compact_prefix d.index n.log_store).0;
    }
    else record n { snapshot_store = store }

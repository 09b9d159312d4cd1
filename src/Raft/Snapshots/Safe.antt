-- ===== src/Raft/Snapshots/Safe.antt =====
-- node.go, `HandleInstallSnapshot`: what the node keeps on every branch.
use go_core_x.Prelude.{
  ℕ, suc, ◌≤◌, ◌≡◌, refl, arith, true, Bool-cases, Option-cases, inl, inr, Option, none, some, [],
  ltb, nat_eq,
}
use go_core_x.Bytes.{Bytes}
use go_core_x.Raft.Types.{LogEntry, InstallSnapshotArgs}
use go_core_x.Raft.Config.{is_zero}
use go_core_x.Raft.SnapshotFile.{Decoded, decode_snapshot}
use go_core_x.Raft.Node.{Externals, RaftNode, entry_at, truncate_log_prefix}
use go_core_x.Raft.Node.Ballot.{KeepsBallot, KeepsBallot-refl, KeepsBallot-trans}
use go_core_x.Raft.Node.Log.{IsWellFormed, find_back-below, drop_through-IsConsecutive}
use go_core_x.Raft.Snapshots.{
  Machine, SnapshotExternals, SnapshotConfig, Installing, follow_snapshot, add_chunk,
  restore_config, install_state, is_covered, restore, apply_snapshot, announced, finish_install,
  handle_install_snapshot,
}

-- What a node keeps: the shape of its log, its vote, and that what is committed and applied never
-- goes back.
pub record Keeps (n n' : RaftNode) : Type 0 where
  pub well_formed : IsWellFormed n → IsWellFormed n'
  pub ballot : KeepsBallot n n'
  pub committed : n.commit_index ≤ n'.commit_index
  pub applied : n.last_applied ≤ n'.last_applied

Keeps-refl : (n : RaftNode) → Keeps n n
Keeps-refl n = record {
  well_formed = λ w. w;
  ballot = KeepsBallot-refl n;
  committed = omega arith;
  applied = omega arith;
}

pub Keeps-trans : (a b c : RaftNode) → Keeps a b → Keeps b c → Keeps a c
Keeps-trans a b c h k = record {
  well_formed = λ w. k.well_formed (h.well_formed w);
  ballot = KeepsBallot-trans a b c h.ballot k.ballot;
  committed = omega (arith, h.committed, k.committed);
  applied = omega (arith, h.applied, k.applied);
}

pub follow_snapshot-Keeps :
    (args : InstallSnapshotArgs) (n : RaftNode) → Keeps n (follow_snapshot args n)
unfolding follow_snapshot
follow_snapshot-Keeps args n = elim (Bool-cases (ltb n.current_term args.term)) [
  | inl higher ↦
      rw (follow_snapshot, higher)
        (record {
          well_formed = λ w. record { consecutive = w.consecutive };
          ballot = inl (ground (arith, higher));
          committed = omega arith;
          applied = omega arith;
        })
  | inr same ↦
      rw (follow_snapshot, same)
        (record {
          well_formed = λ w. record { consecutive = w.consecutive };
          ballot = inr (refl, inr refl);
          committed = omega arith;
          applied = omega arith;
        })
]

install_state-Keeps : (x : Externals) (d : Decoded) (n : RaftNode) → Keeps n (install_state x d n)
unfolding install_state restore_config
install_state-Keeps x d n = elim (Bool-cases (is_zero d.content.config)) [
  | inl zero ↦
      rw (install_state, restore_config, zero)
        (record {
          well_formed = λ w. record { consecutive = tt };
          ballot = inr (refl, inr refl);
          committed = ground arith;
          applied = ground arith;
        })
  | inr given ↦
      rw (install_state, restore_config, given)
        (record {
          well_formed = λ w. record { consecutive = tt };
          ballot = inr (refl, inr refl);
          committed = ground arith;
          applied = ground arith;
        })
]

entry_at-above :
    (n : RaftNode) (i : ℕ) (e : LogEntry)
    → IsWellFormed n
    → entry_at n i ≡ some e
    → n.snapshot_index ≤ i
unfolding entry_at
entry_at-above n i e w h = elim (Bool-cases (ltb i (suc n.snapshot_index))) [
  | inl below ↦
      let gone =
        find_back-below (suc n.snapshot_index) i n.log w.consecutive (ground (arith, below)) in
      absurd (ground (arith, h, gone))
  | inr above ↦ ground (arith, above)
]

truncate-Keeps :
    (n : RaftNode) (d : Decoded) (e : LogEntry)
    → entry_at n d.index ≡ some e
    → Keeps n (truncate_log_prefix n d.index d.term)
unfolding truncate_log_prefix
truncate-Keeps n d e h = record {
  well_formed = λ w.
      let above = entry_at-above n d.index e w h in
      record {
        consecutive =
            drop_through-IsConsecutive (suc n.snapshot_index) d.index n.log w.consecutive
              (omega arith);
      };
  ballot = inr (refl, inr refl);
  committed = omega arith;
  applied = omega arith;
}

module _ {S : Type 0} (m : Machine S) (x : Externals) (e : SnapshotExternals)
    (cfg : SnapshotConfig) where
  covered-Keeps :
      (d : Decoded) (n : RaftNode) (o : Option S)
      → is_covered m x e cfg d n o ≡ true
      → Keeps n (truncate_log_prefix n d.index d.term)
  unfolding is_covered
  covered-Keeps d n none h = cc
  covered-Keeps d n (some s) h = elim (Option-cases (entry_at n d.index)) [
    | inl gone ↦ absurd (ground (arith, h, gone))
    | inr (y, known) ↦ truncate-Keeps n d y known
  ]

  apply_snapshot-Keeps :
      (d : Decoded) (t : Installing S) → Keeps t.node (apply_snapshot m x e cfg d t).node
  unfolding apply_snapshot
  apply_snapshot-Keeps d t = elim (Bool-cases (is_covered m x e cfg d t.node t.machine)) [
    | inl covered ↦ rw (apply_snapshot, covered) (covered-Keeps d t.node t.machine covered)
    | inr new ↦ elim (Bool-cases (restore m x e cfg d t.machine).1) [
      | inl good ↦
          let k = install_state-Keeps x d t.node in
          rw (apply_snapshot, new, good)
            (record {
              well_formed = λ w. record { consecutive = (k.well_formed w).consecutive };
              ballot = k.ballot;
              committed = k.committed;
              applied = k.applied;
            })
      | inr bad ↦ rw (apply_snapshot, new, bad) (Keeps-refl t.node)
    ]
  ]

  pub finish_install-Keeps :
      (args : InstallSnapshotArgs) (bytes : Bytes) (t : Installing S)
      → Keeps t.node (finish_install m x e cfg args bytes t).node
  unfolding finish_install
  finish_install-Keeps args bytes t =
      elim (Option-cases (decode_snapshot e.crc e.unmarshal_config bytes)) [
        | inl bad ↦ rw (finish_install, bad) (Keeps-refl t.node)
        | inr (d, good) ↦ elim (Bool-cases (announced m x e cfg args d)) [
          | inl right ↦ rw (finish_install, good, right) (apply_snapshot-Keeps d t)
          | inr wrong ↦ rw (finish_install, good, wrong) (Keeps-refl t.node)
        ]
      ]

  -- Whatever message of a snapshot arrives, and whatever becomes of it, a log that was well-formed is so afterwards,
  -- the term does not fall and a vote that was cast stays within the term, and neither the commit index nor the last
  -- applied one goes back.
  pub handle_install_snapshot-Keeps :
      (args : InstallSnapshotArgs) (t : Installing S)
      → Keeps t.node (handle_install_snapshot m x e cfg args t).0.node
  unfolding handle_install_snapshot
  handle_install_snapshot-Keeps args t =
      let node = follow_snapshot args t.node in
      let first = follow_snapshot-Keeps args t.node in
      let bytes = add_chunk args t.buffer in
      let clear = record t { node = node; buffer = [] } in
      elim (Bool-cases (ltb args.term t.node.current_term)) [
        | inl old ↦ rw (handle_install_snapshot, old) (Keeps-refl t.node)
        | inr new ↦ elim (Bool-cases args.done) [
          | inl last ↦
              rw (handle_install_snapshot, new, last)
                (Keeps-trans t.node node (finish_install m x e cfg args bytes clear).node first
                  (finish_install-Keeps args bytes clear))
          | inr more ↦ rw (handle_install_snapshot, new, more) first
        ]
      ]

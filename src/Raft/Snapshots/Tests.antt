-- ===== src/Raft/Snapshots/Tests.antt =====
-- A follower of an empty state machine, to which a snapshot of one key is sent in three chunks.
use go_core_x.Prelude.{ℕ, ◌≡◌, refl, arith, true, false, some, [], ◌∷◌, lookup, insert}
use go_core_x.Bytes.{Bytes, get_be_from}
use go_core_x.Raft.Types.{stable}
use go_core_x.Raft.Examples.{externals, behind, three_nodes}
use go_core_x.Raft.SnapshotFile.{SnapshotData, Decoded, decode_snapshot}
use go_core_x.Raft.Stores.{SnapshotStore}
use go_core_x.Raft.Snapshots.{Machine, SnapshotExternals, SnapshotConfig, recover_from_snapshot}
use go_core_x.Raft.Snapshots.Stream.{
  Announcement, chunks, receive, Installed, at_rest, receive-chunks-Installed,
}
use go_core_x.Raft.Snapshots.Recovered.{StandsAt, recover_from_snapshot-StandsAt}

-- A state machine that is its data and its last applied index.
abbrev Values : Type 0
Values = SnapshotData × ℕ

abbrev machine : Machine Values
machine = record {
  last_applied = λ s. s.1;
  take_snapshot = λ s. some s;
  restore_snapshot = λ content index s. ((content, index), true);
}

abbrev no_checksum : SnapshotExternals
no_checksum = record { crc = λ bs. 0; unmarshal_config = λ bs. three_nodes }

abbrev keep_two : SnapshotConfig
keep_two = record { threshold = 100; retain_count = 2 }

abbrev nothing_applied : Values
nothing_applied = (record { kv = []; config = three_nodes }, 0)

-- Index 5, term 2, one pair of a key and a value of one byte each, and no configuration.
abbrev raw : Bytes
raw =
    0x52 ∷ 0x41 ∷ 0x46 ∷ 0x54 ∷ 0 ∷ 1 ∷ 0 ∷ 0 ∷ 0 ∷ 0 ∷ 0 ∷ 0 ∷ 0 ∷ 5 ∷ 0 ∷ 0 ∷ 0 ∷ 0 ∷ 0 ∷ 0 ∷ 0
    ∷ 2 ∷ 0 ∷ 0 ∷ 0 ∷ 0 ∷ 0 ∷ 0 ∷ 0 ∷ 1 ∷ 0 ∷ 1 ∷ 97 ∷ 0 ∷ 0 ∷ 0 ∷ 1 ∷ 7 ∷ 0 ∷ 0 ∷ 0 ∷ 0 ∷ []

abbrev one_pair : Decoded
one_pair = record {
  index = 5;
  term = 2;
  content = record {
    kv = (97 ∷ [], 7 ∷ []) ∷ [];
    config = record { phase = stable; voters = []; new_voters = [] };
  };
}

raw_decodes : decode_snapshot no_checksum.crc no_checksum.unmarshal_config raw ≡ some one_pair
unfolding decode_snapshot get_be_from lookup insert
raw_decodes = refl

abbrev announcement : Announcement
announcement = record { term = 3; leader_id = "b"; index = 5; snapshot_term = 2 }

receive-chunks-Installed_example :
    Installed machine externals no_checksum keep_two one_pair
      (one_pair.content, 5)
      behind
      (receive machine externals no_checksum keep_two
        (chunks announcement 16 raw)
        (at_rest machine externals no_checksum keep_two behind nothing_applied (1 ∷ [])))
receive-chunks-Installed_example =
    receive-chunks-Installed machine externals no_checksum keep_two announcement 16 (omega arith)
      raw one_pair nothing_applied (one_pair.content, 5) refl raw_decodes (omega arith) refl behind
      (1 ∷ []) (omega arith) (omega arith)

abbrev one_file : SnapshotStore
one_file = record {
  snapshots = record one_pair { index = 1; term = 1 } ∷ [];
  fails = λ n. false;
  calls = 0;
}

recover_from_snapshot-StandsAt_example :
    let r =
      recover_from_snapshot machine externals no_checksum keep_two one_file nothing_applied
        behind in
    (r.2 ≡ 1)
    × (r.1 ≡ (one_pair.content, 1))
    × StandsAt (record one_pair { index = 1; term = 1 }) behind r.0
recover_from_snapshot-StandsAt_example =
    recover_from_snapshot-StandsAt machine externals no_checksum keep_two one_file
      (record one_pair { index = 1; term = 1 }) [] nothing_applied (one_pair.content, 1) behind 1
      refl refl refl refl (refl, (refl, tt)) (omega arith)

-- ===== src/Raft/SnapshotFile/Tests.antt =====
-- A snapshot of one key, with a checksum that depends on the length alone.
use go_core_x.Prelude.{
  ℕ, ◌%◌, ◌^◌, ◌≡◌, refl, arith, Option, none, some, [], ◌∷◌, length, lookup, ◌==◌, if◌then◌else◌,
}
use go_core_x.Bytes.{Bytes}
use go_core_x.Bytes.Equal.{bytes_eq}
use go_core_x.Storage.Wal.Records.{IsChecksum}
use go_core_x.Raft.Types.{ClusterConfig}
use go_core_x.Raft.Examples.{three_nodes}
use go_core_x.Raft.SnapshotFile.{
  snapshot_config_key, SnapshotData, Decoded, encode_snapshot, decode_snapshot,
}
use go_core_x.Raft.SnapshotFile.RoundTrip.{decode-encode_snapshot}

abbrev toy_crc : Bytes → ℕ
toy_crc bs = length bs % 2 ^ 32

toy_crc-IsChecksum : IsChecksum toy_crc
toy_crc-IsChecksum bs = omega arith

abbrev write_config : ClusterConfig → Option Bytes
write_config c = some (123 ∷ 125 ∷ [])

abbrev read_config : Bytes → ClusterConfig
read_config bs = three_nodes

abbrev one_key : SnapshotData
one_key = record { kv = (97 ∷ [], 1 ∷ 2 ∷ []) ∷ []; config = three_nodes }

decode-encode_snapshot_example :
    (bytes : Bytes) × (d : Decoded) × (encode_snapshot toy_crc write_config 5 2 one_key
      ≡ some bytes)
    × (decode_snapshot toy_crc read_config bytes ≡ some d)
    × (d.index ≡ 5)
    × (d.term ≡ 2)
    × (d.content.config ≡ three_nodes)
    × ((k : Bytes)
        → lookup k d.content.kv ≡ (if snapshot_config_key == k then none else lookup k one_key.kv))
decode-encode_snapshot_example =
    decode-encode_snapshot toy_crc toy_crc-IsChecksum write_config read_config 5 2 one_key
      (123 ∷ 125 ∷ []) (omega arith) (omega arith) refl refl (omega arith) (omega arith)
      ((omega arith, omega arith), tt) (unfold lookup in refl, tt)

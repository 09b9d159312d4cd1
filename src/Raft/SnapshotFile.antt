-- ===== src/Raft/SnapshotFile.antt =====
-- internal/infrastructure/raft/snapshot_store.go: the bytes of a snapshot, which are also what a
-- leader sends. The order in which Go walks the map is that of the association list. JSON and the
-- checksum are parameters: `marshal` is `none` for an error, and `unmarshal` is what json.Unmarshal
-- leaves in the zero configuration, an error being only logged.
pub mod Pairs
pub mod RoundTrip
pub mod Tests
use go_core_x.Prelude.{
  ℕ, zero, suc, ◌+◌, ◌-◌, ◌^◌, Bool, true, false, Option, none, some, List, [], ◌∷◌, ◌++◌, drop,
  length, ltb, leb, ◌==◌, nat_eq, if◌then◌else◌, Map, lookup, insert, delete,
}
use go_core_x.Bytes.{Bytes, take, slice, put_be, get_be}
use go_core_x.Bytes.Equal.{bytes_eq}
use go_core_x.Raft.Types.{ClusterConfig, ConfigPhase, stable}

abbrev pub snapshot_magic : ℕ
snapshot_magic = 0x52414654

abbrev pub snapshot_version : ℕ
snapshot_version = 1

-- "\x00__raft_cluster_config__"
abbrev pub snapshot_config_key : Bytes
snapshot_config_key =
    0x00 ∷ 0x5F ∷ 0x5F ∷ 0x72 ∷ 0x61 ∷ 0x66 ∷ 0x74 ∷ 0x5F ∷ 0x63 ∷ 0x6C ∷ 0x75 ∷ 0x73 ∷ 0x74 ∷ 0x65
    ∷ 0x72 ∷ 0x5F ∷ 0x63 ∷ 0x6F ∷ 0x6E ∷ 0x66 ∷ 0x69 ∷ 0x67 ∷ 0x5F ∷ 0x5F ∷ []

pub record SnapshotData : Type 0 where
  pub kv : Map Bytes Bytes
  pub config : ClusterConfig

pub record Decoded : Type 0 where
  pub index : ℕ
  pub term : ℕ
  pub content : SnapshotData

abbrev pub zero_config : ClusterConfig
zero_config = record { phase = stable; voters = []; new_voters = [] }

abbrev pub encode_pair : Bytes → Bytes → Bytes
encode_pair k v = put_be 2 (length k) ++ (k ++ (put_be 4 (length v) ++ v))

abbrev append_to : Bytes → Option Bytes → Option Bytes
append_to bs none = none
append_to bs (some rest) = some (bs ++ rest)

-- The body: `none` for a key or a value that is too long.
unfoldable pub encode_pairs : Map Bytes Bytes → Option Bytes
encode_pairs [] = some []
encode_pairs ((k, v) ∷ m) =
    let rest = encode_pairs m in
    if ltb 0xFFFF (length k)
    then none
    else if ltb 0xFFFFFFFF (length v)
    then none
    else append_to (encode_pair k v) rest

abbrev pub snapshot_header : ℕ → ℕ → ℕ → Bytes
snapshot_header index term count =
    put_be 4 snapshot_magic
    ++ (put_be 2 snapshot_version ++ (put_be 8 index ++ (put_be 8 term ++ put_be 8 count)))

abbrev with_footer : (Bytes → ℕ) → Bytes → Option Bytes → Option Bytes
with_footer crc header none = none
with_footer crc header (some body) = some ((header ++ body) ++ put_be 4 (crc (header ++ body)))

abbrev encode_full : (Bytes → ℕ) → ℕ → ℕ → Map Bytes Bytes → Option Bytes
encode_full crc index term full =
    with_footer crc (snapshot_header index term (length full)) (encode_pairs full)

unfoldable pub encode_snapshot :
    (Bytes → ℕ) → (ClusterConfig → Option Bytes) → ℕ → ℕ → SnapshotData → Option Bytes
encode_snapshot crc marshal index term content = elim (marshal content.config) [
  | none ↦ none
  | some json ↦ encode_full crc index term (insert snapshot_config_key json content.kv)
]

-- One record of the body: the key, the value and what is left.
unfoldable pub decode_pair : Bytes → Option (Bytes × Bytes × Bytes)
decode_pair bs =
    let key_size = get_be (slice 0 2 bs) in
    let behind = drop 2 bs in
    let rest = drop key_size behind in
    let size = get_be (slice 0 4 rest) in
    let tail = drop 4 rest in
    if ltb (length bs) 2
    then none
    else if ltb (length behind) key_size
    then none
    else if ltb (length rest) 4
    then none
    else if ltb (length tail) size
    then none
    else some (take key_size behind, take size tail, drop size tail)

-- The loop over the records, as many as the header says.
unfoldable pub decode_pairs : ℕ → Bytes → Map Bytes Bytes → Option (Map Bytes Bytes)
unfolding decode_pair
decode_pairs zero bs m = some m
decode_pairs (suc n) bs m = elim (decode_pair bs) [
  | none ↦ none
  | some (k, v, rest) ↦ decode_pairs n rest (insert k v m)
]

-- The configuration is taken out of the map.
abbrev pub with_config : (Bytes → ClusterConfig) → Map Bytes Bytes → Option Bytes → SnapshotData
with_config unmarshal kv none = record { kv = kv; config = zero_config }
with_config unmarshal kv (some json) = record {
  kv = delete snapshot_config_key kv;
  config = unmarshal json;
}

abbrev pub take_config : (Bytes → ClusterConfig) → Map Bytes Bytes → SnapshotData
take_config unmarshal kv = with_config unmarshal kv (lookup snapshot_config_key kv)

-- A negative count makes no round.
abbrev pub rounds : ℕ → ℕ
rounds n = if leb (2 ^ 63) n then 0 else n

unfoldable pub decode_body : (Bytes → ClusterConfig) → Bytes → Option Decoded
unfolding decode_pairs
decode_body unmarshal bs = elim (decode_pairs (rounds (get_be (slice 22 30 bs))) (drop 30 bs) []) [
  | none ↦ none
  | some kv ↦ some (record {
    index = get_be (slice 6 14 bs);
    term = get_be (slice 14 22 bs);
    content = take_config unmarshal kv;
  })
]

-- `none` for ErrCorruptedSnapshot.
unfoldable pub decode_snapshot : (Bytes → ℕ) → (Bytes → ClusterConfig) → Bytes → Option Decoded
unfolding decode_body
decode_snapshot crc unmarshal raw =
    let front = take (length raw - 4) raw in
    if ltb (length raw) 34
    then none
    else if get_be (drop (length raw - 4) raw) == crc front
    then (if get_be (slice 0 4 front) == snapshot_magic then decode_body unmarshal front else none)
    else none

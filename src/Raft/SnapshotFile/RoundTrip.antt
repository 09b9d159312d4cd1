-- ===== src/Raft/SnapshotFile/RoundTrip.antt =====
-- snapshot_store.go: a whole snapshot.
use go_core_x.Prelude.{
  ℕ, ◌+◌, ◌-◌, ◌^◌, ◌≤◌, ◌<◌, ◌≡◌, refl, sym, ap, ◌∙◌, arith, false, Bool-cases, inl, inr, Option,
  none, some, [], ◌∷◌, ◌++◌, append_assoc, drop, length, length-append, ltb, ◌==◌, nat_eq,
  same_self, if◌then◌else◌, Map, lookup, insert, lookup-insert, lookup-delete,
}
use go_core_x.Bytes.{Bytes, slice, put_be, get_be}
use go_core_x.Bytes.Equal.{bytes_eq}
use go_core_x.Bytes.Numbers.{length-put_be, get_be-put_be}
use go_core_x.Bytes.Slices.{slice_front, slice_behind, take_front, drop_front}
use go_core_x.Storage.Wal.Records.{IsChecksum}
use go_core_x.Raft.Types.{ClusterConfig}
use go_core_x.Raft.SnapshotFile.{
  snapshot_magic, snapshot_version, snapshot_config_key, SnapshotData, Decoded, snapshot_header,
  encode_snapshot, take_config, rounds, decode_body, decode_snapshot,
}
use go_core_x.Raft.SnapshotFile.Pairs.{
  ArePairs, IsDistinct, pair_bytes, encode_pairs_fit, insert_each, decode_pairs-encode, or_else,
  lookup-insert_each, insert-IsDistinct, insert-ArePairs,
}

length-insert-le : (k v : Bytes) (m : Map Bytes Bytes) → length (insert k v m) ≤ length m + 1
unfolding insert
length-insert-le k v [] = omega arith
length-insert-le k v ((j, w) ∷ m) = ground (arith, length-insert-le k v m)

-- The header and the body, bracketed to the right.
module _ (index term count : ℕ) (body : Bytes) where
  abbrev count_part : Bytes
  count_part = put_be 8 count ++ body

  abbrev term_part : Bytes
  term_part = put_be 8 term ++ count_part

  abbrev index_part : Bytes
  index_part = put_be 8 index ++ term_part

  abbrev version_part : Bytes
  version_part = put_be 2 snapshot_version ++ index_part

  abbrev front : Bytes
  front = put_be 4 snapshot_magic ++ version_part

  header_front : snapshot_header index term count ++ body ≡ front
  header_front =
      append_assoc (put_be 4 snapshot_magic) _ body
      ∙ ap (λ l. put_be 4 snapshot_magic ++ l)
          (append_assoc (put_be 2 snapshot_version) _ body
            ∙ ap (λ l. put_be 2 snapshot_version ++ l)
                (append_assoc (put_be 8 index) _ body
                  ∙ ap (λ l. put_be 8 index ++ l)
                      (append_assoc (put_be 8 term) (put_be 8 count) body)))

  front_magic : get_be (slice 0 4 front) ≡ snapshot_magic
  front_magic =
      ap get_be
        (slice_front 4 (put_be 4 snapshot_magic) version_part (length-put_be 4 snapshot_magic))
      ∙ get_be-put_be 4 snapshot_magic (omega arith)

  -- A slice behind the magic number and the version, and so on.
  behind_version : (lo hi : ℕ) → slice (4 + (2 + lo)) (4 + (2 + hi)) front ≡ slice lo hi index_part
  behind_version lo hi =
      slice_behind 4 (2 + lo) (2 + hi) (put_be 4 snapshot_magic) version_part
        (length-put_be 4 snapshot_magic)
      ∙ slice_behind 2 lo hi (put_be 2 snapshot_version) index_part
          (length-put_be 2 snapshot_version)

  front_index : index < 2 ^ 63 → get_be (slice 6 14 front) ≡ index
  front_index h =
      ap get_be (behind_version 0 8)
      ∙ ap get_be (slice_front 8 (put_be 8 index) term_part (length-put_be 8 index))
      ∙ get_be-put_be 8 index (omega arith)

  front_term : term < 2 ^ 63 → get_be (slice 14 22 front) ≡ term
  front_term h =
      ap get_be (behind_version 8 16)
      ∙ ap get_be (slice_behind 8 0 8 (put_be 8 index) term_part (length-put_be 8 index))
      ∙ ap get_be (slice_front 8 (put_be 8 term) count_part (length-put_be 8 term))
      ∙ get_be-put_be 8 term (omega arith)

  stored_rounds : count < 2 ^ 63 → rounds (get_be (slice 22 30 front)) ≡ count
  stored_rounds h =
      ap rounds (
        ap get_be (behind_version 16 24)
        ∙ ap get_be (slice_behind 8 8 16 (put_be 8 index) term_part (length-put_be 8 index))
        ∙ ap get_be (slice_behind 8 0 8 (put_be 8 term) count_part (length-put_be 8 term))
        ∙ ap get_be (slice_front 8 (put_be 8 count) body (length-put_be 8 count))
        ∙ get_be-put_be 8 count (omega arith))
      ∙ ground arith

  length-header : length (snapshot_header index term count) ≡ 30
  length-header = omega (
    arith,
    length-append (put_be 4 snapshot_magic)
        (put_be 2 snapshot_version ++ (put_be 8 index ++ (put_be 8 term ++ put_be 8 count))),
    length-append (put_be 2 snapshot_version) (put_be 8 index ++ (put_be 8 term ++ put_be 8 count)),
    length-append (put_be 8 index) (put_be 8 term ++ put_be 8 count),
    length-append (put_be 8 term) (put_be 8 count),
    length-put_be 4 snapshot_magic,
    length-put_be 2 snapshot_version,
    length-put_be 8 index,
    length-put_be 8 term,
    length-put_be 8 count,
  )

  front_body : drop 30 front ≡ body
  front_body =
      ap (drop 30) (sym header_front)
      ∙ drop_front 30 (snapshot_header index term count) body length-header

decode_body-front :
    (unmarshal : Bytes → ClusterConfig) (index term : ℕ) (full : Map Bytes Bytes)
    → index < 2 ^ 63
    → term < 2 ^ 63
    → length full < 2 ^ 63
    → ArePairs full
    → decode_body unmarshal (front index term (length full) (pair_bytes full))
      ≡ some (record {
        index = index;
        term = term;
        content = take_config unmarshal (insert_each full []);
      })
unfolding decode_body
decode_body-front unmarshal index term full i t n f =
    let c = length full in
    let body = pair_bytes full in
    rw
      (
        decode_body,
        stored_rounds index term c body n,
        front_body index term c body,
        decode_pairs-encode full [] f,
        front_index index term c body i,
        front_term index term c body t,
      )
      refl

decode_snapshot-footer :
    (crc : Bytes → ℕ)
    → IsChecksum crc
    → (unmarshal : Bytes → ClusterConfig) (bs : Bytes) → 30 ≤ length bs
    → get_be (slice 0 4 bs) ≡ snapshot_magic
    → decode_snapshot crc unmarshal (bs ++ put_be 4 (crc bs)) ≡ decode_body unmarshal bs
unfolding decode_snapshot
decode_snapshot-footer crc small unmarshal bs h magic =
    let raw = bs ++ put_be 4 (crc bs) in
    let sum = length-append bs (put_be 4 (crc bs)) in
    let four = length-put_be 4 (crc bs) in
    let size : length raw - 4 ≡ length bs = omega (arith, sum, four) in
    let long : ltb (length raw) 34 ≡ false = ground (arith, sum, four) in
    rw
      (
        decode_snapshot,
        size,
        long,
        drop_front (length bs) bs (put_be 4 (crc bs)) refl,
        take_front (length bs) bs (put_be 4 (crc bs)) refl,
        get_be-put_be 4 (crc bs) (omega (arith, small bs)),
        same_self (crc bs),
        magic,
      )
      refl

or_else_empty :
    (k : Bytes) (o : Option Bytes) (m : Map Bytes Bytes) → m ≡ [] → or_else o (lookup k m) ≡ o
unfolding lookup
or_else_empty k none m h = rw h refl
or_else_empty k (some v) m h = refl

-- The map and the configuration that a snapshot with a configuration under its key is read as.
take_config-stored :
    (unmarshal : Bytes → ClusterConfig) (json : Bytes) (kv : Map Bytes Bytes)
    → IsDistinct kv
    → let d = take_config unmarshal (insert_each (insert snapshot_config_key json kv) []) in
      (d.config ≡ unmarshal json)
      × ((k : Bytes) → lookup k d.kv ≡ (if snapshot_config_key == k then none else lookup k kv))
take_config-stored unmarshal json kv d =
    let full = insert snapshot_config_key json kv in
    let all =
      lookup-insert_each snapshot_config_key full []
        (insert-IsDistinct snapshot_config_key json kv d) in
    let it : lookup snapshot_config_key (insert_each full []) ≡ some json =
      all ∙ (rw (lookup-insert snapshot_config_key snapshot_config_key json kv) refl) in
    rw (take_config, it)
      (
        refl,
        λ k.
            rw
              (
                lookup-delete k snapshot_config_key (insert_each full []),
                lookup-insert_each k full [] (insert-IsDistinct snapshot_config_key json kv d),
                lookup-insert k snapshot_config_key json kv,
              )
              (elim (Bool-cases (snapshot_config_key == k)) [
                | inl same ↦ rw same refl
                | inr other ↦ rw other (or_else_empty k (lookup k kv) [] refl)
              ]),
      )

-- A snapshot of a map, one entry for each key, whose keys are shorter than 2 ^ 16 and whose values are shorter than
-- 2 ^ 32 bytes, with a configuration that JSON encodes and decodes back, can be encoded; and what is decoded of its
-- bytes are its index and term, its configuration, and for every key but the reserved one the value that it has.
pub decode-encode_snapshot :
    (crc : Bytes → ℕ)
    → IsChecksum crc
    → (marshal : ClusterConfig → Option Bytes) (unmarshal : Bytes → ClusterConfig)
    → (index term : ℕ) (content : SnapshotData) (json : Bytes) → index < 2 ^ 63
    → term < 2 ^ 63
    → marshal content.config ≡ some json
    → unmarshal json ≡ content.config
    → length json < 2 ^ 32
    → length content.kv + 1 < 2 ^ 63
    → ArePairs content.kv
    → IsDistinct content.kv
    → (bytes : Bytes) × (d : Decoded) × (encode_snapshot crc marshal index term content
        ≡ some bytes)
      × (decode_snapshot crc unmarshal bytes ≡ some d)
      × (d.index ≡ index)
      × (d.term ≡ term)
      × (d.content.config ≡ content.config)
      × ((k : Bytes)
          → lookup k d.content.kv
            ≡ (if snapshot_config_key == k then none else lookup k content.kv))
unfolding encode_snapshot
decode-encode_snapshot crc small marshal unmarshal index term content json i t m u j n f d =
    let full = insert snapshot_config_key json content.kv in
    let c = length full in
    let fits = insert-ArePairs snapshot_config_key json content.kv (omega arith, j) f in
    let body = pair_bytes full in
    let bs = snapshot_header index term c ++ body in
    let same = header_front index term c body in
    let stored = take_config-stored unmarshal json content.kv d in
    let fewer : c < 2 ^ 63 = omega (arith, length-insert-le snapshot_config_key json content.kv) in
    (
      bs ++ put_be 4 (crc bs),
      record { index = index; term = term; content = take_config unmarshal (insert_each full []) },
      rw (encode_snapshot, m, encode_pairs_fit full fits) refl,
      decode_snapshot-footer crc small unmarshal bs
            (omega (
              arith,
              length-append (snapshot_header index term c) body,
              length-header index term c body,
            ))
            (ap (λ l. get_be (slice 0 4 l)) same ∙ front_magic index term c body)
          ∙ ap (decode_body unmarshal) same
          ∙ decode_body-front unmarshal index term full i t fewer fits,
      refl,
      refl,
      stored.0 ∙ u,
      stored.1,
    )

-- ===== src/Storage/Kv/Codec.antt =====
-- wal_codec.go: the three kinds of record.
use go_core_x.Prelude.{
  ℕ, ◌^◌, ◌<◌, ◌≡◌, refl, sym, ap, ◌∙◌, arith, false, some, [], ◌∷◌, ◌++◌, append_assoc, append-nil,
  drop, length, length-append, ltb,
}
use go_core_x.Bytes.{Bytes, slice, put_le, get_le}
use go_core_x.Bytes.Numbers.{length-put_le, get_le-put_le}
use go_core_x.Bytes.Slices.{slice_front, drop_front, take_front}
use go_core_x.Storage.Kv.{
  string2, encode_kv_set, encode_kv_del, encode_kv_meta, read_string2, decode_value,
  decode_kv_record,
}

-- A string is read back from its bytes, with what stands behind it left.
pub read_string2-string2 :
    (s rest : Bytes) → length s < 2 ^ 16 → read_string2 (string2 s ++ rest) ≡ some (s, rest)
unfolding read_string2
read_string2-string2 s rest h =
    let front : string2 s ++ rest ≡ put_le 2 (length s) ++ (s ++ rest) =
      append_assoc (put_le 2 (length s)) s rest in
    let size : get_le (slice 0 2 (put_le 2 (length s) ++ (s ++ rest))) ≡ length s =
      ap get_le (slice_front 2 (put_le 2 (length s)) (s ++ rest) (length-put_le 2 (length s)))
      ∙ get_le-put_le 2 (length s) (omega arith) in
    let body : drop 2 (put_le 2 (length s) ++ (s ++ rest)) ≡ s ++ rest =
      drop_front 2 (put_le 2 (length s)) (s ++ rest) (length-put_le 2 (length s)) in
    let long : ltb (length (put_le 2 (length s) ++ (s ++ rest))) 2 ≡ false =
      ground (arith, length-append (put_le 2 (length s)) (s ++ rest), length-put_le 2 (length s)) in
    let longer : ltb (length (s ++ rest)) (length s) ≡ false =
      ground (arith, length-append s rest) in
    rw
      (
        read_string2,
        front,
        size,
        body,
        long,
        longer,
        take_front (length s) s rest refl,
        drop_front (length s) s rest refl,
      )
      refl

read_string2-last : (s : Bytes) → length s < 2 ^ 16 → read_string2 (string2 s) ≡ some (s, [])
read_string2-last s h = ap read_string2 (sym (append-nil (string2 s))) ∙ read_string2-string2 s [] h

-- The record's type and the index are read, and then the key.
decode_front :
    (t raft_index : ℕ) (rest : Bytes)
    → raft_index < 2 ^ 63
    → decode_kv_record (t ∷ (put_le 8 raft_index ++ rest))
      ≡ decode_value t raft_index (read_string2 rest)
unfolding decode_kv_record
decode_front t i rest h =
    let size : get_le (slice 0 8 (put_le 8 i ++ rest)) ≡ i =
      ap get_le (slice_front 8 (put_le 8 i) rest (length-put_le 8 i))
      ∙ get_le-put_le 8 i (omega arith) in
    let long : ltb (length (put_le 8 i ++ rest)) 8 ≡ false =
      ground (arith, length-append (put_le 8 i) rest, length-put_le 8 i) in
    rw (decode_kv_record, size, long, drop_front 8 (put_le 8 i) rest (length-put_le 8 i)) refl

-- Each kind of record is read back as it was written: its type, its index, its key and its value, which is empty
-- for a delete and for a checkpoint. Key and value are shorter than 2 ^ 16 bytes, the index is below 2 ^ 63.
pub decode-encode_kv :
    (key value : Bytes) (i : ℕ)
    → length key < 2 ^ 16
    → length value < 2 ^ 16
    → i < 2 ^ 63
    → (decode_kv_record (encode_kv_set key value i)
        ≡ some (record { record_type = 1; raft_index = i; key = key; value = value }))
      × (decode_kv_record (encode_kv_del key i)
          ≡ some (record { record_type = 2; raft_index = i; key = key; value = [] }))
      × (decode_kv_record (encode_kv_meta key i)
          ≡ some (record { record_type = 3; raft_index = i; key = key; value = [] }))
unfolding encode_kv_set encode_kv_del encode_kv_meta
decode-encode_kv key value i k v h = (
  decode_front 1 i (string2 key ++ string2 value) h
      ∙ (rw (read_string2-string2 key (string2 value) k, read_string2-last value v) refl),
  decode_front 2 i (string2 key) h ∙ (rw (read_string2-last key k) refl),
  decode_front 3 i (string2 key ++ string2 []) h
      ∙ (rw (read_string2-string2 key (string2 []) k, read_string2-last [] (omega arith)) refl),
)

pub encode_kv_set-short :
    (key value : Bytes) (i : ℕ)
    → length key < 2 ^ 16
    → length value < 2 ^ 16
    → length (encode_kv_set key value i) < 2 ^ 32
unfolding encode_kv_set
encode_kv_set-short key value i k v = omega (
  arith,
  length-append (put_le 8 i) (string2 key ++ string2 value),
  length-append (string2 key) (string2 value),
  length-append (put_le 2 (length key)) key,
  length-append (put_le 2 (length value)) value,
  length-put_le 8 i,
  length-put_le 2 (length key),
  length-put_le 2 (length value),
)

pub encode_kv_meta-short :
    (key : Bytes) (i : ℕ) → length key < 2 ^ 16 → length (encode_kv_meta key i) < 2 ^ 32
unfolding encode_kv_meta encode_kv_set
encode_kv_meta-short key i k = encode_kv_set-short key [] i k (omega arith)

pub encode_kv_del-short :
    (key : Bytes) (i : ℕ) → length key < 2 ^ 16 → length (encode_kv_del key i) < 2 ^ 32
unfolding encode_kv_del
encode_kv_del-short key i k = omega (
  arith,
  length-append (put_le 8 i) (string2 key),
  length-append (put_le 2 (length key)) key,
  length-put_le 8 i,
  length-put_le 2 (length key),
)

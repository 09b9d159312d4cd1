-- ===== src/Storage/Kv.antt =====
-- internal/infrastructure/storage/kv: wal_codec.go and raft_store.go, the store that the Raft state
-- machine writes through. A string is the list of its bytes, an `int64` index a natural number. The
-- file that is read is the writer's.
pub mod Codec
pub mod Offsets
pub mod Recovery
pub mod Bounded
use go_core_x.Prelude.{
  ℕ, zero, suc, ◌+◌, Bool, true, false, ◌||◌, Option, none, some, List, [], ◌∷◌, ◌++◌, drop, length,
  ltb, ◌==◌, nat_eq, if◌then◌else◌,
}
use go_core_x.Bytes.{Bytes, take, slice, put_le, get_le}
use go_core_x.Bytes.Equal.{bytes_eq}
use go_core_x.Storage.Wal.{
  WalError, truncated, Record, ReadRecord, read, end_of_file, failed, scan_all, record_at,
}
use go_core_x.Storage.Writer.{Writer, write, write_offset}
use go_core_x.Storage.Index.{HashIndex, new_hash_index, set, get, remove}

abbrev pub kv_record_type_set : ℕ
kv_record_type_set = 0x01

abbrev pub kv_record_type_del : ℕ
kv_record_type_del = 0x02

abbrev pub kv_record_type_meta : ℕ
kv_record_type_meta = 0x03

-- "__raft_last_applied__"
abbrev pub meta_key_last_applied : Bytes
meta_key_last_applied =
    0x5F ∷ 0x5F ∷ 0x72 ∷ 0x61 ∷ 0x66 ∷ 0x74 ∷ 0x5F ∷ 0x6C ∷ 0x61 ∷ 0x73 ∷ 0x74 ∷ 0x5F ∷ 0x61 ∷ 0x70
    ∷ 0x70 ∷ 0x6C ∷ 0x69 ∷ 0x65 ∷ 0x64 ∷ 0x5F ∷ 0x5F ∷ []

-- `appendString2`
abbrev pub string2 : Bytes → Bytes
string2 s = put_le 2 (length s) ++ s

unfoldable pub encode_kv_set : Bytes → Bytes → ℕ → Bytes
encode_kv_set key value raft_index =
    kv_record_type_set ∷ (put_le 8 raft_index ++ (string2 key ++ string2 value))

unfoldable pub encode_kv_del : Bytes → ℕ → Bytes
encode_kv_del key raft_index = kv_record_type_del ∷ (put_le 8 raft_index ++ string2 key)

unfoldable pub encode_kv_meta : Bytes → ℕ → Bytes
encode_kv_meta key raft_index =
    kv_record_type_meta ∷ (put_le 8 raft_index ++ (string2 key ++ string2 []))

pub record KvRecord : Type 0 where
  pub record_type : ℕ
  pub raft_index : ℕ
  pub key : Bytes
  pub value : Bytes

-- `readString2`: the string and what is left.
unfoldable pub read_string2 : Bytes → Option (Bytes × Bytes)
read_string2 bs =
    let n = get_le (slice 0 2 bs) in
    let rest = drop 2 bs in
    if ltb (length bs) 2
    then none
    else if ltb (length rest) n
    then none
    else some (take n rest, drop n rest)

-- The value behind the key, which a delete has not.
abbrev pub decode_value : ℕ → ℕ → Option (Bytes × Bytes) → Option KvRecord
decode_value t raft_index none = none
decode_value t raft_index (some (key, rest)) =
    if t == kv_record_type_set || t == kv_record_type_meta
    then (elim (read_string2 rest) [
      | none ↦ none
      | some (value, left) ↦
          some (record { record_type = t; raft_index = raft_index; key = key; value = value })
    ])
    else some (record { record_type = t; raft_index = raft_index; key = key; value = [] })

-- `none` for ErrCorrupted.
unfoldable pub decode_kv_record : Bytes → Option KvRecord
unfolding read_string2
decode_kv_record [] = none
decode_kv_record (t ∷ bs) =
    if ltb (length bs) 8
    then none
    else decode_value t (get_le (slice 0 8 bs)) (read_string2 (drop 8 bs))

pub record Store : Type 0 where
  pub index : HashIndex
  pub writer : Writer
  pub raft_last_applied : ℕ

-- `NewStore`
abbrev pub new_store : ℕ → Writer → Store
new_store max_keys writer = record {
  index = new_hash_index max_keys;
  writer = writer;
  raft_last_applied = 0;
}

pub data KvResult : Type 0 where
  ok reserved_key index_full bad_write bad_meta_write : KvResult

module _ (crc : Bytes → ℕ) (times : ℕ → ℕ) where
  -- `writeMetaLocked`: `true` for a nil error.
  unfoldable pub write_meta_locked : ℕ → Writer → Writer × Bool
  write_meta_locked raft_index w =
      write crc (times w.calls) (encode_kv_meta meta_key_last_applied raft_index) w

  -- The end of both calls: the checkpoint, and then the index of the entry.
  unfoldable pub checkpoint : ℕ → Store → Store × KvResult
  unfolding write_meta_locked
  checkpoint raft_index s =
      let (w, good) = write_meta_locked raft_index s.writer in
      if good
      then (record s { writer = w; raft_last_applied = raft_index }, ok)
      else (record s { writer = w }, bad_meta_write)

  -- Where the index is full, the checkpoint is still written, and what comes of it ignored.
  abbrev pub index_key : Bytes → ℕ → ℕ → Store → Store × KvResult
  index_key key offset raft_index s =
      let (idx, room) = set key offset s.index in
      if room
      then checkpoint raft_index (record s { index = idx })
      else (record s { writer = (write_meta_locked raft_index s.writer).0 }, index_full)

  abbrev pub set_written : Bytes → ℕ → Store → Writer × Option ℕ → Store × KvResult
  set_written key raft_index s (w, none) = (record s { writer = w }, bad_write)
  set_written key raft_index s (w, some offset) =
      index_key key offset raft_index (record s { writer = w })

  -- `WriteKV`
  unfoldable pub write_kv : Bytes → Bytes → ℕ → Store → Store × KvResult
  unfolding checkpoint
  write_kv key value raft_index s =
      if key == meta_key_last_applied
      then (s, reserved_key)
      else set_written key raft_index s
          (write_offset crc (times s.writer.calls) (encode_kv_set key value raft_index) s.writer)

  abbrev pub del_written : Bytes → ℕ → Store → Writer × Option ℕ → Store × KvResult
  del_written key raft_index s (w, none) = (record s { writer = w }, bad_write)
  del_written key raft_index s (w, some offset) =
      checkpoint raft_index (record s { writer = w; index = remove key s.index })

  -- `DeleteKV`
  unfoldable pub delete_kv : Bytes → ℕ → Store → Store × KvResult
  unfolding checkpoint
  delete_kv key raft_index s =
      if key == meta_key_last_applied
      then (s, reserved_key)
      else del_written key raft_index s
          (write_offset crc (times s.writer.calls) (encode_kv_del key raft_index) s.writer)

pub data GetResult : Type 0 where
  found : Bytes → GetResult
  missing unreadable undecodable : GetResult

abbrev pub get_decoded : Option KvRecord → GetResult
get_decoded none = undecodable
get_decoded (some r) = found r.value

abbrev pub get_read : ReadRecord → GetResult
get_read (read r rest) = get_decoded (decode_kv_record r.payload)
get_read end_of_file = unreadable
get_read (failed e) = unreadable

abbrev pub get_at : (Bytes → ℕ) → Bytes → Option ℕ → GetResult
get_at crc file none = missing
get_at crc file (some offset) = get_read (record_at crc file offset)

-- `GetKV`
unfoldable pub get_kv : (Bytes → ℕ) → Bytes → Store → GetResult
get_kv crc key s = get_at crc s.writer.file (get key s.index)

-- The loop of `RecoverKV`: the index, the last applied index that it has seen, and how it ended.
pub data RecoverEnd : Type 0 where
  whole bad_record no_room : RecoverEnd
  bad_scan : WalError → RecoverEnd

pub record Recovering : Type 0 where
  pub index : HashIndex
  pub offset : ℕ
  pub last_applied : ℕ

-- What one record does, with whether the index had room.
unfoldable pub recover_record : KvRecord → Recovering → Recovering × Bool
recover_record r s =
    if r.record_type == kv_record_type_set
    then (let (idx, room) = set r.key s.offset s.index in (record s { index = idx }, room))
    else if r.record_type == kv_record_type_del
    then (record s { index = remove r.key s.index }, true)
    else if r.record_type == kv_record_type_meta
    then (if r.key == meta_key_last_applied
        then (record s { last_applied = r.raft_index }, true)
        else (s, true))
    else (s, true)

abbrev pub past : Bytes → Recovering → Recovering
past payload s = record s { offset = s.offset + (16 + length payload + 4) }

pub recover_records : List Record → Recovering → Recovering × RecoverEnd
recover_records [] s = (s, whole)
recover_records (r ∷ rs) s = elim (decode_kv_record r.payload) [
  | none ↦ (s, bad_record)
  | some k ↦
      let (s', room) = recover_record k s in
      let rest = recover_records rs (past r.payload s') in if room then rest else (s', no_room)
]

abbrev pub recover_end : Option WalError → RecoverEnd → RecoverEnd
recover_end none whole = whole
recover_end (some truncated) whole = whole
recover_end (some e) whole = bad_scan e
recover_end e other = other

abbrev pub recovered_store : Store → Recovering → RecoverEnd → Store × ℕ × RecoverEnd
recovered_store s r whole =
    (record s { index = r.index; raft_last_applied = r.last_applied }, r.last_applied, whole)
recovered_store s r other = (record s { index = r.index }, r.last_applied, other)

-- `RecoverKV`: the store, the index that it returns, and how it ended, `whole` for a nil error.
unfoldable pub recover_kv : (Bytes → ℕ) → Store → Store × ℕ × RecoverEnd
unfolding recover_records
recover_kv crc s =
    let (rs, e) = scan_all crc s.writer.file in
    let (r, end) = recover_records rs (record { index = s.index; offset = 0; last_applied = 0 }) in
    recovered_store s r (recover_end e end)

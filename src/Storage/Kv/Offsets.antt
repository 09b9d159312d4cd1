-- ===== src/Storage/Kv/Offsets.antt =====
-- raft_store.go: the offset that the index has of a key.
use go_core_x.Prelude.{
  ℕ, ◌+◌, ◌^◌, ◌<◌, ◌≤◌, ◌≡◌, refl, ap, ◌∙◌, arith, true, false, some, [], ◌++◌, append_assoc,
  length, length-append, ◌==◌,
}
use go_core_x.Bytes.{Bytes}
use go_core_x.Bytes.Equal.{bytes_eq}
use go_core_x.Storage.Wal.{Record, encode_record, record_at}
use go_core_x.Storage.Wal.Records.{IsWritable, IsChecksum, record_at-encode}
use go_core_x.Storage.Writer.{done}
use go_core_x.Storage.Writer.Done.{write_done, write_offset_done}
use go_core_x.Storage.Index.{set, len}
use go_core_x.Storage.Index.Bounds.{set_room, get-set, index_bounded, length-set}
use go_core_x.Storage.Kv.{
  meta_key_last_applied, encode_kv_set, encode_kv_del, encode_kv_meta, Store, ok, write_meta_locked,
  checkpoint, write_kv, get_kv, get_at, get_read, get_decoded, found,
}
use go_core_x.Storage.Kv.Codec.{decode-encode_kv, encode_kv_set-short, encode_kv_meta-short}

-- The two records that a write adds to the file.
module _ (crc : Bytes → ℕ) (times : ℕ → ℕ) where
  abbrev pub set_record : Bytes → Bytes → ℕ → ℕ → Record
  set_record key value i calls = record {
    timestamp = times calls;
    payload = encode_kv_set key value i;
  }

  abbrev pub del_record : Bytes → ℕ → ℕ → Record
  del_record key i calls = record { timestamp = times calls; payload = encode_kv_del key i }

  abbrev pub meta_record : ℕ → ℕ → Record
  meta_record i calls = record {
    timestamp = times calls;
    payload = encode_kv_meta meta_key_last_applied i;
  }

  -- The store after a write that does not fail.
  abbrev pub stored : Bytes → Bytes → ℕ → Store → Store
  stored key value i s =
      let c = s.writer.calls in
      let bytes = encode_record crc (set_record key value i c) in
      record {
        index = (set key s.writer.size_tracker s.index).0;
        writer = record s.writer {
          file = (s.writer.file ++ bytes) ++ encode_record crc (meta_record i (c + 1));
          size_tracker = s.writer.size_tracker + length bytes;
          calls = c + 1 + 1;
        };
        raft_last_applied = i;
      }

  pub write_kv_done :
      (key value : Bytes) (i : ℕ) (s : Store)
      → ((n : ℕ) → s.writer.outcomes n ≡ done)
      → (key == meta_key_last_applied) ≡ false
      → (set key s.writer.size_tracker s.index).1 ≡ true
      → write_kv crc times key value i s ≡ (stored key value i s, ok)
  unfolding write_kv checkpoint write_meta_locked
  write_kv_done key value i s works free room =
      let bytes = encode_record crc (set_record key value i s.writer.calls) in
      let between = record s.writer {
        file = s.writer.file ++ bytes;
        size_tracker = s.writer.size_tracker + length bytes;
        calls = s.writer.calls + 1;
      } in
      rw
        (
          write_kv,
          free,
          write_offset_done crc (times s.writer.calls) (encode_kv_set key value i) s.writer works,
          room,
          write_done crc (times (s.writer.calls + 1)) (encode_kv_meta meta_key_last_applied i)
              between works,
        )
        refl

-- What a key and a value fit in.
pub record IsCommand (key value : Bytes) (i : ℕ) : Type 0 where
  pub user_key : (key == meta_key_last_applied) ≡ false
  pub key_size : length key < 2 ^ 16
  pub value_size : length value < 2 ^ 16
  pub index : i < 2 ^ 63

module _ (crc : Bytes → ℕ) (small : IsChecksum crc) (times : ℕ → ℕ)
    (early : (n : ℕ) → times n < 2 ^ 64) where
  pub set_record-IsWritable :
      (key value : Bytes) (i calls : ℕ)
      → IsCommand key value i
      → IsWritable (set_record crc times key value i calls)
  set_record-IsWritable key value i calls c = record {
    timestamp = early calls;
    size = encode_kv_set-short key value i c.key_size c.value_size;
  }

  pub meta_record-IsWritable : (i calls : ℕ) → IsWritable (meta_record crc times i calls)
  meta_record-IsWritable i calls = record {
    timestamp = early calls;
    size = encode_kv_meta-short meta_key_last_applied i (omega arith);
  }

  -- What is read where a record of the store starts.
  module _ (file before rest : Bytes) (offset : ℕ) (here : offset ≡ length before) where
    pub get_at-set :
        (key value : Bytes) (i calls : ℕ)
        → IsCommand key value i
        → file ≡ before ++ (encode_record crc (set_record crc times key value i calls) ++ rest)
        → get_at crc file (some offset) ≡ found value
    get_at-set key value i calls c f =
        ap (λ l. get_read (record_at crc l offset)) f
        ∙ ap get_read (
            record_at-encode crc small before (set_record crc times key value i calls)
              (set_record-IsWritable key value i calls c) rest offset here)
        ∙ ap get_decoded (decode-encode_kv key value i c.key_size c.value_size c.index).0

    get_at-meta :
        (i calls : ℕ)
        → i < 2 ^ 63
        → file ≡ before ++ (encode_record crc (meta_record crc times i calls) ++ rest)
        → get_at crc file (some offset) ≡ found []
    get_at-meta i calls c f =
        ap (λ l. get_read (record_at crc l offset)) f
        ∙ ap get_read (
            record_at-encode crc small before (meta_record crc times i calls)
              (meta_record-IsWritable i calls) rest offset here)
        ∙ ap get_decoded
            (decode-encode_kv meta_key_last_applied [] i (omega arith) (omega arith) c).2

  -- Two writes to a store that tracks its file's size, where nothing fails and there is room for two more keys: both
  -- return nil, and after the first its value is read; but of the key of the second the empty value is read, whatever
  -- value was written, since the index has the offset of the first write's checkpoint.
  pub second_write_lost :
      (k1 v1 k2 v2 : Bytes) (i1 i2 : ℕ) (s : Store)
      → ((n : ℕ) → s.writer.outcomes n ≡ done)
      → s.writer.size_tracker ≡ length s.writer.file
      → IsCommand k1 v1 i1
      → IsCommand k2 v2 i2
      → len s.index + 2 ≤ s.index.max_keys
      → let r1 = write_kv crc times k1 v1 i1 s in
        let r2 = write_kv crc times k2 v2 i2 r1.0 in
        (r1.1 ≡ ok)
        × (get_kv crc k1 r1.0 ≡ found v1)
        × (r2.1 ≡ ok)
        × (get_kv crc k2 r2.0 ≡ found [])
  unfolding get_kv
  second_write_lost k1 v1 k2 v2 i1 i2 s works tracked c1 c2 room =
      let offset = s.writer.size_tracker in
      let room1 = set_room k1 offset s.index (omega arith) in
      let s1 = stored crc times k1 v1 i1 s in
      let max : s1.index.max_keys ≡ s.index.max_keys =
        (index_bounded k1 offset s.index (omega arith)).2 in
      let room2 =
        set_room k2 s1.writer.size_tracker s1.index
          (omega (arith, length-set k1 offset s.index, max)) in
      let b1 = encode_record crc (set_record crc times k1 v1 i1 s.writer.calls) in
      let s2 = stored crc times k2 v2 i2 s1 in
      let b2 = encode_record crc (set_record crc times k2 v2 i2 s1.writer.calls) in
      let m2 = encode_record crc (meta_record crc times i2 (s1.writer.calls + 1)) in
      let m1 = encode_record crc (meta_record crc times i1 (s.writer.calls + 1)) in
      rw
        (
          write_kv_done crc times k1 v1 i1 s works c1.user_key room1,
          write_kv_done crc times k2 v2 i2 s1 works c2.user_key room2,
          get-set k1 offset s.index room1,
          get-set k2 s1.writer.size_tracker s1.index room2,
        )
        (
          refl,
          get_at-set s1.writer.file s.writer.file m1 offset tracked k1 v1 i1 s.writer.calls c1
              (append_assoc s.writer.file b1 m1),
          refl,
          get_at-meta s2.writer.file (s.writer.file ++ b1) (b2 ++ m2) s1.writer.size_tracker
              (omega (arith, tracked, length-append s.writer.file b1)) i1 (s.writer.calls + 1)
              c1.index
              (append_assoc ((s.writer.file ++ b1) ++ m1) b2 m2
                ∙ append_assoc (s.writer.file ++ b1) m1 (b2 ++ m2)),
        )

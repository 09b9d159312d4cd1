-- ===== src/Storage/Kv/Recovery/Steps.antt =====
-- raft_store.go: the loop of `RecoverKV` over the records of one write or one delete.
use go_core_x.Prelude.{
  ℕ, ◌+◌, ◌≤◌, ◌<◌, ◌^◌, ◌≡◌, refl, ◌∙◌, arith, true, Bool-cases, inl, inr, List, [], ◌∷◌, ◌++◌,
  append_assoc, length, length-append, Map, insert, delete, lookup-insert, lookup-delete, ◌==◌,
}
use go_core_x.Bytes.{Bytes}
use go_core_x.Bytes.Equal.{bytes_eq}
use go_core_x.Storage.Wal.{Record, encode_record}
use go_core_x.Storage.Wal.Records.{IsChecksum, length-encode_record}
use go_core_x.Storage.Index.{HashIndex, set, remove}
use go_core_x.Storage.Index.Bounds.{
  set_lem, set_room, length-set, length-remove, get-remove, max_keys-set, max_keys-remove,
}
use go_core_x.Storage.Kv.{
  meta_key_last_applied, Recovering, whole, recover_record, past, recover_records,
}
use go_core_x.Storage.Kv.Codec.{decode-encode_kv}
use go_core_x.Storage.Kv.Offsets.{set_record, del_record, meta_record, IsCommand, get_at-set}
use go_core_x.Storage.Kv.Recovery.{Finds, Recovered, recover_one}

module _ (crc : Bytes → ℕ) (small : IsChecksum crc) (times : ℕ → ℕ)
    (early : (n : ℕ) → times n < 2 ^ 64) where
  -- The index after a set, in the file with the set's record.
  Finds-set :
      (key value : Bytes) (i calls offset : ℕ) (file : Bytes) (m : Map Bytes Bytes)
      (idx : HashIndex)
      → IsCommand key value i
      → (set key offset idx).1 ≡ true
      → offset ≡ length file
      → Finds crc file m idx
      → Finds crc
          (file ++ encode_record crc (set_record crc times key value i calls))
          (insert key value m)
          (set key offset idx).0
  Finds-set key value i calls offset file m idx c room here f k more =
      let bytes = encode_record crc (set_record crc times key value i calls) in
      let shift = append_assoc file bytes more in
      rw (shift, (set_lem key offset idx).1 k, lookup-insert k key value m, room)
        (elim (Bool-cases (key == k)) [
          | inl same ↦ rw same (
              get_at-set crc small times early (file ++ (bytes ++ more)) file more offset here key
                value i calls c refl)
          | inr other ↦ rw other (f k (bytes ++ more))
        ])

  -- More in the file.
  Finds-append :
      (file bytes : Bytes) (m : Map Bytes Bytes) (idx : HashIndex)
      → Finds crc file m idx
      → Finds crc (file ++ bytes) m idx
  Finds-append file bytes m idx f k more = rw (append_assoc file bytes more) (f k (bytes ++ more))

  Finds-remove :
      (key file : Bytes) (m : Map Bytes Bytes) (idx : HashIndex)
      → Finds crc file m idx
      → Finds crc file (delete key m) (remove key idx)
  Finds-remove key file m idx f k more =
      rw (get-remove k key idx, lookup-delete k key m)
        (elim (Bool-cases (key == k)) [ inl same ↦ rw same refl | inr other ↦ rw other (f k more) ])

  -- The loop over a checkpoint.
  recover_meta :
      (i calls : ℕ) (rs : List Record) (r : Recovering)
      → i < 2 ^ 63
      → let p = meta_record crc times i calls in
        recover_records (p ∷ rs) r
        ≡ recover_records rs (past p.payload (record r { last_applied = i }))
  unfolding recover_record
  recover_meta i calls rs r h =
      recover_one (meta_record crc times i calls) rs
        (record { record_type = 3; raft_index = i; key = meta_key_last_applied; value = [] }) r
        (decode-encode_kv meta_key_last_applied [] i (omega arith) (omega arith) h).2 refl

  length_two :
      (offset : ℕ) (file : Bytes) (d p : Record)
      → offset ≡ length file
      → offset + (16 + length d.payload + 4) + (16 + length p.payload + 4)
        ≡ length ((file ++ encode_record crc d) ++ encode_record crc p)
  length_two offset file d p h = omega (
    arith,
    length-append (file ++ encode_record crc d) (encode_record crc p),
    length-append file (encode_record crc d),
    length-encode_record crc d,
    length-encode_record crc p,
  )

  module _ (m : Map Bytes Bytes) (applied size max : ℕ) (file : Bytes) (r : Recovering)
      (g : Recovered crc m applied size max file r) where
    pub put-Recovered :
        (key value : Bytes) (i c : ℕ)
        → IsCommand key value i
        → size + 1 ≤ max
        → let d = set_record crc times key value i c in
          let p = meta_record crc times i (c + 1) in
          (r' : Recovering) × (recover_records (d ∷ p ∷ []) r ≡ (r', whole))
          × Recovered crc
              (insert key value m)
              i
              (size + 1)
              max
              ((file ++ encode_record crc d) ++ encode_record crc p)
              r'
    unfolding recover_record recover_records
    put-Recovered key value i c w room =
        let d = set_record crc times key value i c in
        let p = meta_record crc times i (c + 1) in
        let idx = (set key r.offset r.index).0 in
        let fits = set_room key r.offset r.index (omega (arith, g.fits, g.bound)) in
        let r1 = past d.payload (record r { index = idx }) in
        (
          past p.payload (record r1 { last_applied = i }),
          recover_one d (p ∷ [])
                (record { record_type = 1; raft_index = i; key = key; value = value }) r
                (decode-encode_kv key value i w.key_size w.value_size w.index).0 fits
              ∙ recover_meta i (c + 1) [] r1 w.index,
          record {
            offset = length_two r.offset file d p g.offset;
            last_applied = refl;
            fits = omega (arith, length-set key r.offset r.index, g.fits);
            bound = max_keys-set key r.offset r.index ∙ g.bound;
            finds =
                Finds-append _ _ _ idx
                  (Finds-set key value i c r.offset file m r.index w fits g.offset g.finds);
          },
        )

    pub del-Recovered :
        (key : Bytes) (i c : ℕ)
        → IsCommand key [] i
        → let d = del_record crc times key i c in
          let p = meta_record crc times i (c + 1) in
          (r' : Recovering) × (recover_records (d ∷ p ∷ []) r ≡ (r', whole))
          × Recovered crc
              (delete key m)
              i
              (size + 1)
              max
              ((file ++ encode_record crc d) ++ encode_record crc p)
              r'
    unfolding recover_record recover_records
    del-Recovered key i c w =
        let d = del_record crc times key i c in
        let p = meta_record crc times i (c + 1) in
        let idx = remove key r.index in
        let r1 = past d.payload (record r { index = idx }) in
        (
          past p.payload (record r1 { last_applied = i }),
          recover_one d (p ∷ []) (record { record_type = 2; raft_index = i; key = key; value = [] })
                r (decode-encode_kv key [] i w.key_size w.value_size w.index).1 refl
              ∙ recover_meta i (c + 1) [] r1 w.index,
          record {
            offset = length_two r.offset file d p g.offset;
            last_applied = refl;
            fits = omega (arith, length-remove key r.index, g.fits);
            bound = max_keys-remove key r.index ∙ g.bound;
            finds =
                Finds-append _ _ _ idx
                  (Finds-append _ _ _ idx (Finds-remove key file m r.index g.finds));
          },
        )

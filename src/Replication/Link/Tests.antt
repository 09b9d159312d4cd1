-- ===== src/Replication/Link/Tests.antt =====
-- A replica that has the first of two records. The checksum depends on the length alone.
use go_core_x.Prelude.{ℕ, ◌%◌, ◌^◌, ◌≡◌, refl, ◌⊎◌, arith, some, List, [], ◌∷◌, ◌++◌, length}
use go_core_x.Bytes.{Bytes}
use go_core_x.Storage.Wal.{Record, encode_record}
use go_core_x.Storage.Wal.Records.{IsChecksum}
use go_core_x.Storage.Wal.Scan.{encode_records}
use go_core_x.Storage.Writer.{write_fails, done}
use go_core_x.Replication.Link.{
  Link, new_link, lag_bytes, Action, connects, streams, receives, grows, compacts, run,
}
use go_core_x.Replication.Link.Prefix.{IsPrefix, run-IsPrefix}
use go_core_x.Replication.Link.CaughtUp.{turns, turns_catch_up, compaction_appended}

abbrev toy_crc : Bytes → ℕ
toy_crc bs = length bs % 2 ^ 32

toy_crc-IsChecksum : IsChecksum toy_crc
toy_crc-IsChecksum bs = omega arith

abbrev first : Record
first = record { timestamp = 5; payload = 1 ∷ 2 ∷ [] }

abbrev second : Record
second = record { timestamp = 6; payload = 3 ∷ [] }

abbrev one_behind : Link
one_behind =
    new_link (encode_record toy_crc first ++ encode_records toy_crc (second ∷ []))
      (encode_record toy_crc first)

-- A delivery of which five bytes are written, and a new connection.
abbrev torn_delivery : List Action
torn_delivery =
    connects
    ∷ grows (1 ∷ [])
    ∷ streams
    ∷ receives (write_fails 5)
    ∷ connects
    ∷ streams
    ∷ receives done
    ∷ []

run-IsPrefix_example : let l = run toy_crc torn_delivery one_behind in IsPrefix l.replica l.primary
run-IsPrefix_example =
    run-IsPrefix toy_crc torn_delivery
      (encode_record toy_crc first ++ encode_records toy_crc (second ∷ []))
      (encode_record toy_crc first) (tt, (tt, (tt, (tt, (tt, (tt, (tt, tt)))))))
      (encode_records toy_crc (second ∷ []), refl)

turns_catch_up_example :
    let l' = run toy_crc (connects ∷ turns (second ∷ [])) one_behind in
    (l'.replica ≡ l'.primary)
    × (l'.primary ≡ one_behind.primary)
    × (lag_bytes l'.replica_lag ≡ 0)
    × ((second ∷ [] ≡ []) ⊎ (lag_bytes l'.primary_lag ≡ length l'.primary))
turns_catch_up_example =
    turns_catch_up toy_crc toy_crc-IsChecksum (second ∷ [])
      (record { timestamp = omega arith; size = omega arith }, tt) one_behind refl refl refl refl

-- A replica with the first record, that is connected.
abbrev in_touch : Link
in_touch = record one_behind { offset = some 22 }

compaction_appended_example :
    let l' =
      run toy_crc
        (compacts (encode_records toy_crc (second ∷ [])) ∷ turns (second ∷ []))
        in_touch in
    (l'.primary ≡ encode_records toy_crc (second ∷ []))
    × (l'.replica ≡ in_touch.replica ++ l'.primary)
compaction_appended_example =
    compaction_appended toy_crc toy_crc-IsChecksum (second ∷ [])
      (record { timestamp = omega arith; size = omega arith }, tt) in_touch 22 refl refl

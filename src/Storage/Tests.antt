-- ===== src/Storage/Tests.antt =====
-- A file with two records, and a store with two keys. The checksum depends on the length alone.
use go_core_x.Prelude.{
  Map, ◌++◌, ap, ◌∙◌, none, some, ℕ, ◌%◌, ◌^◌, ◌<◌, ◌≤◌, ◌≡◌, refl, arith, true, List, [], ◌∷◌,
  length, lookup,
}
use go_core_x.Bytes.{Bytes}
use go_core_x.Bytes.Equal.{bytes_eq}
use go_core_x.Storage.Wal.{Record, encode_record, read_record, scan, scan_all, scan_on}
use go_core_x.Storage.Wal.Records.{length-encode_record, IsChecksum}
use go_core_x.Storage.Wal.Scan.{scan_all_unrolls}
use go_core_x.Storage.Writer.{new_writer, interval, all_done}
use go_core_x.Storage.Index.{get, len}
use go_core_x.Storage.Kv.{Store, new_store, ok, write_kv, get_kv, found, whole, recover_kv}
use go_core_x.Storage.Kv.Offsets.{second_write_lost}
use go_core_x.Storage.Kv.Recovery.{expected}
use go_core_x.Storage.Kv.Recovery.Runs.{KvOp, put, del, map_run, store_run, recover_kv_lem}
use go_core_x.Storage.Kv.Bounded.{store_run_bounded}
use go_core_x.Storage.Events.Compact.{compact, compacted}
use go_core_x.Storage.Events.Compact.Kept.{Walks, IsReadable, compact_lem}
use go_core_x.Storage.Events.{
  event, event_at, Event, EventStore, not_found, all_read, new_event_store, get_event,
  recover_events,
}
use go_core_x.Storage.Events.Codec.{length-encode_event}
use go_core_x.Storage.Events.Calls.{
  call_record, stamped, IsCall, event_at-call, Call, expected_event, latest, all_stamped,
  write_events,
}
use go_core_x.Storage.Events.Runs.{recover_events_lem}

abbrev toy_crc : Bytes → ℕ
toy_crc bs = length bs % 2 ^ 32

toy_crc-IsChecksum : IsChecksum toy_crc
toy_crc-IsChecksum bs = omega arith

abbrev third : Record
third = record { timestamp = 7; payload = 4 ∷ [] }

scan_all_unrolls_example :
    (scan_all toy_crc (encode_record toy_crc third)
      ≡ scan_on (scan_all toy_crc) (read_record toy_crc (encode_record toy_crc third)))
    × ((n : ℕ)
        → length (encode_record toy_crc third) < n
        → scan n toy_crc (encode_record toy_crc third)
          ≡ scan_all toy_crc (encode_record toy_crc third))
scan_all_unrolls_example = scan_all_unrolls toy_crc (encode_record toy_crc third)

abbrev key_a : Bytes
key_a = 97 ∷ []

abbrev key_b : Bytes
key_b = 98 ∷ []

abbrev fresh : Store
fresh = new_store 4 (new_writer [] interval all_done)

abbrev noon : ℕ → ℕ
noon n = 1000

second_write_lost_example :
    let r1 = write_kv toy_crc noon key_a (1 ∷ []) 1 fresh in
    let r2 = write_kv toy_crc noon key_b (2 ∷ []) 2 r1.0 in
    (r1.1 ≡ ok)
    × (get_kv toy_crc key_a r1.0 ≡ found (1 ∷ []))
    × (r2.1 ≡ ok)
    × (get_kv toy_crc key_b r2.0 ≡ found [])
second_write_lost_example =
    second_write_lost toy_crc toy_crc-IsChecksum noon (λ n. omega arith) key_a (1 ∷ []) key_b
      (2 ∷ []) 1 2 fresh (λ n. refl) refl
      (record {
        user_key = refl;
        key_size = omega arith;
        value_size = omega arith;
        index = omega arith;
      })
      (record {
        user_key = refl;
        key_size = omega arith;
        value_size = omega arith;
        index = omega arith;
      })
      (omega arith)

abbrev three_calls : List KvOp
three_calls = put key_a (1 ∷ []) 1 ∷ put key_b (2 ∷ []) 2 ∷ del key_a 3 ∷ []

recover_kv_lem_example :
    let r = store_run toy_crc noon three_calls fresh in
    let file = r.0.writer.file in
    let back = recover_kv toy_crc (new_store 4 (new_writer file interval all_done)) in
    (r.1 ≡ true)
    × (back.1 ≡ 3)
    × (back.2 ≡ whole)
    × (back.0.raft_last_applied ≡ 3)
    × ((k : Bytes) → get_kv toy_crc k back.0 ≡ expected (lookup k (map_run three_calls [])))
recover_kv_lem_example =
    recover_kv_lem toy_crc toy_crc-IsChecksum noon (λ n. omega arith) three_calls 4 interval
      (
        record {
          user_key = refl;
          key_size = omega arith;
          value_size = omega arith;
          index = omega arith;
        },
        (
          record {
            user_key = refl;
            key_size = omega arith;
            value_size = omega arith;
            index = omega arith;
          },
          (
            record {
              user_key = refl;
              key_size = omega arith;
              value_size = omega arith;
              index = omega arith;
            },
            tt,
          ),
        ),
      )
      (omega arith)

store_run_bounded_example :
    (len (store_run toy_crc noon three_calls fresh).0.index ≤ 4)
    × ((store_run toy_crc noon three_calls fresh).0.index.max_keys ≡ 4)
store_run_bounded_example = store_run_bounded toy_crc noon three_calls fresh (omega arith)

abbrev call_of : Bytes → Bytes → ℕ → Call
call_of source payload now = record {
  now = now;
  event = record { source = source; payload = payload; received_at = 0 };
}

abbrev three_events : List Call
three_events = call_of key_a (1 ∷ []) 10 ∷ call_of key_b (2 ∷ 3 ∷ []) 11 ∷ call_of key_a [] 12 ∷ []

recover_events_lem_example :
    let r =
      write_events toy_crc three_events (new_event_store 3 (new_writer [] interval all_done)) in
    let back =
      recover_events toy_crc (new_event_store 3 (new_writer r.0.writer.file interval all_done)) in
    (r.1 ≡ true)
    × ((k : Bytes) → get_event toy_crc k r.0 ≡ expected_event (lookup k (latest three_events [])))
    × (back.1 ≡ all_stamped three_events)
    × (back.2 ≡ all_read)
    × ((k : Bytes)
        → get_event toy_crc k back.0 ≡ expected_event (lookup k (latest three_events [])))
recover_events_lem_example =
    recover_events_lem toy_crc toy_crc-IsChecksum three_events
      (
        (record { source_size = omega arith; payload_size = omega arith }, omega arith),
        (
          (record { source_size = omega arith; payload_size = omega arith }, omega arith),
          ((record { source_size = omega arith; payload_size = omega arith }, omega arith), tt),
        ),
      )
      3 interval (omega arith)

-- A store with two records of one key, of which the index has the second.
abbrev first_write : Call
first_write = call_of key_a (1 ∷ []) 10

abbrev second_write : Call
second_write = call_of key_a (2 ∷ []) 12

abbrev rewritten_order : Map Bytes ℕ
rewritten_order = (key_a, 26) ∷ []

abbrev rewritten : EventStore
rewritten = record {
  index = record { entries = rewritten_order; max_keys = 3 };
  writer =
      new_writer
        (encode_record toy_crc (call_record first_write)
          ++ (encode_record toy_crc (call_record second_write) ++ []))
        interval all_done;
}

rewritten-Walks : Walks rewritten_order rewritten.index
unfolding get lookup
rewritten-Walks = record { same = λ k. refl; once = (refl, tt); short = omega arith }

second_write-IsCall : IsCall second_write
second_write-IsCall =
    (record { source_size = omega arith; payload_size = omega arith }, omega arith)

second_write_read : event_at toy_crc rewritten.writer.file (some 26) ≡ event (stamped second_write)
second_write_read =
    event_at-call toy_crc toy_crc-IsChecksum second_write second_write-IsCall
      (encode_record toy_crc (call_record first_write)) [] 26
      (omega (
        arith,
        length-encode_record toy_crc (call_record first_write),
        length-encode_event first_write.event,
      ))

rewritten-IsReadable : IsReadable toy_crc rewritten.writer.file rewritten_order
unfolding lookup
rewritten-IsReadable k offset h =
    let this : offset ≡ 26 = ground (arith, h) in
    (
      stamped second_write,
      ap (λ o. event_at toy_crc rewritten.writer.file (some o)) this ∙ second_write_read,
      record { source_size = omega arith; payload_size = omega arith },
    )

compact_lem_example :
    (s' : EventStore) × (compact toy_crc noon all_done true true rewritten_order rewritten
      ≡ compacted s')
    × ((k : Bytes) → get k rewritten.index ≡ none → get_event toy_crc k s' ≡ not_found)
    × ((k : Bytes) (e : Event)
        → get_event toy_crc k rewritten ≡ event e
        → (n : ℕ) × (get_event toy_crc k s' ≡ event (record e { received_at = noon n })))
compact_lem_example =
    compact_lem toy_crc toy_crc-IsChecksum noon (λ n. omega arith) rewritten_order rewritten
      rewritten-Walks rewritten-IsReadable

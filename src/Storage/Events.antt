-- ===== src/Storage/Events.antt =====
-- The path of ingested events: internal/infrastructure/storage/wal, encode.go, `WriteEventOffset` and
-- `DecodeEvent`, and storage/kv/store.go. A string is the list of its bytes; the file that is read is
-- the writer's.
pub mod Codec
pub mod Calls
pub mod Runs
pub mod Compact
use go_core_x.Prelude.{
  ℕ, ◌+◌, Bool, true, false, Option, none, some, List, [], ◌∷◌, ◌++◌, drop, length, ltb,
  if◌then◌else◌,
}
use go_core_x.Bytes.{Bytes, take, slice, put_be, get_be}
use go_core_x.Storage.Wal.{
  WalError, truncated, Record, ReadRecord, read, end_of_file, failed, scan_all, record_at,
}
use go_core_x.Storage.Writer.{Writer, write_offset}
use go_core_x.Storage.Index.{HashIndex, new_hash_index, set, get}

-- The time is that of the record.
pub record Event : Type 0 where
  pub source : Bytes
  pub payload : Bytes
  pub received_at : ℕ

-- `appendEncodeEventInto`, `EncodeEvent`
unfoldable pub encode_event : Event → Bytes
encode_event e =
    put_be 2 (length e.source) ++ (e.source ++ (put_be 2 (length e.payload) ++ e.payload))

-- `none` for ErrCorrupted. The caller sets the time.
unfoldable pub decode_event : ℕ → Bytes → Option Event
decode_event now bs =
    let n = get_be (slice 0 2 bs) in
    let rest = drop n (drop 2 bs) in
    let size = get_be (slice 0 2 rest) in
    if ltb (length bs) 2
    then none
    else if ltb (length bs) (2 + n + 2)
    then none
    else if ltb (length bs) (2 + n + 2 + size)
    then none
    else some (record {
      source = take n (drop 2 bs);
      payload = take size (drop 2 rest);
      received_at = now;
    })

pub record EventStore : Type 0 where
  pub index : HashIndex
  pub writer : Writer

abbrev pub new_event_store : ℕ → Writer → EventStore
new_event_store max w = record { index = new_hash_index max; writer = w }

unfoldable pub write_event_offset : (Bytes → ℕ) → ℕ → Event → Writer → Writer × Option ℕ
write_event_offset crc now e w = write_offset crc now (encode_event e) w

abbrev pub indexed : Bytes → EventStore → Writer × Option ℕ → EventStore × Bool
indexed key s (w, none) = (record s { writer = w }, false)
indexed key s (w, some offset) =
    let (idx, room) = set key offset s.index in (record { index = idx; writer = w }, room)

-- `WriteEvent`: `true` for a nil error.
unfoldable pub write_event : (Bytes → ℕ) → ℕ → Event → EventStore → EventStore × Bool
unfolding write_event_offset
write_event crc now e s = indexed e.source s (write_event_offset crc now e s.writer)

pub data GetEvent : Type 0 where
  event : Event → GetEvent
  not_found unreadable undecodable : GetEvent

abbrev pub event_decoded : Option Event → GetEvent
event_decoded none = undecodable
event_decoded (some e) = event e

abbrev pub event_read : ReadRecord → GetEvent
event_read (read r rest) = event_decoded (decode_event r.timestamp r.payload)
event_read end_of_file = unreadable
event_read (failed e) = unreadable

abbrev pub event_at : (Bytes → ℕ) → Bytes → Option ℕ → GetEvent
event_at crc file none = not_found
event_at crc file (some offset) = event_read (record_at crc file offset)

-- `Get`
unfoldable pub get_event : (Bytes → ℕ) → Bytes → EventStore → GetEvent
get_event crc key s = event_at crc s.writer.file (get key s.index)

-- The loop of `Recover`: the index, the next offset, and the events that were handed to the
-- callback, whose number is the count.
pub record Recovery : Type 0 where
  pub index : HashIndex
  pub offset : ℕ
  pub events : List Event

pub data RecoveryEnd : Type 0 where
  all_read bad_event no_room : RecoveryEnd
  bad_scan : WalError → RecoveryEnd

pub recover_event_records : List Record → Recovery → Recovery × RecoveryEnd
recover_event_records [] s = (s, all_read)
recover_event_records (r ∷ rs) s = elim (decode_event r.timestamp r.payload) [
  | none ↦ (s, bad_event)
  | some e ↦
      let (idx, room) = set e.source s.offset s.index in
      let next : Recovery = record {
        index = idx;
        offset = s.offset + (16 + length r.payload + 4);
        events = s.events ++ e ∷ [];
      } in
      let rest = recover_event_records rs next in
      if room then rest else (record s { index = idx }, no_room)
]

abbrev pub recovery_end : Option WalError → RecoveryEnd → RecoveryEnd
recovery_end none end = end
recovery_end (some truncated) end = end
recovery_end (some e) all_read = bad_scan e
recovery_end (some e) end = end

-- `Recover`: the store, the events that were recovered, and how it ended.
unfoldable pub recover_events : (Bytes → ℕ) → EventStore → EventStore × List Event × RecoveryEnd
unfolding recover_event_records
recover_events crc s =
    let (rs, e) = scan_all crc s.writer.file in
    let (r, end) = recover_event_records rs (record { index = s.index; offset = 0; events = [] }) in
    (record s { index = r.index }, r.events, recovery_end e end)

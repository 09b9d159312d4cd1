-- ===== src/Storage/Events/Calls.antt =====
-- kv/store.go: `WriteEvent` calls that do not fail, and the index after one.
use go_core_x.Prelude.{
  ℕ, ◌+◌, ◌^◌, ◌<◌, ◌≡◌, refl, ap, ◌∙◌, arith, Bool, true, ◌&&◌, Bool-cases, inl, inr, Option, none,
  some, List, [], ◌∷◌, ◌++◌, append_assoc, length, ◌==◌, Map, lookup, insert, lookup-insert,
}
use go_core_x.Bytes.{Bytes}
use go_core_x.Bytes.Equal.{bytes_eq}
use go_core_x.Storage.Wal.{Record, encode_record}
use go_core_x.Storage.Wal.Records.{IsWritable, IsChecksum, record_at-encode}
use go_core_x.Storage.Wal.Scan.{AreWritable}
use go_core_x.Storage.Writer.{done}
use go_core_x.Storage.Writer.Done.{write_offset_done}
use go_core_x.Storage.Index.{HashIndex, get, set}
use go_core_x.Storage.Index.Bounds.{set_lem}
use go_core_x.Storage.Events.{
  Event, encode_event, EventStore, write_event_offset, write_event, GetEvent, event, not_found,
  event_read, event_decoded, event_at,
}
use go_core_x.Storage.Events.Codec.{IsEvent, length-encode_event, decode-encode_event}

-- A call, with the time of its record.
pub record Call : Type 0 where
  pub now : ℕ
  pub event : Event

abbrev pub call_record : Call → Record
call_record c = record { timestamp = c.now; payload = encode_event c.event }

abbrev pub call_records : List Call → List Record
call_records [] = []
call_records (c ∷ cs) = call_record c ∷ call_records cs

-- The event as it is read.
abbrev pub stamped : Call → Event
stamped c = record c.event { received_at = c.now }

abbrev pub all_stamped : List Call → List Event
all_stamped [] = []
all_stamped (c ∷ cs) = stamped c ∷ all_stamped cs

-- The last event of every source.
abbrev pub latest : List Call → Map Bytes Event → Map Bytes Event
latest [] m = m
latest (c ∷ cs) m = latest cs (insert c.event.source (stamped c) m)

abbrev pub IsCall : Call → Type 0
IsCall c = IsEvent c.event × (c.now < 2 ^ 64)

abbrev pub AreCalls : List Call → Type 0
AreCalls [] = Unit {0}
AreCalls (c ∷ cs) = IsCall c × AreCalls cs

abbrev pub expected_event : Option Event → GetEvent
expected_event none = not_found
expected_event (some e) = event e

abbrev pub write_events : (Bytes → ℕ) → List Call → EventStore → EventStore × Bool
write_events crc [] s = (s, true)
write_events crc (c ∷ cs) s =
    let r = write_event crc c.now c.event s in
    let rest = write_events crc cs r.0 in (rest.0, r.1 && rest.1)

pub call_record-IsWritable : (c : Call) → IsCall c → IsWritable (call_record c)
call_record-IsWritable c h = record {
  timestamp = h.1;
  size = omega (arith, length-encode_event c.event, h.0.source_size, h.0.payload_size);
}

pub call_records-AreWritable : (cs : List Call) → AreCalls cs → AreWritable (call_records cs)
call_records-AreWritable [] h = tt
call_records-AreWritable (c ∷ cs) h =
    (call_record-IsWritable c h.0, call_records-AreWritable cs h.1)

-- The index finds the events of a map in a file, also when more is appended to the file.
abbrev pub Finds : (Bytes → ℕ) → Bytes → Map Bytes Event → HashIndex → Type 0
Finds crc file m idx =
    (k more : Bytes) → event_at crc (file ++ more) (get k idx) ≡ expected_event (lookup k m)

module _ (crc : Bytes → ℕ) (small : IsChecksum crc) where
  pub event_at-call :
      (c : Call)
      → IsCall c
      → (before rest : Bytes) (offset : ℕ) → offset ≡ length before
      → event_at crc (before ++ (encode_record crc (call_record c) ++ rest)) (some offset)
        ≡ event (stamped c)
  event_at-call c h before rest offset here =
      ap event_read (
        record_at-encode crc small before (call_record c) (call_record-IsWritable c h) rest offset
          here)
      ∙ ap event_decoded (decode-encode_event c.now c.event h.0)

  pub Finds-set :
      (c : Call)
      → IsCall c
      → (offset : ℕ) (file : Bytes) (m : Map Bytes Event) (idx : HashIndex)
      → (set c.event.source offset idx).1 ≡ true
      → offset ≡ length file
      → Finds crc file m idx
      → Finds crc
          (file ++ encode_record crc (call_record c))
          (insert c.event.source (stamped c) m)
          (set c.event.source offset idx).0
  Finds-set c h offset file m idx room here f k more =
      let bytes = encode_record crc (call_record c) in
      let key = c.event.source in
      rw
        (
          append_assoc file bytes more,
          (set_lem key offset idx).1 k,
          lookup-insert k key (stamped c) m,
          room,
        )
        (elim (Bool-cases (key == k)) [
          | inl same ↦ rw same (event_at-call c h file more offset here)
          | inr other ↦ rw other (f k (bytes ++ more))
        ])

module _ (crc : Bytes → ℕ) where
  -- The store after a call that does not fail.
  abbrev pub called : Call → EventStore → EventStore
  called c s =
      let bytes = encode_record crc (call_record c) in
      record {
        index = (set c.event.source s.writer.size_tracker s.index).0;
        writer = record s.writer {
          file = s.writer.file ++ bytes;
          size_tracker = s.writer.size_tracker + length bytes;
          calls = s.writer.calls + 1;
        };
      }

  pub write_event_done :
      (c : Call) (s : EventStore)
      → ((n : ℕ) → s.writer.outcomes n ≡ done)
      → (set c.event.source s.writer.size_tracker s.index).1 ≡ true
      → write_event crc c.now c.event s ≡ (called c s, true)
  unfolding write_event write_event_offset
  write_event_done c s works room =
      rw (write_event, write_offset_done crc c.now (encode_event c.event) s.writer works, room) refl

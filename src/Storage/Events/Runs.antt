-- ===== src/Storage/Events/Runs.antt =====
-- kv/store.go: what `Get` finds after a sequence of `WriteEvent` calls, and the restart behind them.
use go_core_x.Prelude.{
  ℕ, ◌+◌, ◌≤◌, ◌≡◌, refl, sym, ap, ◌∙◌, arith, true, none, List, [], ◌∷◌, ◌++◌, append_assoc,
  append-nil, length, length-append, Map, lookup, insert,
}
use go_core_x.Bytes.{Bytes}
use go_core_x.Bytes.Equal.{bytes_eq}
use go_core_x.Storage.Wal.{Record, encode_record, scan_all}
use go_core_x.Storage.Wal.Records.{IsChecksum, length-encode_record}
use go_core_x.Storage.Wal.Scan.{encode_records, scan_all-encode}
use go_core_x.Storage.Writer.{SyncPolicy, done, all_done, new_writer}
use go_core_x.Storage.Index.{get, set, len}
use go_core_x.Storage.Index.Bounds.{set_room, length-set, max_keys-set}
use go_core_x.Storage.Events.{
  Event, encode_event, EventStore, new_event_store, event_at, get_event, Recovery, all_read,
  recover_event_records, recover_events,
}
use go_core_x.Storage.Events.Codec.{decode-encode_event}
use go_core_x.Storage.Events.Calls.{
  Call, call_record, call_records, stamped, all_stamped, latest, IsCall, AreCalls, expected_event,
  write_events, call_records-AreWritable, Finds, Finds-set, called, write_event_done,
}

module _ (crc : Bytes → ℕ) (small : IsChecksum crc) where
  -- What the loops of the calls and of a recovery do alike.
  record Follows (cs : List Call) (m : Map Bytes Event) (events : List Event) (s : EventStore)
      : Type 0 where
    succeeds : (write_events crc cs s).1 ≡ true
    file :
        (write_events crc cs s).0.writer.file
        ≡ s.writer.file ++ encode_records crc (call_records cs)
    finds :
        Finds crc
          (write_events crc cs s).0.writer.file
          (latest cs m)
          (write_events crc cs s).0.index
    back : Recovery
    recovers :
        recover_event_records
          (call_records cs)
          (record { index = s.index; offset = s.writer.size_tracker; events = events })
        ≡ (back, all_read)
    back_index : back.index ≡ (write_events crc cs s).0.index
    back_events : back.events ≡ events ++ all_stamped cs

  recover_event_one :
      (c : Call)
      → IsCall c
      → (rs : List Record) (s : Recovery) → (set c.event.source s.offset s.index).1 ≡ true
      → recover_event_records (call_record c ∷ rs) s
        ≡ recover_event_records rs (record {
          index = (set c.event.source s.offset s.index).0;
          offset = s.offset + length (encode_record crc (call_record c));
          events = s.events ++ stamped c ∷ [];
        })
  unfolding recover_event_records
  recover_event_one c h rs s room =
      let size : length (encode_record crc (call_record c))
          ≡ 16 + length (encode_event c.event) + 4 =
        length-encode_record crc (call_record c) in
      rw (recover_event_records, decode-encode_event c.now c.event h.0, room, size) refl

  follows :
      (cs : List Call)
      → AreCalls cs
      → (m : Map Bytes Event) (events : List Event) (s : EventStore)
      → ((n : ℕ) → s.writer.outcomes n ≡ done)
      → s.writer.size_tracker ≡ length s.writer.file
      → len s.index + length cs ≤ s.index.max_keys
      → Finds crc s.writer.file m s.index
      → Follows cs m events s
  unfolding recover_event_records
  follows [] h m events s works tracked room f = record {
    succeeds = refl;
    file = sym (append-nil s.writer.file);
    finds = f;
    back = record { index = s.index; offset = s.writer.size_tracker; events = events };
    recovers = refl;
    back_index = refl;
    back_events = sym (append-nil events);
  }
  follows (c ∷ cs) h m events s works tracked room f =
      let key = c.event.source in
      let offset = s.writer.size_tracker in
      let bytes = encode_record crc (call_record c) in
      let fits : (set key offset s.index).1 ≡ true =
        set_room key offset s.index (omega (arith, room)) in
      let one = write_event_done crc c s works fits in
      let rest : Follows cs (insert key (stamped c) m) (events ++ stamped c ∷ []) (called crc c s) =
        follows cs h.1 (insert key (stamped c) m) (events ++ stamped c ∷ []) (called crc c s) works
          (omega (arith, tracked, length-append s.writer.file bytes))
          (omega (arith, room, length-set key offset s.index, max_keys-set key offset s.index))
          (Finds-set crc small c h.0 offset s.writer.file m s.index fits tracked f) in
      record {
        succeeds = rw one rest.succeeds;
        file =
            rw one
              (rest.file ∙ append_assoc s.writer.file bytes (encode_records crc (call_records cs)));
        finds = rw one rest.finds;
        back = rest.back;
        recovers =
            recover_event_one c h.0 (call_records cs)
              (record { index = s.index; offset = offset; events = events }) fits
            ∙ rest.recovers;
        back_index = rw one rest.back_index;
        back_events = rest.back_events ∙ append_assoc events (stamped c ∷ []) (all_stamped cs);
      }

  -- After any `WriteEvent` calls on a new store whose bound leaves room for a key per call, in which nothing fails,
  -- every call returns nil, and `Get` of a source finds the last event that was written of it, with the time of its
  -- record, and finds no event of another source. `Recover` on the file in a new store hands all the events to the
  -- callback in the order of the calls, ends without an error, and `Get` finds the same events again.
  pub recover_events_lem :
      (cs : List Call)
      → AreCalls cs
      → (max : ℕ) (policy : SyncPolicy) → length cs ≤ max
      → let r = write_events crc cs (new_event_store max (new_writer [] policy all_done)) in
        let back =
          recover_events crc (new_event_store max (new_writer r.0.writer.file policy all_done)) in
        (r.1 ≡ true)
        × ((k : Bytes) → get_event crc k r.0 ≡ expected_event (lookup k (latest cs [])))
        × (back.1 ≡ all_stamped cs)
        × (back.2 ≡ all_read)
        × ((k : Bytes) → get_event crc k back.0 ≡ expected_event (lookup k (latest cs [])))
  unfolding recover_events get_event get lookup
  recover_events_lem cs h max policy room =
      let s = new_event_store max (new_writer [] policy all_done) in
      let r = write_events crc cs s in
      let g : Follows cs [] [] s =
        follows cs h [] [] s (λ n. refl) refl (omega (arith, room)) λ k more. refl in
      let scanned : scan_all crc r.0.writer.file ≡ (call_records cs, none) =
        ap (scan_all crc) g.file
        ∙ scan_all-encode crc small (call_records cs) (call_records-AreWritable cs h) in
      let here : (k : Bytes)
          → event_at crc r.0.writer.file (get k r.0.index)
            ≡ expected_event (lookup k (latest cs [])) =
        λ k.
          ap (λ l. event_at crc l (get k r.0.index)) (sym (append-nil r.0.writer.file))
          ∙ g.finds k [] in
      let again = new_event_store max (new_writer r.0.writer.file policy all_done) in
      let back : recover_events crc again
          ≡ (record again { index = g.back.index }, g.back.events, all_read) =
        rw (recover_events, scanned, g.recovers) refl in
      (
        g.succeeds,
        here,
        ap (λ b. b.1) back ∙ g.back_events,
        ap (λ b. b.2) back,
        λ k.
            ap (λ b. get_event crc k b.0) back
            ∙ ap (λ idx. event_at crc r.0.writer.file (get k idx)) g.back_index
            ∙ here k,
      )

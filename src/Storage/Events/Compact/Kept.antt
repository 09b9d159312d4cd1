-- ===== src/Storage/Events/Compact/Kept.antt =====
-- `Compact`: the events that `Get` finds behind it.
use go_core_x.Prelude.{
  ℕ, ◌+◌, ◌^◌, ◌≤◌, ◌<◌, ◌≡◌, refl, sym, ap, ◌∙◌, arith, Bool, true, false, Bool-cases,
  Option-cases, inl, inr, none, some, [], ◌∷◌, ◌++◌, append_assoc, append-nil, length,
  length-append, ◌==◌, same_self, Map, lookup, insert, lookup-insert,
}
use go_core_x.Bytes.{Bytes}
use go_core_x.Bytes.Equal.{bytes_eq}
use go_core_x.Storage.Wal.{encode_record}
use go_core_x.Storage.Wal.Records.{IsChecksum}
use go_core_x.Storage.Writer.{Writer, never, done, all_done, new_writer}
use go_core_x.Storage.Writer.Done.{write_offset_done}
use go_core_x.Storage.Index.{HashIndex, new_hash_index, get, set, len}
use go_core_x.Storage.Index.Bounds.{set_lem, set_room, length-set, max_keys-set}
use go_core_x.Storage.Events.{
  Event, EventStore, encode_event, write_event_offset, event, not_found, event_at, get_event,
}
use go_core_x.Storage.Events.Codec.{IsEvent}
use go_core_x.Storage.Events.Calls.{Call, call_record, stamped, expected_event, event_at-call}
use go_core_x.Storage.Events.Compact.{
  write_compacted_wal, rebuild, compacted, untouched, swapped, compact,
}

-- Every key stands once.
abbrev pub Distinct : Map Bytes ℕ → Type 0
Distinct [] = Unit {0}
Distinct ((k, v) ∷ m) = (lookup k m ≡ none) × Distinct m

Distinct-insert : (k : Bytes) (v : ℕ) (m : Map Bytes ℕ) → Distinct m → Distinct (insert k v m)
unfolding lookup insert
Distinct-insert k v [] d = (refl, tt)
Distinct-insert k v ((j, w) ∷ m) d = elim (Bool-cases (j == k)) [
  | inl same ↦ rw same (ground (arith, same, d.0, bytes_eq.same_iff j k), d.1)
  | inr other ↦ rw other (
    ground (arith, other, d.0, lookup-insert j k v m, bytes_eq.same_iff k j, bytes_eq.same_iff j k),
    Distinct-insert k v m d.1,
  )
]

length-insert_le : (k : Bytes) (v : ℕ) (m : Map Bytes ℕ) → length (insert k v m) ≤ length m + 1
unfolding insert
length-insert_le k v [] = omega arith
length-insert_le k v ((j, w) ∷ m) = ground (arith, length-insert_le k v m)

-- The index that is built of distinct keys finds what they stand for.
rebuild_lem :
    (m : Map Bytes ℕ) (idx : HashIndex)
    → Distinct m
    → len idx + length m ≤ idx.max_keys
    → ((rebuild m idx).1 ≡ true)
      × ((k : Bytes)
          → get k (rebuild m idx).0 ≡ elim (lookup k m) [ some v ↦ some v | none ↦ get k idx ])
unfolding rebuild lookup
rebuild_lem [] idx d room = (refl, λ k. refl)
rebuild_lem ((j, v) ∷ m) idx d room =
    let fits : (set j v idx).1 ≡ true = set_room j v idx (omega (arith, room)) in
    let (good, finds) =
      rebuild_lem m (set j v idx).0 d.1
        (omega (arith, room, length-set j v idx, max_keys-set j v idx)) in
    (
      rw fits good,
      λ k.
          rw fits
            (ground (arith, finds k, (set_lem j v idx).1 k, fits, d.0, bytes_eq.same_iff j k)),
    )

-- Of the keys that are walked there are events to read.
abbrev pub IsReadable : (Bytes → ℕ) → Bytes → Map Bytes ℕ → Type 0
IsReadable crc file order =
    (k : Bytes) (offset : ℕ)
    → lookup k order ≡ some offset
    → (e : Event) × (event_at crc file (some offset) ≡ event e) × IsEvent e

-- Offsets find the events of a map in a file, also when more is appended to it.
abbrev FindsAll : (Bytes → ℕ) → Bytes → Map Bytes Event → Map Bytes ℕ → Type 0
FindsAll crc file m offsets =
    (k more : Bytes) → event_at crc (file ++ more) (lookup k offsets) ≡ expected_event (lookup k m)

-- What the loop makes of the offsets that are walked, and of those that it has.
record IsCopied (crc : Bytes → ℕ) (times : ℕ → ℕ) (file : Bytes) (order : Map Bytes ℕ) (w : Writer)
    (offsets : Map Bytes ℕ) (m : Map Bytes Event) : Type 0 where
  writer : Writer
  new_offsets : Map Bytes ℕ
  events : Map Bytes Event
  runs : write_compacted_wal crc times file order w offsets ≡ some (writer, new_offsets)
  finds : FindsAll crc writer.file events new_offsets
  distinct : Distinct new_offsets
  short : length new_offsets ≤ length offsets + length order
  other : (k : Bytes) → lookup k order ≡ none → lookup k events ≡ lookup k m
  walked :
      (k : Bytes) (offset : ℕ) (e : Event)
      → lookup k order ≡ some offset
      → event_at crc file (some offset) ≡ event e
      → (n : ℕ) × (lookup k events ≡ some (record e { received_at = times n }))

module _ (crc : Bytes → ℕ) (small : IsChecksum crc) (times : ℕ → ℕ)
    (early : (n : ℕ) → times n < 2 ^ 64) (file : Bytes) where
  -- The new file and the offsets after one more event.
  abbrev copy_call : Event → Writer → Call
  copy_call e w = record { now = times w.calls; event = e }

  abbrev copy_writer : Event → Writer → Writer
  copy_writer e w =
      let bytes = encode_record crc (call_record (copy_call e w)) in
      record w {
        file = w.file ++ bytes;
        size_tracker = w.size_tracker + length bytes;
        calls = w.calls + 1;
      }

  FindsAll-insert :
      (key : Bytes) (e : Event) (w : Writer) (offsets : Map Bytes ℕ) (m : Map Bytes Event)
      → IsEvent e
      → w.size_tracker ≡ length w.file
      → FindsAll crc w.file m offsets
      → FindsAll crc
          (copy_writer e w).file
          (insert key (stamped (copy_call e w)) m)
          (insert key w.size_tracker offsets)
  FindsAll-insert key e w offsets m fits tracked f k more =
      let c = copy_call e w in
      let bytes = encode_record crc (call_record c) in
      rw
        (
          append_assoc w.file bytes more,
          lookup-insert k key w.size_tracker offsets,
          lookup-insert k key (stamped c) m,
        )
        (elim (Bool-cases (key == k)) [
          | inl same ↦
              rw same
                (event_at-call crc small c (fits, early w.calls) w.file more w.size_tracker tracked)
          | inr other ↦ rw other (f k (bytes ++ more))
        ])

  copy_one :
      (key : Bytes) (old : ℕ) (e : Event) (rest : Map Bytes ℕ) (w : Writer) (offsets : Map Bytes ℕ)
      → ((n : ℕ) → w.outcomes n ≡ done)
      → event_at crc file (some old) ≡ event e
      → write_compacted_wal crc times file ((key, old) ∷ rest) w offsets
        ≡ write_compacted_wal crc times file rest
            (copy_writer e w)
            (insert key w.size_tracker offsets)
  unfolding write_compacted_wal write_event_offset
  copy_one key old e rest w offsets works q =
      rw (write_compacted_wal, q)
        (ap
          (λ r. elim r.1 [
            | none ↦ none
            | some offset ↦ write_compacted_wal crc times file rest r.0 (insert key offset offsets)
          ])
          (write_offset_done crc (times w.calls) (encode_event e) w works))

  copies :
      (order : Map Bytes ℕ) (w : Writer) (offsets : Map Bytes ℕ) (m : Map Bytes Event)
      → Distinct order
      → IsReadable crc file order
      → ((n : ℕ) → w.outcomes n ≡ done)
      → w.size_tracker ≡ length w.file
      → FindsAll crc w.file m offsets
      → Distinct offsets
      → IsCopied crc times file order w offsets m
  unfolding lookup write_compacted_wal
  copies [] w offsets m d r works tracked f do_ = record {
    writer = w;
    new_offsets = offsets;
    events = m;
    runs = refl;
    finds = f;
    distinct = do_;
    short = omega arith;
    other = λ k h. refl;
    walked = λ k offset e h q. cc;
  }
  copies ((key, old) ∷ rest) w offsets m d r works tracked f do_ =
      let first : lookup key ((key, old) ∷ rest) ≡ some old = ground (arith, same_self key) in
      let (e, q, fits) = r key old first in
      let c = copy_call e w in
      let bytes = encode_record crc (call_record c) in
      let next =
        copies rest (copy_writer e w) (insert key w.size_tracker offsets) (insert key (stamped c) m)
          d.1 (λ k offset h. r k offset (ground (arith, h, d.0, bytes_eq.same_iff key k))) works
          (omega (arith, tracked, length-append w.file bytes))
          (FindsAll-insert key e w offsets m fits tracked f)
          (Distinct-insert key w.size_tracker offsets do_) in
      record {
        writer = next.writer;
        new_offsets = next.new_offsets;
        events = next.events;
        runs = copy_one key old e rest w offsets works q ∙ next.runs;
        finds = next.finds;
        distinct = next.distinct;
        short = omega (arith, next.short, length-insert_le key w.size_tracker offsets);
        other = λ k h. ground (arith, h, next.other k, lookup-insert k key (stamped c) m);
        walked = λ k offset e' h q'. elim (Bool-cases (key == k)) [
          | inl same ↦
              let absent : lookup k rest ≡ none =
                ground (arith, same, d.0, bytes_eq.same_iff key k) in
              let this : e' ≡ e = ground (arith, h, same, q, q') in
              (
                w.calls,
                next.other k absent ∙ ground (arith, same, this, lookup-insert k key (stamped c) m),
              )
          | inr differs ↦ next.walked k offset e' (ground (arith, h, differs)) q'
        ];
      }

-- The keys of a store's index, each once, in any order.
pub record Walks (order : Map Bytes ℕ) (idx : HashIndex) : Type 0 where
  pub same : (k : Bytes) → lookup k order ≡ get k idx
  pub once : Distinct order
  pub short : length order ≤ idx.max_keys

swapped_lem :
    (s : EventStore) (w : Writer) (r : HashIndex × Bool)
    → r.1 ≡ true
    → swapped s w r
      ≡ compacted (record {
        index = r.0;
        writer = record s.writer { file = w.file; size_tracker = length w.file };
      })
swapped_lem s w (idx, true) h = refl
swapped_lem s w (idx, false) h = cc

module _ (crc : Bytes → ℕ) (times : ℕ → ℕ) (order : Map Bytes ℕ) (s : EventStore)
    (walk : Walks order s.index)
    (c : IsCopied crc times s.writer.file order (new_writer [] never all_done) [] []) where
  abbrev built : HashIndex × Bool
  built = rebuild c.new_offsets (new_hash_index s.index.max_keys)

  -- The store behind the swap.
  abbrev after_swap : EventStore
  after_swap = record {
    index = built.0;
    writer = record s.writer { file = c.writer.file; size_tracker = length c.writer.file };
  }

  built_lem : (built.1 ≡ true) × ((k : Bytes) → get k built.0 ≡ lookup k c.new_offsets)
  unfolding get lookup
  built_lem =
      let (good, finds) =
        rebuild_lem c.new_offsets (new_hash_index s.index.max_keys) c.distinct
          (omega (arith, c.short, walk.short)) in
      (
        good,
        λ k. elim (Option-cases (lookup k c.new_offsets)) [
          | inl q ↦ ground (arith, finds k, q)
          | inr (v, q) ↦ ground (arith, finds k, q)
        ],
      )

  compact_runs : compact crc times all_done true true order s ≡ compacted after_swap
  unfolding compact
  compact_runs =
      ap
        (λ r. elim r [
          | none ↦ untouched
          | some (w, offsets) ↦ swapped s w (rebuild offsets (new_hash_index s.index.max_keys))
        ])
        c.runs
      ∙ swapped_lem s c.writer built built_lem.0

  get_event-after_swap :
      (k : Bytes) → get_event crc k after_swap ≡ expected_event (lookup k c.events)
  unfolding get_event
  get_event-after_swap k =
      ap (event_at crc c.writer.file) (built_lem.1 k)
      ∙ ap (λ l. event_at crc l (lookup k c.new_offsets)) (sym (append-nil c.writer.file))
      ∙ c.finds k []

  missing_after : (k : Bytes) → get k s.index ≡ none → get_event crc k after_swap ≡ not_found
  unfolding lookup
  missing_after k h = get_event-after_swap k ∙ ap expected_event (c.other k (walk.same k ∙ h))

  found_after :
      (k : Bytes) (e : Event)
      → get_event crc k s ≡ event e
      → (n : ℕ) × (get_event crc k after_swap ≡ event (record e { received_at = times n }))
  unfolding get_event
  found_after k e h = elim (Option-cases (get k s.index)) [
    | inl q ↦ absurd (cc (rw q at h))
    | inr (offset, q) ↦
        let (n, p) = c.walked k offset e (walk.same k ∙ q) (rw q at h) in
        (n, get_event-after_swap k ∙ ap expected_event p)
  ]

-- Let a store have an event to read at every offset of its index, and let nothing fail. Then Compact succeeds
-- whatever the order in which it walks the index, and afterwards Get of a key finds the same source and payload as
-- before, or nothing where it found nothing; the time that it gives is one of the compaction, not that of the event.
pub compact_lem :
    (crc : Bytes → ℕ)
    → IsChecksum crc
    → (times : ℕ → ℕ) → ((n : ℕ) → times n < 2 ^ 64)
    → (order : Map Bytes ℕ) (s : EventStore) → Walks order s.index
    → IsReadable crc s.writer.file order
    → (s' : EventStore) × (compact crc times all_done true true order s ≡ compacted s')
      × ((k : Bytes) → get k s.index ≡ none → get_event crc k s' ≡ not_found)
      × ((k : Bytes) (e : Event)
          → get_event crc k s ≡ event e
          → (n : ℕ) × (get_event crc k s' ≡ event (record e { received_at = times n })))
unfolding lookup
compact_lem crc small times early order s walk readable =
    let c =
      copies crc small times early s.writer.file order (new_writer [] never all_done) [] []
        walk.once readable (λ n. refl) refl (λ k more. refl) tt in
    (
      after_swap crc times order s walk c,
      compact_runs crc times order s walk c,
      missing_after crc times order s walk c,
      found_after crc times order s walk c,
    )

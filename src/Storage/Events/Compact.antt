-- ===== src/Storage/Events/Compact.antt =====
-- kv/compact.go: the rewrite of a log file with the latest record of each key. The order in which the
-- index is walked is given, and so is how the calls of the operating system end.
pub mod Kept
use go_core_x.Prelude.{
  ℕ, ◌+◌, Bool, true, false, Option, none, some, List, [], ◌∷◌, length, if◌then◌else◌, Map, insert,
}
use go_core_x.Bytes.{Bytes}
use go_core_x.Bytes.Equal.{bytes_eq}
use go_core_x.Storage.Writer.{Writer, never, Outcome, new_writer}
use go_core_x.Storage.Index.{HashIndex, new_hash_index, set}
use go_core_x.Storage.Events.{
  Event, EventStore, write_event_offset, GetEvent, event, not_found, unreadable, undecodable,
  event_at,
}

module _ (crc : Bytes → ℕ) (times : ℕ → ℕ) where
  -- The loop of `writeCompactedWAL`: the writer of the new file, and the new offsets.
  unfoldable pub write_compacted_wal :
      Bytes → List (Bytes × ℕ) → Writer → Map Bytes ℕ → Option (Writer × Map Bytes ℕ)
  write_compacted_wal file [] w offsets = some (w, offsets)
  write_compacted_wal file ((key, old_offset) ∷ rest) w offsets =
      elim (event_at crc file (some old_offset)) [
        | event e ↦
            let (w', written) = write_event_offset crc (times w.calls) e w in
            elim written [
              | none ↦ none
              | some offset ↦ write_compacted_wal file rest w' (insert key offset offsets)
            ]
        | not_found ↦ none
        | unreadable ↦ none
        | undecodable ↦ none
      ]

-- The index of the new offsets; `false` for ErrIndexFull.
unfoldable pub rebuild : Map Bytes ℕ → HashIndex → HashIndex × Bool
rebuild [] idx = (idx, true)
rebuild ((key, offset) ∷ rest) idx =
    let (idx', room) = set key offset idx in
    let built = rebuild rest idx' in if room then built else (idx', false)

-- An error before the rename leaves the store as it is; one behind it leaves the store with a file
-- that it does not read.
pub data Compacted : Type 0 where
  compacted : EventStore → Compacted
  untouched broken : Compacted

abbrev pub swapped : EventStore → Writer → HashIndex × Bool → Compacted
swapped s w (idx, true) = compacted (record {
  index = idx;
  writer = record s.writer { file = w.file; size_tracker = length w.file };
})
swapped s w (idx, false) = broken

-- `Compact`: `renamed` says whether the calls up to the rename succeed, `reopened` those behind it.
unfoldable pub compact :
    (Bytes → ℕ) → (ℕ → ℕ) → (ℕ → Outcome) → Bool → Bool → List (Bytes × ℕ) → EventStore → Compacted
unfolding write_compacted_wal rebuild
compact crc times outcomes renamed reopened order s =
    elim (write_compacted_wal crc times s.writer.file order (new_writer [] never outcomes) []) [
      | none ↦ untouched
      | some (w, offsets) ↦
          if renamed
          then if reopened
            then swapped s w (rebuild offsets (new_hash_index s.index.max_keys))
            else broken
          else untouched
    ]

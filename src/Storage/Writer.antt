-- ===== src/Storage/Writer.antt =====
-- internal/infrastructure/storage/wal/writer.go: the writer of a log file. How each call of the
-- operating system ends is decided outside the writer.
pub mod Done
use go_core_x.Prelude.{ℕ, ◌+◌, Bool, true, false, Option, none, some, ◌++◌, length, if◌then◌else◌}
use go_core_x.Bytes.{Bytes, take}
use go_core_x.Storage.Wal.{Record, encode_record}

pub data SyncPolicy : Type 0 where
  immediate interval never : SyncPolicy

-- How the file takes the bytes of one record: all of them; only the first `n`, with an error; or all
-- of them, with an error of the fsync that follows.
pub data Outcome : Type 0 where
  done : Outcome
  write_fails : ℕ → Outcome
  sync_fails : Outcome

abbrev pub all_done : ℕ → Outcome
all_done n = done

pub record Writer : Type 0 where
  pub file : Bytes
  pub size_tracker : ℕ
  pub policy : SyncPolicy
  pub outcomes : ℕ → Outcome
  pub calls : ℕ

-- `NewWriter` on a file: the tracked size is the file's.
abbrev pub new_writer : Bytes → SyncPolicy → (ℕ → Outcome) → Writer
new_writer file policy outcomes = record {
  file = file;
  size_tracker = length file;
  policy = policy;
  outcomes = outcomes;
  calls = 0;
}

-- Only with SyncImmediate does a write call fsync.
abbrev pub seen : SyncPolicy → Outcome → Outcome
seen immediate o = o
seen _ done = done
seen _ (write_fails n) = write_fails n
seen _ sync_fails = done

-- What the file has of the record afterwards.
abbrev pub landed : Outcome → Bytes → Bytes
landed done bytes = bytes
landed (write_fails n) bytes = take n bytes
landed sync_fails bytes = bytes

abbrev pub is_done : Outcome → Bool
is_done done = true
is_done _ = false

-- One call: the file and the count of the calls after it, and how it went.
unfoldable pub put_bytes : Bytes → Writer → Writer × Outcome
put_bytes bytes w =
    let o = seen w.policy (w.outcomes w.calls) in
    (record w { file = w.file ++ landed o bytes; calls = w.calls + 1 }, o)

-- `Write`: `true` for a nil error. It does not move the tracked size.
unfoldable pub write : (Bytes → ℕ) → ℕ → Bytes → Writer → Writer × Bool
unfolding put_bytes
write crc now payload w =
    let (w', o) = put_bytes (encode_record crc (record { timestamp = now; payload = payload })) w in
    (w', is_done o)

-- The tracked size after a call that has written all the bytes.
abbrev advance : ℕ → Writer × Outcome → Writer
advance n (w, write_fails k) = w
advance n (w, done) = record w { size_tracker = w.size_tracker + n }
advance n (w, sync_fails) = record w { size_tracker = w.size_tracker + n }

-- `WriteOffset`: the tracked size before the record, `none` for an error.
unfoldable pub write_offset : (Bytes → ℕ) → ℕ → Bytes → Writer → Writer × Option ℕ
unfolding put_bytes
write_offset crc now payload w =
    let bytes = encode_record crc (record { timestamp = now; payload = payload }) in
    let r = put_bytes bytes w in
    (advance (length bytes) r, if is_done r.1 then some w.size_tracker else none)

-- ===== src/Storage/Writer/Done.antt =====
-- writer.go: calls that do not fail.
use go_core_x.Prelude.{ℕ, ◌+◌, ◌≡◌, refl, true, some, ◌++◌, length}
use go_core_x.Bytes.{Bytes}
use go_core_x.Storage.Wal.{encode_record}
use go_core_x.Storage.Writer.{
  SyncPolicy, immediate, interval, never, done, Writer, seen, put_bytes, write, write_offset,
}

seen_done : (p : SyncPolicy) → seen p done ≡ done
seen_done immediate = refl
seen_done interval = refl
seen_done never = refl

pub write_done :
    (crc : Bytes → ℕ) (now : ℕ) (bs : Bytes) (w : Writer)
    → ((n : ℕ) → w.outcomes n ≡ done)
    → write crc now bs w ≡ (
      record w {
        file = w.file ++ encode_record crc (record { timestamp = now; payload = bs });
        calls = w.calls + 1;
      },
      true,
    )
unfolding write put_bytes
write_done crc now bs w h = rw (h w.calls, seen_done w.policy) refl

pub write_offset_done :
    (crc : Bytes → ℕ) (now : ℕ) (bs : Bytes) (w : Writer)
    → ((n : ℕ) → w.outcomes n ≡ done)
    → let bytes = encode_record crc (record { timestamp = now; payload = bs }) in
      write_offset crc now bs w ≡ (
        record w {
          file = w.file ++ bytes;
          size_tracker = w.size_tracker + length bytes;
          calls = w.calls + 1;
        },
        some w.size_tracker,
      )
unfolding write_offset put_bytes
write_offset_done crc now bs w h = rw (h w.calls, seen_done w.policy) refl

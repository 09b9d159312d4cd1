-- ===== src/Storage/Wal.antt =====
-- internal/infrastructure/storage/wal, reader.go, and the format of
-- a record in writer.go: the records of a log file and how they are read back. The checksum of hash/crc32 is a parameter, a number below 2 ^ 32.
pub mod Records
pub mod Scan
pub mod Torn
use go_core_x.Prelude.{
  ℕ, zero, suc, ◌+◌, ◌*◌, Bool, true, false, Option, none, some, List, [], ◌∷◌, ◌++◌, length, drop,
  ◌==◌, nat_eq, if◌then◌else◌,
}
use go_core_x.Bytes.{Bytes, slice, put_be, get_be, ReadFull, full, eof, unexpected_eof, read_full}

abbrev pub magic_number : ℕ
magic_number = 0xCAFEBABE

abbrev pub record_header_size : ℕ
record_header_size = 4 + 8 + 4

abbrev pub record_checksum_size : ℕ
record_checksum_size = 4

-- The timestamp is in nanoseconds.
pub record Record : Type 0 where
  pub timestamp : ℕ
  pub payload : Bytes

pub data WalError : Type 0 where
  truncated corrupted checksum_mismatch : WalError

abbrev pub record_header : Record → Bytes
record_header r = put_be 4 magic_number ++ (put_be 8 r.timestamp ++ put_be 4 (length r.payload))

-- The bytes of a record: header, payload and checksum.
pub encode_record : (Bytes → ℕ) → Record → Bytes
encode_record crc r =
    record_header r ++ (r.payload ++ put_be 4 (crc (record_header r ++ r.payload)))

-- `readRecord`: a record with the input behind it, the end of the file, or an error.
pub data ReadRecord : Type 0 where
  read : Record → Bytes → ReadRecord
  end_of_file : ReadRecord
  failed : WalError → ReadRecord

read_checksum : (Bytes → ℕ) → Bytes → Bytes → Bytes → ReadRecord
read_checksum crc header payload bs = elim (read_full record_checksum_size bs) [
  | eof ↦ end_of_file
  | unexpected_eof ↦ failed truncated
  | full checksum rest ↦
      if crc (header ++ payload) == get_be checksum
      then read (record { timestamp = get_be (slice 4 12 header); payload = payload }) rest
      else failed checksum_mismatch
]

read_payload : (Bytes → ℕ) → Bytes → Bytes → ReadRecord
unfolding read_checksum
read_payload crc header bs = elim (read_full (get_be (slice 12 16 header)) bs) [
  | eof ↦ end_of_file
  | unexpected_eof ↦ failed truncated
  | full payload rest ↦ read_checksum crc header payload rest
]

pub read_record : (Bytes → ℕ) → Bytes → ReadRecord
unfolding read_payload
read_record crc bs = elim (read_full record_header_size bs) [
  | eof ↦ end_of_file
  | unexpected_eof ↦ failed truncated
  | full header rest ↦
      if get_be (slice 0 4 header) == magic_number
      then read_payload crc header rest
      else failed corrupted
]

abbrev pub Scanned : Type 0
Scanned = List Record × Option WalError

abbrev pub with_record : Record → Scanned → Scanned
with_record r s = (r ∷ s.0, s.1)

-- What one call of `Scan` leads to, where `next` is the scan of the input behind a record.
abbrev pub scan_on : (Bytes → Scanned) → ReadRecord → Scanned
scan_on next (read r rest) = with_record r (next rest)
scan_on next end_of_file = ([], none)
scan_on next (failed e) = ([], some e)

-- `Scan` until it returns false: the records, and what `Err` then returns. Each record takes some of
-- the input, so that its length is fuel enough.
pub scan : ℕ → (Bytes → ℕ) → Bytes → Scanned
scan zero crc bs = ([], none)
scan (suc fuel) crc bs = scan_on (scan fuel crc) (read_record crc bs)

pub scan_all : (Bytes → ℕ) → Bytes → Scanned
unfolding scan
scan_all crc bs = scan (suc (length bs)) crc bs

-- `ReadRecordAt`: here the end of the file inside a record is always an error.
pub record_at : (Bytes → ℕ) → Bytes → ℕ → ReadRecord
unfolding read_record
record_at crc file offset = elim (read_record crc (drop offset file)) [
  | read r rest ↦ read r rest
  | end_of_file ↦ if length (drop offset file) == 0 then end_of_file else failed truncated
  | failed e ↦ failed e
]

-- ===== src/Raft/MetaFile.antt =====
-- meta_store.go, `FileMetaStore`: the file of a node's term and vote. The vote is the list of its bytes.
pub mod RoundTrip
mod Tests
use go_core_x.Prelude.{
  ℕ, zero, suc, ◌+◌, ◌-◌, ◌%◌, Bool, true, false, not, List, [], ◌∷◌, ◌++◌, drop, length, ltb, ◌==◌,
  nat_eq, if◌then◌else◌,
}
use go_core_x.Bytes.{Bytes, take, slice, byte_at, put_le, get_le}
use go_core_x.Storage.Writer.{Outcome, done, write_fails, sync_fails}

pub record FileMeta : Type 0 where
  pub term : ℕ
  pub voted_for : Bytes

abbrev pub meta_version : ℕ
meta_version = 1

abbrev pub meta_voted_for_size : ℕ
meta_voted_for_size = 255

abbrev pub meta_header_size : ℕ
meta_header_size = 265

abbrev pub meta_record_size : ℕ
meta_record_size = 269

unfoldable pub zeros : ℕ → Bytes
zeros zero = []
zeros (suc n) = 0 ∷ zeros n

-- The part of the record under the checksum.
unfoldable pub meta_header : FileMeta → Bytes
unfolding zeros
meta_header m =
    meta_version
    ∷ (put_le 8 m.term
        ++ (length m.voted_for % 256)
          ∷ (m.voted_for ++ zeros (meta_voted_for_size - length m.voted_for)))

unfoldable pub encode_meta : (Bytes → ℕ) → FileMeta → Bytes
unfolding meta_header
encode_meta crc m = meta_header m ++ put_le 4 (crc (meta_header m))

-- WriteAt(bs, 0)
abbrev pub write_at_start : Bytes → Bytes → Bytes
write_at_start bs file = bs ++ drop (length bs) file

abbrev pub written_meta : Bytes → Bytes → Outcome → Bytes × Bool
written_meta bs file done = (write_at_start bs file, true)
written_meta bs file (write_fails n) = (write_at_start (take n bs) file, false)
written_meta bs file sync_fails = (write_at_start bs file, false)

-- `Save`: the file, and `true` for a nil error.
unfoldable pub save_file : (Bytes → ℕ) → Outcome → FileMeta → Bytes → Bytes × Bool
unfolding encode_meta
save_file crc outcome m file =
    if ltb meta_voted_for_size (length m.voted_for)
    then (file, false)
    else written_meta (encode_meta crc m) file outcome

pub data LoadMeta : Type 0 where
  loaded : FileMeta → LoadMeta
  short_read bad_checksum bad_version : LoadMeta

-- A record of the right size.
unfoldable pub decode_meta : (Bytes → ℕ) → Bytes → LoadMeta
decode_meta crc buf =
    if not (get_le (drop meta_header_size buf) == crc (take meta_header_size buf))
    then bad_checksum
    else if not (byte_at 0 buf == meta_version)
    then bad_version
    else loaded
        (record { term = get_le (slice 1 9 buf); voted_for = take (byte_at 9 buf) (drop 10 buf) })

-- `Load`
unfoldable pub load_file : (Bytes → ℕ) → Bytes → LoadMeta
unfolding decode_meta
load_file crc file =
    let buf = take meta_record_size file in
    if length buf == 0
    then loaded (record { term = 0; voted_for = [] })
    else if not (length buf == meta_record_size)
    then short_read
    else decode_meta crc buf

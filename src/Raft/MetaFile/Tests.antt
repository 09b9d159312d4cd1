-- ===== src/Raft/MetaFile/Tests.antt =====
-- Two saves over the rest of an older file. The checksum depends on the length alone.
use go_core_x.Prelude.{ℕ, ◌%◌, ◌^◌, ◌<◌, ◌≡◌, arith, true, false, [], ◌∷◌, length}
use go_core_x.Bytes.{Bytes}
use go_core_x.Storage.Writer.{Outcome}
use go_core_x.Storage.Wal.Records.{IsChecksum}
use go_core_x.Raft.MetaFile.{FileMeta, save_file, load_file, loaded}
use go_core_x.Raft.MetaFile.RoundTrip.{save_all, load_file-save_all}

abbrev toy_crc : Bytes → ℕ
toy_crc bs = length bs % 2 ^ 32

toy_crc-IsChecksum : IsChecksum toy_crc
toy_crc-IsChecksum bs = omega arith

abbrev term_seven : FileMeta
term_seven = record { term = 7; voted_for = 97 ∷ 98 ∷ [] }

abbrev term_eight : FileMeta
term_eight = record { term = 8; voted_for = [] }

load_file-save_all_example :
    let r = save_all toy_crc (term_seven ∷ term_eight ∷ []) (1 ∷ 2 ∷ 3 ∷ []) in
    (r.1 ≡ true)
    × (load_file toy_crc r.0 ≡ loaded term_eight)
    × ((long : FileMeta) (outcome : Outcome)
        → 255 < length long.voted_for
        → save_file toy_crc outcome long r.0 ≡ (r.0, false))
load_file-save_all_example =
    load_file-save_all toy_crc toy_crc-IsChecksum term_seven (term_eight ∷ []) (1 ∷ 2 ∷ 3 ∷ [])
      (record { term = omega arith; vote = omega arith })
      (record { term = omega arith; vote = omega arith }, tt) (omega arith)

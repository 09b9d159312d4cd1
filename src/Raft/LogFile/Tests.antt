-- ===== src/Raft/LogFile/Tests.antt =====
-- A log file of a few entries, with a checksum that depends on the length alone.
use go_core_x.Prelude.{
  ℕ, ◌%◌, ◌^◌, ◌≡◌, ◌<◌, refl, sym, arith, true, none, some, List, [], ◌∷◌, length, drop,
  length-drop,
}
use go_core_x.Bytes.{Bytes, take, put_le, get_le}
use go_core_x.Bytes.Slices.{take-drop}
use go_core_x.Storage.Wal.{Record, encode_record}
use go_core_x.Storage.Wal.Records.{IsChecksum, length-encode_record}
use go_core_x.Storage.Writer.{Writer, new_writer, immediate, all_done}
use go_core_x.Raft.Types.{LogEntry}
use go_core_x.Raft.Stores.{take_below, drop_through}
use go_core_x.Raft.LogFile.{entry_fields, decode_log_entry, encode_log_entry, ok, load_all}
use go_core_x.Raft.LogFile.Codec.{IsStorable}
use go_core_x.Raft.LogFile.Legacy.{decode_log_entry-legacy}
use go_core_x.Raft.LogFile.Replay.{empty-Holds, entry-IsWritable, load_all-torn}
use go_core_x.Raft.LogFile.Refines.{
  LogOp, AreFit, add, cut_from, compact, mem_run, wal_run, nothing_fails, wal_run_refines,
}

abbrev toy_crc : Bytes → ℕ
toy_crc bs = length bs % 2 ^ 32

toy_crc-IsChecksum : IsChecksum toy_crc
toy_crc-IsChecksum bs = omega arith

abbrev entry : ℕ → ℕ → LogEntry
entry index term = record { index = index; term = term; entry_type = 0; payload = 7 ∷ 8 ∷ 9 ∷ [] }

abbrev noon : ℕ → ℕ
noon n = 1000

decode_legacy_test : decode_log_entry (entry_fields (entry 3 1)) ≡ some (entry 3 1)
unfolding decode_log_entry put_le get_le
decode_legacy_test = refl

fit : (index term : ℕ) → index < 2 ^ 63 → term < 2 ^ 63 → IsStorable (entry index term)
fit index term h k = record { index = h; term = k; entry_type = omega arith; size = omega arith }

decode_log_entry-legacy_example : decode_log_entry (entry_fields (entry 49407 1)) ≡ none
decode_log_entry-legacy_example =
    decode_log_entry-legacy (entry 49407 1) (fit 49407 1 (omega arith) (omega arith)) (omega arith)
      (λ h. omega arith)

-- Two entries, of which the second is replaced, and then the first compacted away.
abbrev calls : List LogOp
calls = add (entry 1 1) ∷ add (entry 2 1) ∷ cut_from 2 ∷ add (entry 2 2) ∷ compact 1 ∷ []

calls_fit : AreFit calls []
unfolding take_below drop_through
calls_fit = (
  (fit 1 1 (omega arith) (omega arith), tt),
  (
    (fit 2 1 (omega arith) (omega arith), (omega arith, tt)),
    (omega arith, ((fit 2 2 (omega arith) (omega arith), (omega arith, tt)), (tt, tt))),
  ),
)

calls_in_memory : mem_run calls [] ≡ entry 2 2 ∷ []
unfolding take_below drop_through
calls_in_memory = refl

wal_run_refines_example :
    let r = wal_run toy_crc noon nothing_fails calls (new_writer [] immediate all_done) in
    (r.1 ≡ true) × (load_all toy_crc r.0 ≡ ok (mem_run calls []))
wal_run_refines_example =
    wal_run_refines toy_crc toy_crc-IsChecksum noon (λ n. omega arith) calls calls_fit

abbrev first_record : Record
first_record = record { timestamp = 1000; payload = encode_log_entry (entry 1 1) }

abbrev torn_writer : Writer
torn_writer = new_writer (take 9 (encode_record toy_crc first_record)) immediate all_done

load_all-torn_example : load_all toy_crc torn_writer ≡ ok []
load_all-torn_example =
    load_all-torn toy_crc toy_crc-IsChecksum [] torn_writer [] (empty-Holds toy_crc) first_record
      (entry-IsWritable 1000 (entry 1 1) (omega arith) (fit 1 1 (omega arith) (omega arith)))
      (take 9 (encode_record toy_crc first_record)) (drop 9 (encode_record toy_crc first_record))
      (sym (take-drop 9 (encode_record toy_crc first_record)))
      (omega (
        arith,
        length-drop 9 (encode_record toy_crc first_record),
        length-encode_record toy_crc first_record,
      ))
      refl

-- ===== src/Raft/LogFile.antt =====
-- internal/infrastructure/raft/log_store.go: the log of a node in a file, WALLogStore. An `int64` index
-- or term is a natural number here too: the eight bytes that the program writes of one are below
-- 2 ^ 63.
pub mod Codec
pub mod Legacy
pub mod Replay
pub mod Ascending
pub mod Refines
pub mod Tests
use go_core_x.Prelude.{
  ℕ, zero, suc, ◌+◌, ◌%◌, Bool, true, false, ◌&&◌, Option, none, some, List, [], ◌∷◌, ◌++◌, length,
  select, ltb, leb, ◌==◌, nat_eq, if◌then◌else◌,
}
use go_core_x.Bytes.{Bytes, byte_at, slice, put_le, get_le}
use go_core_x.Storage.Wal.{WalError, truncated, Record, scan_all}
use go_core_x.Storage.Writer.{Writer, Outcome, new_writer, write, SyncPolicy, immediate, never}
use go_core_x.Raft.Types.{LogEntry, entry_type_command}
use go_core_x.Raft.Stores.{take_below}

abbrev pub log_record_type_entry : ℕ
log_record_type_entry = 0x01

abbrev pub log_record_type_truncate : ℕ
log_record_type_truncate = 0x02

abbrev pub wal_entry_magic0 : ℕ
wal_entry_magic0 = 0xFF

abbrev pub wal_entry_magic1 : ℕ
wal_entry_magic1 = 0xC0

-- What follows the magic bytes.
abbrev pub entry_fields : LogEntry → Bytes
entry_fields e =
    put_le 8 e.index
    ++ (put_le 8 e.term
        ++ ((e.entry_type % 256 ∷ []) ++ (put_le 4 (length e.payload) ++ e.payload)))

unfoldable pub encode_log_entry : LogEntry → Bytes
encode_log_entry e = log_record_type_entry ∷ wal_entry_magic0 ∷ wal_entry_magic1 ∷ entry_fields e

decode_v3 : Bytes → Option LogEntry
decode_v3 bs =
    let size = get_le (slice 19 23 bs) in
    if ltb (length bs) 23
    then none
    else if length bs == 23 + size
    then some (record {
      index = get_le (slice 2 10 bs);
      term = get_le (slice 10 18 bs);
      entry_type = byte_at 18 bs;
      payload = slice 23 (23 + size) bs;
    })
    else none

decode_v1 : Bytes → Option LogEntry
decode_v1 bs =
    let size = get_le (slice 16 20 bs) in
    if ltb (length bs) (20 + size)
    then none
    else some (record {
      index = get_le (slice 0 8 bs);
      term = get_le (slice 8 16 bs);
      entry_type = entry_type_command;
      payload = slice 20 (20 + size) bs;
    })

-- The version is told by the length.
decode_legacy : Bytes → Option LogEntry
unfolding decode_v1
decode_legacy bs =
    let size = get_le (slice 17 21 bs) in
    if ltb (length bs) 20
    then none
    else if leb 21 (length bs) && length bs == 21 + size
    then some (record {
      index = get_le (slice 0 8 bs);
      term = get_le (slice 8 16 bs);
      entry_type = byte_at 16 bs;
      payload = slice 21 (21 + size) bs;
    })
    else decode_v1 bs

-- `none` for an error.
unfoldable pub decode_log_entry : Bytes → Option LogEntry
unfolding decode_v3 decode_legacy
decode_log_entry bs =
    if length bs == 0
    then none
    else if leb 2 (length bs)
        && (byte_at 0 bs == wal_entry_magic0 && byte_at 1 bs == wal_entry_magic1)
    then decode_v3 bs
    else decode_legacy bs

unfoldable pub encode_truncate : ℕ → Bytes
encode_truncate from = log_record_type_truncate ∷ put_le 8 from

unfoldable pub decode_truncate : Bytes → Option ℕ
decode_truncate bs = if ltb (length bs) 8 then none else some (get_le (slice 0 8 bs))

pub data LoadError : Type 0 where
  bad_entry bad_truncate unknown_record_type : LoadError
  bad_scan : WalError → LoadError

pub data Loaded : Type 0 where
  ok : List LogEntry → Loaded
  err : LoadError → Loaded

abbrev with_entry : List LogEntry → Option LogEntry → Loaded
with_entry es none = err bad_entry
with_entry es (some e) = ok (es ++ e ∷ [])

abbrev with_truncate : List LogEntry → Option ℕ → Loaded
with_truncate es none = err bad_truncate
with_truncate es (some from) = ok (take_below from es)

-- One round of the loop over the records. The two loops differ in whether they refuse a record of an
-- unknown type or pass over it.
unfoldable pub replay_record : Bool → List LogEntry → Bytes → Loaded
replay_record strict es [] = ok es
replay_record strict es (t ∷ bs) =
    if t == log_record_type_entry
    then with_entry es (decode_log_entry bs)
    else if t == log_record_type_truncate
    then with_truncate es (decode_truncate bs)
    else if strict
    then err unknown_record_type
    else ok es

abbrev pub then_replay : (List LogEntry → Loaded) → Loaded → Loaded
then_replay next (ok es) = next es
then_replay next (err e) = err e

unfoldable pub replay : Bool → List LogEntry → List Record → Loaded
unfolding replay_record
replay strict es [] = ok es
replay strict es (r ∷ rs) =
    then_replay (λ es'. replay strict es' rs) (replay_record strict es r.payload)

-- The test of `Err` behind the loop.
abbrev pub after_scan : Option WalError → Loaded → Loaded
after_scan none l = l
after_scan (some truncated) l = l
after_scan (some e) (ok es) = err (bad_scan e)
after_scan (some e) (err f) = err f

-- `LoadAll`.
unfoldable pub load_all : (Bytes → ℕ) → Writer → Loaded
load_all crc w = let (rs, e) = scan_all crc w.file in after_scan e (replay true [] rs)

unfoldable pub append : (Bytes → ℕ) → ℕ → LogEntry → Writer → Writer × Bool
append crc now e w = write crc now (encode_log_entry e) w

unfoldable pub truncate_suffix : (Bytes → ℕ) → ℕ → ℕ → Writer → Writer × Bool
truncate_suffix crc now from w = write crc now (encode_truncate from) w

-- How the steps of a compaction end: each write of the new file; what comes between them and the
-- swap (fsync, reopening, rename); and the closing of the old file, behind the swap.
pub record Compaction : Type 0 where
  pub writes : ℕ → Outcome
  pub swaps : Bool
  pub closes : Bool

-- The entries, one record each, in a new file: `none` once a write fails.
pub write_entries : (Bytes → ℕ) → (ℕ → ℕ) → List LogEntry → Writer → Option Writer
write_entries crc times [] w = some w
write_entries crc times (e ∷ es) w =
    let r = append crc (times w.calls) e w in
    let rest = write_entries crc times es r.0 in if r.1 then rest else none

-- `rewriteWALExcluding`: the new file's writer.
unfoldable pub rewrite_wal_excluding :
    (Bytes → ℕ) → (ℕ → ℕ) → Compaction → ℕ → Bytes → Option Writer
unfolding write_entries
rewrite_wal_excluding crc times c up_to file =
    let (rs, e) = scan_all crc file in
    elim (after_scan e (replay false [] rs)) [
      | err f ↦ none
      | ok es ↦
          write_entries crc times (select (λ x. ltb up_to x.index) es)
            (new_writer [] never c.writes)
    ]

unfoldable pub compact_prefix : (Bytes → ℕ) → (ℕ → ℕ) → Compaction → ℕ → Writer → Writer × Bool
unfolding rewrite_wal_excluding
compact_prefix crc times c up_to w = elim (rewrite_wal_excluding crc times c up_to w.file) [
  | none ↦ (w, false)
  | some new ↦
      if c.swaps
      then (record w { file = new.file; size_tracker = length new.file }, c.closes)
      else (w, false)
]

-- ===== src/Raft/LogFile/Legacy.antt =====
-- log_store.go, `decodeLogEntry`: an entry in the second format, the one before the magic bytes,
-- whose bytes behind the record's type are `entry_fields`.
use go_core_x.Prelude.{
  ◌+◌, ◌-◌, ◌*◌, ◌%◌, ◌<◌, ◌≡◌, ◌≢◌, refl, ap, ◌∙◌, arith, true, false, none, some, length, ltb,
  leb, ◌==◌, nat_eq, if◌then◌else◌,
}
use go_core_x.Bytes.{Bytes, take, slice, put_le, get_le}
use go_core_x.Raft.Types.{LogEntry}
use go_core_x.Raft.LogFile.{entry_fields, decode_v3, decode_legacy, decode_log_entry}
use go_core_x.Raft.LogFile.Codec.{IsStorable, Shows, fields_show, behind_term, length-fields}

decode_legacy_shown : (bs : Bytes) (e : LogEntry) → Shows bs e → decode_legacy bs ≡ some e
unfolding decode_legacy
decode_legacy_shown bs e s =
    let size : 21 + length e.payload - 21 ≡ length e.payload = omega arith in
    let long : ltb (length bs) 20 ≡ false = ground (arith, s.size) in
    let longer : leb 21 (length bs) ≡ true = ground (arith, s.size) in
    let whole : (length bs == 21 + length e.payload) ≡ true = ground (arith, s.size) in
    rw
      (
        decode_legacy, s.header_size, long, longer, whole, s.index, s.term, s.entry_type, size,
        s.payload,
      )
      refl

-- Where the third format has the length of the data, the second has the end of its length and the
-- start of its data.
misread_size :
    (e : LogEntry)
    → length e.payload < 65536
    → get_le (slice 19 23 (entry_fields e)) ≡ 65536 * get_le (take 2 e.payload)
unfolding put_le get_le
misread_size e h = ap get_le (behind_term e 3 7) ∙ omega arith

decode_v3-fields :
    (e : LogEntry)
    → length e.payload < 65536
    → length e.payload ≢ 2
    → decode_v3 (entry_fields e) ≡ none
unfolding decode_v3
decode_v3-fields e h two = ground (arith, misread_size e h, length-fields e, two)

-- An entry that was written in the second format, its data shorter than 2 ^ 16 and not of two bytes, is read back,
-- unless its index is 49407 modulo 65536: then the first bytes of the index are taken for the magic bytes of the
-- third format, and reading it is an error.
pub decode_log_entry-legacy :
    (e : LogEntry)
    → IsStorable e
    → length e.payload < 65536
    → length e.payload ≢ 2
    → decode_log_entry (entry_fields e) ≡ (if e.index % 65536 == 49407 then none else some e)
unfolding decode_log_entry put_le
decode_log_entry-legacy e s h two =
    let old = decode_legacy_shown (entry_fields e) e (fields_show e s) in
    let new = decode_v3-fields e h two in
    let size = length-fields e in ground (arith, old, new, size)

-- ===== src/Raft/LogFile/Codec.antt =====
-- log_store.go: the bytes of an entry and of a truncation.
use go_core_x.Prelude.{
  ℕ, suc, ◌+◌, ◌-◌, ◌%◌, ◌^◌, ◌<◌, ◌≡◌, refl, sym, ap, ◌∙◌, arith, true, false, some, [], ◌∷◌, ◌++◌,
  length, drop, drop-drop, length-append, ltb, ◌==◌, nat_eq,
}
use go_core_x.Bytes.{Bytes, byte_at, take, slice, put_le, get_le}
use go_core_x.Bytes.Numbers.{length-put_le, get_le-put_le}
use go_core_x.Bytes.Slices.{slice_behind, slice_front, take_whole, drop_front, byte_at_behind}
use go_core_x.Raft.Types.{LogEntry}
use go_core_x.Raft.LogFile.{entry_fields, decode_v3, decode_log_entry, decode_truncate}

-- What the fields of an entry fit in.
pub record IsStorable (e : LogEntry) : Type 0 where
  pub index : e.index < 2 ^ 63
  pub term : e.term < 2 ^ 63
  pub entry_type : e.entry_type < 2 ^ 8
  pub size : length e.payload + 24 < 2 ^ 32

module _ (e : LogEntry) where
  -- The fields from the entry's type on.
  abbrev pub type_fields : Bytes
  type_fields = (e.entry_type % 256 ∷ []) ++ (put_le 4 (length e.payload) ++ e.payload)

  abbrev term_fields : Bytes
  term_fields = put_le 8 e.term ++ type_fields

  -- A slice that starts behind the index, and one behind the term too.
  behind_index : (lo hi : ℕ) → slice (8 + lo) (8 + hi) (entry_fields e) ≡ slice lo hi term_fields
  behind_index lo hi = slice_behind 8 lo hi (put_le 8 e.index) term_fields (length-put_le 8 e.index)

  pub behind_term :
      (lo hi : ℕ) → slice (16 + lo) (16 + hi) (entry_fields e) ≡ slice lo hi type_fields
  behind_term lo hi =
      let a : 16 + lo ≡ 8 + (8 + lo) = omega arith in
      let b : 16 + hi ≡ 8 + (8 + hi) = omega arith in
      rw (a, b)
        (behind_index (8 + lo) (8 + hi)
          ∙ slice_behind 8 lo hi (put_le 8 e.term) type_fields (length-put_le 8 e.term))

  pub length-fields : length (entry_fields e) ≡ 21 + length e.payload
  length-fields = omega (
    arith,
    length-append (put_le 8 e.index) term_fields,
    length-append (put_le 8 e.term) type_fields,
    length-append (put_le 4 (length e.payload)) e.payload,
    length-put_le 8 e.index,
    length-put_le 8 e.term,
    length-put_le 4 (length e.payload),
  )

  fields_tail : drop 21 (entry_fields e) ≡ e.payload
  fields_tail =
      sym (drop-drop 13 8 (entry_fields e))
      ∙ ap (drop 13) (drop_front 8 (put_le 8 e.index) term_fields (length-put_le 8 e.index))
      ∙ sym (drop-drop 5 8 term_fields)
      ∙ ap (drop 5) (drop_front 8 (put_le 8 e.term) type_fields (length-put_le 8 e.term))
      ∙ drop_front 4 (put_le 4 (length e.payload)) e.payload (length-put_le 4 (length e.payload))

  pub fields_payload :
      (n : ℕ) → n ≡ length e.payload → take n (drop 21 (entry_fields e)) ≡ e.payload
  fields_payload n h = ap (take n) fields_tail ∙ take_whole n e.payload (sym h)

  pub fields_type : IsStorable e → byte_at 16 (entry_fields e) ≡ e.entry_type
  fields_type s =
      byte_at_behind 8 8 (put_le 8 e.index) term_fields (length-put_le 8 e.index)
      ∙ byte_at_behind 8 0 (put_le 8 e.term) type_fields (length-put_le 8 e.term)
      ∙ omega (arith, s.entry_type)

  module _ (s : IsStorable e) where
    pub fields_index : get_le (slice 0 8 (entry_fields e)) ≡ e.index
    fields_index =
        ap get_le (slice_front 8 (put_le 8 e.index) term_fields (length-put_le 8 e.index))
        ∙ get_le-put_le 8 e.index (omega (arith, s.index))

    pub fields_term : get_le (slice 8 16 (entry_fields e)) ≡ e.term
    fields_term =
        ap get_le (behind_index 0 8)
        ∙ ap get_le (slice_front 8 (put_le 8 e.term) type_fields (length-put_le 8 e.term))
        ∙ get_le-put_le 8 e.term (omega (arith, s.term))

    pub fields_size : get_le (slice 17 21 (entry_fields e)) ≡ length e.payload
    fields_size =
        ap get_le (behind_term 1 5)
        ∙ ap get_le (
            slice_front 4 (put_le 4 (length e.payload)) e.payload
              (length-put_le 4 (length e.payload)))
        ∙ get_le-put_le 4 (length e.payload) (omega (arith, s.size))

-- What a list of bytes shows of an entry, where its fields start at the front.
pub record Shows (bs : Bytes) (e : LogEntry) : Type 0 where
  pub size : length bs ≡ 21 + length e.payload
  pub header_size : get_le (slice 17 21 bs) ≡ length e.payload
  pub index : get_le (slice 0 8 bs) ≡ e.index
  pub term : get_le (slice 8 16 bs) ≡ e.term
  pub entry_type : byte_at 16 bs ≡ e.entry_type
  pub payload : take (length e.payload) (drop 21 bs) ≡ e.payload

pub fields_show : (e : LogEntry) → IsStorable e → Shows (entry_fields e) e
fields_show e s = record {
  size = length-fields e;
  header_size = fields_size e s;
  index = fields_index e s;
  term = fields_term e s;
  entry_type = fields_type e s;
  payload = fields_payload e (length e.payload) refl;
}

decode_v3_shown : (bs : Bytes) (e : LogEntry) → Shows bs e → decode_v3 (0xFF ∷ 0xC0 ∷ bs) ≡ some e
unfolding decode_v3
decode_v3_shown bs e s =
    let size : 23 + length e.payload - 23 ≡ length e.payload = omega arith in
    let long : ltb (suc (suc (length bs))) 23 ≡ false = ground (arith, s.size) in
    let whole : (suc (suc (length bs)) == 23 + length e.payload) ≡ true = ground (arith, s.size) in
    rw (decode_v3, s.header_size, long, whole, s.index, s.term, s.entry_type, size, s.payload) refl

-- What is read of an entry's bytes behind the byte of the record's type is the entry.
pub decode-encode_log_entry :
    (e : LogEntry) → IsStorable e → decode_log_entry (0xFF ∷ 0xC0 ∷ entry_fields e) ≡ some e
unfolding decode_log_entry
decode-encode_log_entry e s =
    let shown = decode_v3_shown (entry_fields e) e (fields_show e s) in ground (arith, shown)

pub decode-encode_truncate :
    (from : ℕ) → from < 2 ^ 63 → decode_truncate (put_le 8 from) ≡ some from
unfolding decode_truncate
decode-encode_truncate from h =
    let value : get_le (slice 0 8 (put_le 8 from)) ≡ from =
      ap get_le (take_whole 8 (put_le 8 from) (length-put_le 8 from))
      ∙ get_le-put_le 8 from (omega arith) in
    rw (length-put_le 8 from, value) refl

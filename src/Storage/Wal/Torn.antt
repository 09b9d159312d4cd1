-- ===== src/Storage/Wal/Torn.antt =====
-- reader.go, `Scan`: a file whose last record was cut short.
use go_core_x.Prelude.{
  ℕ, ◌<◌, ◌≡◌, ◌≢◌, ◌⊎◌, refl, sym, ap, ◌∙◌, arith, Bool-cases, inl, inr, none, some, List, [],
  ◌++◌, append_assoc, append-nil, length, length-append, ◌==◌, nat_eq,
}
use go_core_x.Bytes.{Bytes, read_full, ReadFull, full, eof, unexpected_eof, get_be, slice}
use go_core_x.Bytes.Slices.{read_full_parts, read_full_front}
use go_core_x.Storage.Wal.{
  magic_number, Record, encode_record, ReadRecord, read, end_of_file, failed, truncated,
  read_checksum, read_payload, read_record, scan_all, scan_on,
}
use go_core_x.Storage.Wal.Records.{IsWritable, IsChecksum, read_record-encode}
use go_core_x.Storage.Wal.Scan.{
  encode_records, AreWritable, with_records, scan_all_unrolls, scan_all-append,
}

read_full_more :
    (n : ℕ) (bs chunk rest more : Bytes)
    → read_full n bs ≡ full chunk rest
    → read_full n (bs ++ more) ≡ full chunk (rest ++ more)
read_full_more n bs chunk rest more h =
    let parts = read_full_parts n bs chunk rest h in
    ap (λ l. read_full n (l ++ more)) (sym parts.1)
    ∙ ap (read_full n) (append_assoc chunk rest more)
    ∙ read_full_front n chunk (rest ++ more) parts.0

-- A read of the input alone and of the input with more behind it.
data ReadsMore (n : ℕ) (bs more : Bytes) : Type 0 where
  whole :
      (chunk rest : Bytes)
      → read_full n bs ≡ full chunk rest
      → read_full n (bs ++ more) ≡ full chunk (rest ++ more)
      → ReadsMore n bs more
  none_left : read_full n bs ≡ eof → ReadsMore n bs more
  cut : read_full n bs ≡ unexpected_eof → ReadsMore n bs more

reads_more : (n : ℕ) (bs more : Bytes) → ReadsMore n bs more
reads_more n bs more = by (read_full n bs) refl
  where
    by : (v : ReadFull) → read_full n bs ≡ v → ReadsMore n bs more
    by (full chunk rest) e = whole chunk rest e (read_full_more n bs chunk rest more e)
    by eof e = none_left e
    by unexpected_eof e = cut e

-- The outcome when more input stands behind.
abbrev extended : Bytes → ReadRecord → ReadRecord
extended more (read r rest) = read r (rest ++ more)
extended more v = v

abbrev IsShort : ReadRecord → Type 0
IsShort v = (v ≡ end_of_file) ⊎ (v ≡ failed truncated)

read_checksum_more :
    (crc : Bytes → ℕ) (header payload bs more : Bytes)
    → IsShort (read_checksum crc header payload bs)
      ⊎ (read_checksum crc header payload (bs ++ more)
          ≡ extended more (read_checksum crc header payload bs))
unfolding read_checksum
read_checksum_more crc header payload bs more = elim (reads_more 4 bs more) [
  | none_left e ↦ inl (inl (rw (read_checksum, e)))
  | cut e ↦ inl (inr (rw (read_checksum, e)))
  | whole checksum rest e f ↦ elim (Bool-cases (crc (header ++ payload) == get_be checksum)) [
    | inl good ↦ inr (rw (read_checksum, e, f, good) refl)
    | inr bad ↦ inr (rw (read_checksum, e, f, bad) refl)
  ]
]

read_payload_more :
    (crc : Bytes → ℕ) (header bs more : Bytes)
    → IsShort (read_payload crc header bs)
      ⊎ (read_payload crc header (bs ++ more) ≡ extended more (read_payload crc header bs))
unfolding read_payload
read_payload_more crc header bs more = elim (reads_more (get_be (slice 12 16 header)) bs more) [
  | none_left e ↦ inl (inl (rw (read_payload, e)))
  | cut e ↦ inl (inr (rw (read_payload, e)))
  | whole payload rest e f ↦
      rw (read_payload, e, f) (read_checksum_more crc header payload rest more)
]

-- More input behind a file changes only a read that ran out of input.
read_record_more :
    (crc : Bytes → ℕ) (bs more : Bytes)
    → IsShort (read_record crc bs)
      ⊎ (read_record crc (bs ++ more) ≡ extended more (read_record crc bs))
unfolding read_record
read_record_more crc bs more = elim (reads_more 16 bs more) [
  | none_left e ↦ inl (inl (rw (read_record, e)))
  | cut e ↦ inl (inr (rw (read_record, e)))
  | whole header rest e f ↦ elim (Bool-cases (get_be (slice 0 4 header) == magic_number)) [
    | inl good ↦ rw (read_record, e, f, good) (read_payload_more crc header rest more)
    | inr bad ↦ inr (rw (read_record, e, f, bad) refl)
  ]
]

not_longer :
    (r s : Record) (rest more : Bytes) → 0 < length more → read s (rest ++ more) ≢ read r []
not_longer r s rest more pos h =
    let e : rest ++ more ≡ [] = cc in omega (arith, ap length e, length-append rest more)

-- A record that lacks some of its bytes is read as the end of the file or as cut short.
pub torn_record :
    (crc : Bytes → ℕ)
    → IsChecksum crc
    → (r : Record) → IsWritable r
    → (front lost : Bytes) → encode_record crc r ≡ front ++ lost
    → 0 < length lost
    → IsShort (read_record crc front)
torn_record crc small r w front lost e pos = elim (read_record_more crc front lost) [
  | inl short ↦ short
  | inr same ↦
      let back : read_record crc (front ++ lost) ≡ read r [] =
        ap (read_record crc) (sym e ∙ sym (append-nil (encode_record crc r)))
        ∙ read_record-encode crc small r w [] in
      by (read_record crc front) (sym same ∙ back)
]
  where
    by : (v : ReadRecord) → extended lost v ≡ read r [] → IsShort v
    by (read s rest) h = absurd (not_longer r s rest lost pos h)
    by end_of_file h = cc
    by (failed f) h = cc

-- Of a file of written records and of the first bytes, but not all, of one more, as a crash leaves it, exactly
-- the whole records are scanned; and what is then reported is no error, or that the file was cut short.
pub scan_all-torn :
    (crc : Bytes → ℕ)
    → IsChecksum crc
    → (rs : List Record) → AreWritable rs
    → (r : Record) → IsWritable r
    → (front lost : Bytes) → encode_record crc r ≡ front ++ lost
    → 0 < length lost
    → (scan_all crc (encode_records crc rs ++ front) ≡ (rs, none))
      ⊎ (scan_all crc (encode_records crc rs ++ front) ≡ (rs, some truncated))
scan_all-torn crc small rs ws r w front lost e pos =
    let tail : scan_all crc (encode_records crc rs ++ front)
        ≡ with_records rs (scan_on (scan_all crc) (read_record crc front)) =
      scan_all-append crc small rs ws front ∙ ap (with_records rs) (scan_all_unrolls crc front).0 in
    elim (torn_record crc small r w front lost e pos) [
      | inl f ↦ inl (tail ∙ (rw f (ap (λ l. (l, none)) (append-nil rs))))
      | inr f ↦ inr (tail ∙ (rw f (ap (λ l. (l, some truncated)) (append-nil rs))))
    ]

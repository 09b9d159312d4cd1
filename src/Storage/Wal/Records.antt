-- ===== src/Storage/Wal/Records.antt =====
-- reader.go, `readRecord`, on what writer.go has written.
use go_core_x.Prelude.{
  ℕ, ◌+◌, ◌^◌, ◌<◌, ◌≡◌, refl, sym, ap, ◌∙◌, arith, ◌++◌, append_assoc, drop-drop, length,
  length-append, drop, nat_eq, same_self,
}
use go_core_x.Bytes.{Bytes, take, slice, put_be, get_be}
use go_core_x.Bytes.Numbers.{length-put_be, get_be-put_be}
use go_core_x.Bytes.Slices.{take_front, take_whole, drop_front, read_full_front}
use go_core_x.Storage.Wal.{
  magic_number, Record, record_header, encode_record, read, read_checksum, read_payload,
  read_record, record_at,
}

-- What a record's fields must fit in.
pub record IsWritable (r : Record) : Type 0 where
  pub timestamp : r.timestamp < 2 ^ 64
  pub size : length r.payload < 2 ^ 32

-- A checksum of 32 bits.
abbrev pub IsChecksum : (Bytes → ℕ) → Type 0
IsChecksum crc = (bs : Bytes) → crc bs < 2 ^ 32

pub length-record_header : (r : Record) → length (record_header r) ≡ 16
length-record_header r = omega (
  arith,
  length-append (put_be 4 magic_number) (put_be 8 r.timestamp ++ put_be 4 (length r.payload)),
  length-append (put_be 8 r.timestamp) (put_be 4 (length r.payload)),
  length-put_be 4 magic_number,
  length-put_be 8 r.timestamp,
  length-put_be 4 (length r.payload),
)

header_magic : (r : Record) → get_be (slice 0 4 (record_header r)) ≡ magic_number
header_magic r =
    ap get_be (take_front 4 (put_be 4 magic_number) _ (length-put_be 4 magic_number))
    ∙ get_be-put_be 4 magic_number (omega arith)

header_tail :
    (r : Record) → drop 4 (record_header r) ≡ put_be 8 r.timestamp ++ put_be 4 (length r.payload)
header_tail r = drop_front 4 (put_be 4 magic_number) _ (length-put_be 4 magic_number)

header_timestamp : (r : Record) → IsWritable r → get_be (slice 4 12 (record_header r)) ≡ r.timestamp
header_timestamp r w =
    ap (λ l. get_be (take 8 l)) (header_tail r)
    ∙ ap get_be (take_front 8 (put_be 8 r.timestamp) _ (length-put_be 8 r.timestamp))
    ∙ get_be-put_be 8 r.timestamp (omega (arith, w.timestamp))

header_size :
    (r : Record) → IsWritable r → get_be (slice 12 16 (record_header r)) ≡ length r.payload
header_size r w =
    let tail : drop 12 (record_header r) ≡ put_be 4 (length r.payload) =
      sym (drop-drop 8 4 (record_header r))
      ∙ ap (drop 8) (header_tail r)
      ∙ drop_front 8 (put_be 8 r.timestamp) _ (length-put_be 8 r.timestamp) in
    ap (λ l. get_be (take 4 l)) tail
    ∙ ap get_be (take_whole 4 (put_be 4 (length r.payload)) (length-put_be 4 (length r.payload)))
    ∙ get_be-put_be 4 (length r.payload) (omega (arith, w.size))

read_checksum-encode :
    (crc : Bytes → ℕ)
    → IsChecksum crc
    → (r : Record) → IsWritable r
    → (rest : Bytes)
    → read_checksum crc
        (record_header r)
        r.payload
        (put_be 4 (crc (record_header r ++ r.payload)) ++ rest)
      ≡ read r rest
unfolding read_checksum
read_checksum-encode crc small r w rest =
    let sum = crc (record_header r ++ r.payload) in
    rw
      (
        read_checksum,
        read_full_front 4 (put_be 4 sum) rest (length-put_be 4 sum),
        get_be-put_be 4 sum (omega (arith, small (record_header r ++ r.payload))),
        same_self sum,
        header_timestamp r w,
      )
      refl

-- A record that was written is what is read, up to the input behind it.
pub read_record-encode :
    (crc : Bytes → ℕ)
    → IsChecksum crc
    → (r : Record) → IsWritable r
    → (rest : Bytes) → read_record crc (encode_record crc r ++ rest) ≡ read r rest
unfolding read_record read_payload encode_record
read_record-encode crc small r w rest =
    let sum = crc (record_header r ++ r.payload) in
    rw
      (
        read_record,
        append_assoc (record_header r) (r.payload ++ put_be 4 sum) rest,
        append_assoc r.payload (put_be 4 sum) rest,
        read_full_front 16 (record_header r) (r.payload ++ (put_be 4 sum ++ rest))
            (length-record_header r),
        header_magic r,
        read_payload,
        header_size r w,
        read_full_front (length r.payload) r.payload (put_be 4 sum ++ rest) refl,
      )
      (read_checksum-encode crc small r w rest)

pub length-encode_record :
    (crc : Bytes → ℕ) (r : Record) → length (encode_record crc r) ≡ 16 + length r.payload + 4
unfolding encode_record
length-encode_record crc r =
    let sum = put_be 4 (crc (record_header r ++ r.payload)) in
    omega (
      arith,
      length-append (record_header r) (r.payload ++ sum),
      length-append r.payload sum,
      length-record_header r,
      length-put_be 4 (crc (record_header r ++ r.payload)),
    )

-- A record is read at its offset, whatever stands before and behind it.
pub record_at-encode :
    (crc : Bytes → ℕ)
    → IsChecksum crc
    → (before : Bytes) (r : Record) → IsWritable r
    → (rest : Bytes) (offset : ℕ) → offset ≡ length before
    → record_at crc (before ++ (encode_record crc r ++ rest)) offset ≡ read r rest
unfolding record_at
record_at-encode crc small before r w rest offset h =
    rw
      (
        record_at,
        drop_front offset before (encode_record crc r ++ rest) (sym h),
        read_record-encode crc small r w rest,
      )
      refl

-- ===== src/Storage/Wal/Scan.antt =====
-- reader.go, `Scan`: reading a whole file.
use go_core_x.Prelude.{
  ℕ, zero, suc, ◌+◌, ◌<◌, ◌≡◌, refl, sym, ap, ◌∙◌, arith, none, List, [], ◌∷◌, ◌++◌, append_assoc,
  append-nil, length, length-append, nat_eq,
}
use go_core_x.Bytes.{Bytes, read_full, full}
use go_core_x.Bytes.Slices.{read_full_parts}
use go_core_x.Storage.Wal.{
  Record, encode_record, ReadRecord, read, end_of_file, failed, read_checksum, read_payload,
  read_record, Scanned, with_record, scan_on, scan, scan_all,
}
use go_core_x.Storage.Wal.Records.{IsWritable, IsChecksum, read_record-encode}

-- The file that a sequence of records makes.
abbrev pub encode_records : (Bytes → ℕ) → List Record → Bytes
encode_records crc [] = []
encode_records crc (r ∷ rs) = encode_record crc r ++ encode_records crc rs

abbrev pub AreWritable : List Record → Type 0
AreWritable [] = Unit {0}
AreWritable (r ∷ rs) = IsWritable r × AreWritable rs

abbrev pub with_records : List Record → Scanned → Scanned
with_records rs s = (rs ++ s.0, s.1)

pub encode_records-append :
    (crc : Bytes → ℕ) (rs ss : List Record)
    → encode_records crc (rs ++ ss) ≡ encode_records crc rs ++ encode_records crc ss
encode_records-append crc [] ss = refl
encode_records-append crc (r ∷ rs) ss =
    ap (λ l. encode_record crc r ++ l) (encode_records-append crc rs ss)
    ∙ sym (append_assoc (encode_record crc r) (encode_records crc rs) (encode_records crc ss))

pub AreWritable-append :
    (rs ss : List Record) → AreWritable rs → AreWritable ss → AreWritable (rs ++ ss)
AreWritable-append [] ss w v = v
AreWritable-append (r ∷ rs) ss w v = (w.0, AreWritable-append rs ss w.1 v)

-- A read takes at least a header's bytes.
length-read_full :
    (n : ℕ) (bs chunk rest : Bytes) → read_full n bs ≡ full chunk rest → length bs ≡ n + length rest
length-read_full n bs chunk rest h =
    let parts = read_full_parts n bs chunk rest h in
    omega (arith, parts.0, ap length parts.1, length-append chunk rest)

pub read_record-shorter :
    (crc : Bytes → ℕ) (bs rest : Bytes) (r : Record)
    → read_record crc bs ≡ read r rest
    → length rest < length bs
unfolding read_record read_payload read_checksum
read_record-shorter crc bs rest r h = grind (arith, length-read_full)

scan_on_cong :
    (f g : Bytes → Scanned) (v : ReadRecord)
    → ((r : Record) (rest : Bytes) → v ≡ read r rest → f rest ≡ g rest)
    → scan_on f v ≡ scan_on g v
scan_on_cong f g (read r rest) h = rw (h r rest refl)
scan_on_cong f g end_of_file h = refl
scan_on_cong f g (failed e) h = refl

scan_fuel :
    (n m : ℕ) (crc : Bytes → ℕ) (bs : Bytes)
    → length bs < n
    → length bs < m
    → scan n crc bs ≡ scan m crc bs
unfolding scan
scan_fuel zero m crc bs h k = absurd (omega arith)
scan_fuel (suc n) zero crc bs h k = absurd (omega arith)
scan_fuel (suc n) (suc m) crc bs h k =
    scan_on_cong (scan n crc) (scan m crc) (read_record crc bs) λ r rest e.
      let less = read_record-shorter crc bs rest r e in
      scan_fuel n m crc rest (omega arith) (omega arith)

-- The loop over `Scan` ends by its own test on every file: a scan is its first step and then the scan of what
-- that step leaves, the fuel never being what ends it; and whatever more fuel is given, the result is the same.
pub scan_all_unrolls :
    (crc : Bytes → ℕ) (bs : Bytes)
    → (scan_all crc bs ≡ scan_on (scan_all crc) (read_record crc bs))
      × ((n : ℕ) → length bs < n → scan n crc bs ≡ scan_all crc bs)
unfolding scan_all
scan_all_unrolls crc bs = (
  (unfold scan in
      scan_on_cong (scan (length bs) crc) (λ l. scan (suc (length l)) crc l) (read_record crc bs)
        λ r rest e.
          scan_fuel (length bs) (suc (length rest)) crc rest (read_record-shorter crc bs rest r e)
            (omega arith)),
  λ n h. scan_fuel n (suc (length bs)) crc bs h (omega arith),
)

-- The scan of written records and of what stands behind them.
pub scan_all-append :
    (crc : Bytes → ℕ)
    → IsChecksum crc
    → (rs : List Record) → AreWritable rs
    → (rest : Bytes)
    → scan_all crc (encode_records crc rs ++ rest) ≡ with_records rs (scan_all crc rest)
scan_all-append crc small [] w rest = refl
scan_all-append crc small (r ∷ rs) w rest =
    ap (scan_all crc) (append_assoc (encode_record crc r) (encode_records crc rs) rest)
    ∙ (scan_all_unrolls crc _).0
    ∙ ap (scan_on (scan_all crc))
        (read_record-encode crc small r w.0 (encode_records crc rs ++ rest))
    ∙ ap (with_record r) (scan_all-append crc small rs w.1 rest)

-- What is scanned of a file of written records, each with a time below 2 ^ 64 and a payload shorter than 2 ^ 32,
-- are these records in their order, with no error.
pub scan_all-encode :
    (crc : Bytes → ℕ)
    → IsChecksum crc
    → (rs : List Record) → AreWritable rs
    → scan_all crc (encode_records crc rs) ≡ (rs, none)
unfolding scan_all read_record read_full
scan_all-encode crc small rs w =
    ap (scan_all crc) (sym (append-nil (encode_records crc rs)))
    ∙ scan_all-append crc small rs w []
    ∙ ap (λ l. (l, none)) (append-nil rs)

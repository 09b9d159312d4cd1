-- ===== src/Raft/MetaFile/RoundTrip.antt =====
-- `FileMetaStore`: what is loaded after a save.
use go_core_x.Prelude.{
  ℕ, zero, suc, ◌-◌, ◌%◌, ◌^◌, ◌≤◌, ◌<◌, ◌≡◌, refl, sym, ap, ◌∙◌, arith, Bool, true, false, ◌&&◌,
  List, [], ◌∷◌, ◌++◌, drop, length, length-append, append-nil, append_assoc, ltb, ◌==◌, nat_eq,
}
use go_core_x.Bytes.{Bytes, take, slice, byte_at, put_le, get_le}
use go_core_x.Bytes.Numbers.{length-put_le, get_le-put_le}
use go_core_x.Bytes.Slices.{take_front, drop_front, drop_all, take_whole, byte_at_behind}
use go_core_x.Storage.Wal.Records.{IsChecksum}
use go_core_x.Storage.Writer.{Outcome, done}
use go_core_x.Raft.MetaFile.{
  FileMeta, meta_version, meta_header, meta_header_size, meta_record_size, meta_voted_for_size,
  zeros, encode_meta, save_file, loaded, decode_meta, load_file,
}

length-zeros : (n : ℕ) → length (zeros n) ≡ n
unfolding zeros
length-zeros zero = refl
length-zeros (suc n) = omega (arith, length-zeros n)

-- What a record has room for.
pub record IsMeta (m : FileMeta) : Type 0 where
  pub term : m.term < 2 ^ 63
  pub vote : length m.voted_for ≤ 255

length-meta_header : (m : FileMeta) → IsMeta m → length (meta_header m) ≡ 265
unfolding meta_header
length-meta_header m h =
    let rest = zeros (meta_voted_for_size - length m.voted_for) in
    omega (
      arith,
      length-append (put_le 8 m.term) ((length m.voted_for % 256) ∷ (m.voted_for ++ rest)),
      length-append m.voted_for rest,
      length-zeros (meta_voted_for_size - length m.voted_for),
      length-put_le 8 m.term,
      h.vote,
    )

length-encode_meta : (crc : Bytes → ℕ) (m : FileMeta) → IsMeta m → length (encode_meta crc m) ≡ 269
unfolding encode_meta
length-encode_meta crc m h = omega (
  arith,
  length-append (meta_header m) (put_le 4 (crc (meta_header m))),
  length-meta_header m h,
  length-put_le 4 (crc (meta_header m)),
)

-- The fields of a record, behind each of which stands the next.
module _ (m : FileMeta) (tail : Bytes) (h : IsMeta m) where
  abbrev term_bytes : Bytes
  term_bytes = put_le 8 m.term

  abbrev buffer : Bytes
  buffer = meta_version ∷ (term_bytes ++ (length m.voted_for % 256) ∷ (m.voted_for ++ tail))

  buffer-term : get_le (slice 1 9 buffer) ≡ m.term
  buffer-term =
      ap get_le (
        take_front 8 term_bytes ((length m.voted_for % 256) ∷ (m.voted_for ++ tail))
          (length-put_le 8 m.term))
      ∙ get_le-put_le 8 m.term (omega (arith, h.term))

  buffer-size : byte_at 9 buffer ≡ length m.voted_for
  buffer-size =
      byte_at_behind 8 0 term_bytes ((length m.voted_for % 256) ∷ (m.voted_for ++ tail))
        (length-put_le 8 m.term)
      ∙ omega (arith, h.vote)

  buffer-vote : take (length m.voted_for) (drop 10 buffer) ≡ m.voted_for
  buffer-vote =
      let size = length m.voted_for % 256 in
      ap (λ l. take (length m.voted_for) (drop 9 l))
        (sym (append_assoc term_bytes (size ∷ []) (m.voted_for ++ tail)))
      ∙ ap (take (length m.voted_for)) (
          drop_front 9 (term_bytes ++ size ∷ []) (m.voted_for ++ tail)
            (omega (arith, length-append term_bytes (size ∷ []), length-put_le 8 m.term)))
      ∙ take_front (length m.voted_for) m.voted_for tail refl

encode_meta_shape :
    (crc : Bytes → ℕ) (m : FileMeta)
    → (tail : Bytes) × (encode_meta crc m
        ≡ meta_version ∷ (put_le 8 m.term ++ (length m.voted_for % 256) ∷ (m.voted_for ++ tail)))
unfolding encode_meta meta_header
encode_meta_shape crc m =
    let pad = zeros (meta_voted_for_size - length m.voted_for) in
    let sum = put_le 4 (crc (meta_header m)) in
    let size = length m.voted_for % 256 in
    (
      pad ++ sum,
      ap (λ l. meta_version ∷ l)
          (append_assoc (put_le 8 m.term) (size ∷ (m.voted_for ++ pad)) sum
            ∙ ap (λ l. put_le 8 m.term ++ size ∷ l) (append_assoc m.voted_for pad sum)),
    )

checksum_lem :
    (crc : Bytes → ℕ)
    → IsChecksum crc
    → (m : FileMeta) → IsMeta m
    → get_le (drop meta_header_size (encode_meta crc m))
      ≡ crc (take meta_header_size (encode_meta crc m))
unfolding encode_meta
checksum_lem crc small m h =
    let front = meta_header m in
    let sum = put_le 4 (crc front) in
    ap get_le (drop_front 265 front sum (length-meta_header m h))
    ∙ get_le-put_le 4 (crc front) (omega (arith, small front))
    ∙ ap crc (sym (take_front 265 front sum (length-meta_header m h)))

decode-encode_meta :
    (crc : Bytes → ℕ)
    → IsChecksum crc
    → (m : FileMeta) → IsMeta m
    → decode_meta crc (encode_meta crc m) ≡ loaded m
unfolding decode_meta
decode-encode_meta crc small m h =
    let (tail, shape) = encode_meta_shape crc m in
    let good : (get_le (drop meta_header_size (encode_meta crc m))
          == crc (take meta_header_size (encode_meta crc m)))
        ≡ true =
      ground (arith, checksum_lem crc small m h) in
    let version : (byte_at 0 (encode_meta crc m) == meta_version) ≡ true =
      ap (λ l. byte_at 0 l == meta_version) shape in
    let term : get_le (slice 1 9 (encode_meta crc m)) ≡ m.term =
      ap (λ l. get_le (slice 1 9 l)) shape ∙ buffer-term m tail h in
    let size : byte_at 9 (encode_meta crc m) ≡ length m.voted_for =
      ap (byte_at 9) shape ∙ buffer-size m tail h in
    let vote : take (byte_at 9 (encode_meta crc m)) (drop 10 (encode_meta crc m)) ≡ m.voted_for =
      ap (λ n. take n (drop 10 (encode_meta crc m))) size
      ∙ ap (λ l. take (length m.voted_for) (drop 10 l)) shape
      ∙ buffer-vote m tail h in
    rw (decode_meta, good, version) (rw (term, vote) refl)

-- Saves one after another, in which nothing fails, and whether all of them succeed.
abbrev pub save_all : (Bytes → ℕ) → List FileMeta → Bytes → Bytes × Bool
save_all crc [] file = (file, true)
save_all crc (m ∷ ms) file =
    let r = save_file crc done m file in let rest = save_all crc ms r.0 in (rest.0, r.1 && rest.1)

abbrev pub AreMeta : List FileMeta → Type 0
AreMeta [] = Unit {0}
AreMeta (m ∷ ms) = IsMeta m × AreMeta ms

abbrev pub last_meta : FileMeta → List FileMeta → FileMeta
last_meta m [] = m
last_meta m (n ∷ ns) = last_meta n ns

-- A file that holds one record.
save_file_done :
    (crc : Bytes → ℕ) (m : FileMeta) (file : Bytes)
    → IsMeta m
    → length file ≤ 269
    → save_file crc done m file ≡ (encode_meta crc m, true)
unfolding save_file
save_file_done crc m file h short =
    let fits : ltb meta_voted_for_size (length m.voted_for) ≡ false = ground (arith, h.vote) in
    let none_left : drop (length (encode_meta crc m)) file ≡ [] =
      drop_all (length (encode_meta crc m)) file
        (omega (arith, short, length-encode_meta crc m h)) in
    rw (save_file, fits)
      (ap (λ l. (encode_meta crc m ++ l, true)) none_left
        ∙ ap (λ l. (l, true)) (append-nil (encode_meta crc m)))

load_record :
    (crc : Bytes → ℕ)
    → IsChecksum crc
    → (m : FileMeta) → IsMeta m
    → load_file crc (encode_meta crc m) ≡ loaded m
unfolding load_file
load_record crc small m h =
    let size = length-encode_meta crc m h in
    let buf : take meta_record_size (encode_meta crc m) ≡ encode_meta crc m =
      take_whole 269 (encode_meta crc m) size in
    let filled : (length (encode_meta crc m) == 0) ≡ false = ground (arith, size) in
    let whole : (length (encode_meta crc m) == meta_record_size) ≡ true = ground (arith, size) in
    rw (load_file, buf, filled, whole) (decode-encode_meta crc small m h)

-- A file of at most one record, after saves of terms below 2 ^ 63 with votes of at most 255 bytes, in which nothing
-- fails: every save succeeds, and what is loaded is what was saved last, whatever the file held before. A longer vote
-- is refused, and the file stays as it is.
pub load_file-save_all :
    (crc : Bytes → ℕ)
    → IsChecksum crc
    → (m : FileMeta) (ms : List FileMeta) (file : Bytes) → IsMeta m
    → AreMeta ms
    → length file ≤ 269
    → let r = save_all crc (m ∷ ms) file in
      (r.1 ≡ true)
      × (load_file crc r.0 ≡ loaded (last_meta m ms))
      × ((long : FileMeta) (outcome : Outcome)
          → 255 < length long.voted_for
          → save_file crc outcome long r.0 ≡ (r.0, false))
unfolding save_file
load_file-save_all crc small m [] file h hs short =
    let saved = save_file_done crc m file h short in
    (
      rw saved refl,
      rw saved (load_record crc small m h),
      λ long outcome big.
          let over : ltb meta_voted_for_size (length long.voted_for) ≡ true = ground (arith, big) in
          rw (save_file, over) refl,
    )
load_file-save_all crc small m (n ∷ ns) file h hs short =
    let rest =
      load_file-save_all crc small n ns (encode_meta crc m) hs.0 hs.1
        (omega (arith, length-encode_meta crc m h)) in
    rw (save_file_done crc m file h short) rest

-- ===== src/Storage/Events/Codec.antt =====
-- wal/encode.go and reader.go, `DecodeEvent`: an event read back from its bytes.
use go_core_x.Prelude.{
  ℕ, ◌+◌, ◌^◌, ◌<◌, ◌≡◌, refl, ap, ◌∙◌, arith, false, some, ◌++◌, length, length-append, ltb,
}
use go_core_x.Bytes.{slice, put_be, get_be}
use go_core_x.Bytes.Equal.{bytes_eq}
use go_core_x.Bytes.Numbers.{length-put_be, get_be-put_be}
use go_core_x.Bytes.Slices.{slice_front, take_front, take_whole, drop_front}
use go_core_x.Storage.Events.{Event, encode_event, decode_event}

-- What an event fits in.
pub record IsEvent (e : Event) : Type 0 where
  pub source_size : length e.source < 2 ^ 16
  pub payload_size : length e.payload < 2 ^ 16

pub length-encode_event :
    (e : Event) → length (encode_event e) ≡ 2 + length e.source + 2 + length e.payload
unfolding encode_event
length-encode_event e =
    let size = put_be 2 (length e.payload) in
    omega (
      arith,
      length-append (put_be 2 (length e.source)) (e.source ++ (size ++ e.payload)),
      length-append e.source (size ++ e.payload),
      length-append size e.payload,
      length-put_be 2 (length e.source),
      length-put_be 2 (length e.payload),
    )

-- An event is read back from its bytes, with the time that is given.
pub decode-encode_event :
    (now : ℕ) (e : Event)
    → IsEvent e
    → decode_event now (encode_event e) ≡ some (record e { received_at = now })
unfolding decode_event encode_event
decode-encode_event now e f =
    let size = put_be 2 (length e.payload) in
    let tail = e.source ++ (size ++ e.payload) in
    let head = put_be 2 (length e.source) in
    let total = length-encode_event e in
    let n : get_be (slice 0 2 (head ++ tail)) ≡ length e.source =
      ap get_be (slice_front 2 head tail (length-put_be 2 (length e.source)))
      ∙ get_be-put_be 2 (length e.source) (omega (arith, f.source_size)) in
    let k : get_be (slice 0 2 (size ++ e.payload)) ≡ length e.payload =
      ap get_be (slice_front 2 size e.payload (length-put_be 2 (length e.payload)))
      ∙ get_be-put_be 2 (length e.payload) (omega (arith, f.payload_size)) in
    let l1 : ltb (length (head ++ tail)) 2 ≡ false = ground (arith, total) in
    let l2 : ltb (length (head ++ tail)) (2 + length e.source + 2) ≡ false =
      ground (arith, total) in
    let l3 : ltb (length (head ++ tail)) (2 + length e.source + 2 + length e.payload) ≡ false =
      ground (arith, total) in
    rw
      (
        decode_event,
        n,
        drop_front 2 head tail (length-put_be 2 (length e.source)),
        drop_front (length e.source) e.source (size ++ e.payload) refl,
        take_front (length e.source) e.source (size ++ e.payload) refl,
        k,
        drop_front 2 size e.payload (length-put_be 2 (length e.payload)),
        take_whole (length e.payload) e.payload refl,
        l1,
        l2,
        l3,
      )
      refl

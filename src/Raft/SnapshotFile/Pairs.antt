-- ===== src/Raft/SnapshotFile/Pairs.antt =====
-- snapshot_store.go: the records of the body.
use go_core_x.Prelude.{
  ◌^◌, ◌<◌, ◌≡◌, refl, sym, ap, ◌∙◌, arith, false, Bool-cases, inl, inr, Option, none, some, [],
  ◌∷◌, ◌++◌, append_assoc, length, length-append, ltb, ◌==◌, Map, lookup, insert, lookup-insert,
}
use go_core_x.Bytes.{Bytes, slice, put_be, get_be}
use go_core_x.Bytes.Equal.{bytes_eq, bytes_same_iff}
use go_core_x.Bytes.Numbers.{length-put_be, get_be-put_be}
use go_core_x.Bytes.Slices.{slice_front, take_front, drop_front}
use go_core_x.Raft.SnapshotFile.{encode_pair, encode_pairs, decode_pair, decode_pairs}

-- A key and a value whose lengths fit.
abbrev pub IsPair : Bytes → Bytes → Type 0
IsPair k v = (length k < 2 ^ 16) × (length v < 2 ^ 32)

abbrev pub ArePairs : Map Bytes Bytes → Type 0
ArePairs [] = Unit {0}
ArePairs ((k, v) ∷ m) = IsPair k v × ArePairs m

-- A map has one entry for each key.
abbrev pub IsDistinct : Map Bytes Bytes → Type 0
IsDistinct [] = Unit {0}
IsDistinct ((k, v) ∷ m) = (lookup k m ≡ none) × IsDistinct m

abbrev pub pair_bytes : Map Bytes Bytes → Bytes
pair_bytes [] = []
pair_bytes ((k, v) ∷ m) = encode_pair k v ++ pair_bytes m

pub encode_pairs_fit : (m : Map Bytes Bytes) → ArePairs m → encode_pairs m ≡ some (pair_bytes m)
unfolding encode_pairs
encode_pairs_fit [] f = refl
encode_pairs_fit ((k, v) ∷ m) f =
    let short : ltb 0xFFFF (length k) ≡ false = ground (arith, f.0) in
    let small : ltb 0xFFFFFFFF (length v) ≡ false = ground (arith, f.0) in
    rw (short, small, encode_pairs_fit m f.1) refl

decode_pair-parts :
    (k v rest : Bytes)
    → IsPair k v
    → decode_pair (put_be 2 (length k) ++ (k ++ (put_be 4 (length v) ++ (v ++ rest))))
      ≡ some (k, v, rest)
unfolding decode_pair
decode_pair-parts k v rest f =
    let tail = put_be 4 (length v) ++ (v ++ rest) in
    let a : get_be (slice 0 2 (put_be 2 (length k) ++ (k ++ tail))) ≡ length k =
      ap get_be (slice_front 2 (put_be 2 (length k)) (k ++ tail) (length-put_be 2 (length k)))
      ∙ get_be-put_be 2 (length k) (omega (arith, f.0)) in
    let b : get_be (slice 0 4 tail) ≡ length v =
      ap get_be (slice_front 4 (put_be 4 (length v)) (v ++ rest) (length-put_be 4 (length v)))
      ∙ get_be-put_be 4 (length v) (omega (arith, f.1)) in
    let l1 : ltb (length (put_be 2 (length k) ++ (k ++ tail))) 2 ≡ false =
      ground (arith, length-append (put_be 2 (length k)) (k ++ tail), length-put_be 2 (length k)) in
    let l2 : ltb (length (k ++ tail)) (length k) ≡ false = ground (arith, length-append k tail) in
    let l3 : ltb (length tail) 4 ≡ false =
      ground (arith, length-append (put_be 4 (length v)) (v ++ rest), length-put_be 4 (length v)) in
    let l4 : ltb (length (v ++ rest)) (length v) ≡ false = ground (arith, length-append v rest) in
    rw
      (
        decode_pair,
        a,
        drop_front 2 (put_be 2 (length k)) (k ++ tail) (length-put_be 2 (length k)),
        drop_front (length k) k tail refl,
        take_front (length k) k tail refl,
        b,
        drop_front 4 (put_be 4 (length v)) (v ++ rest) (length-put_be 4 (length v)),
        drop_front (length v) v rest refl,
        take_front (length v) v rest refl,
        l1,
        l2,
        l3,
        l4,
      )
      refl

pub decode_pair-encode :
    (k v rest : Bytes) → IsPair k v → decode_pair (encode_pair k v ++ rest) ≡ some (k, v, rest)
decode_pair-encode k v rest f =
    ap decode_pair (
      append_assoc (put_be 2 (length k)) (k ++ (put_be 4 (length v) ++ v)) rest
      ∙ ap (λ l. put_be 2 (length k) ++ l)
          (append_assoc k (put_be 4 (length v) ++ v) rest
            ∙ ap (λ l. k ++ l) (append_assoc (put_be 4 (length v)) v rest)))
    ∙ decode_pair-parts k v rest f

-- The map that a loop over records makes.
abbrev pub insert_each : Map Bytes Bytes → Map Bytes Bytes → Map Bytes Bytes
insert_each [] acc = acc
insert_each ((k, v) ∷ m) acc = insert_each m (insert k v acc)

pub decode_pairs-encode :
    (m acc : Map Bytes Bytes)
    → ArePairs m
    → decode_pairs (length m) (pair_bytes m) acc ≡ some (insert_each m acc)
unfolding decode_pairs
decode_pairs-encode [] acc f = refl
decode_pairs-encode ((k, v) ∷ m) acc f =
    rw (decode_pairs, decode_pair-encode k v (pair_bytes m) f.0)
      (decode_pairs-encode m (insert k v acc) f.1)

abbrev pub or_else : Option Bytes → Option Bytes → Option Bytes
or_else none o = o
or_else (some v) o = some v

pub lookup-insert_each :
    (j : Bytes) (m acc : Map Bytes Bytes)
    → IsDistinct m
    → lookup j (insert_each m acc) ≡ or_else (lookup j m) (lookup j acc)
unfolding lookup
lookup-insert_each j [] acc d = refl
lookup-insert_each j ((k, v) ∷ m) acc d = elim (Bool-cases (k == j)) [
  | inl same ↦
      let e : k ≡ j = (bytes_same_iff k j).0 same in
      let missing : lookup j m ≡ none = ap (λ x. lookup x m) (sym e) ∙ d.0 in
      lookup-insert_each j m (insert k v acc) d.1
      ∙ (rw (missing, same, lookup-insert j k v acc, same) refl)
  | inr other ↦
      lookup-insert_each j m (insert k v acc) d.1
      ∙ (rw (other, lookup-insert j k v acc, other) refl)
]

pub insert-IsDistinct :
    (k v : Bytes) (m : Map Bytes Bytes) → IsDistinct m → IsDistinct (insert k v m)
unfolding insert
insert-IsDistinct k v [] d = (unfold lookup in refl, tt)
insert-IsDistinct k v ((j, w) ∷ m) d = elim (Bool-cases (j == k)) [
  | inl same ↦
      let e : j ≡ k = (bytes_same_iff j k).0 same in
      rw same (ap (λ x. lookup x m) (sym e) ∙ d.0, d.1)
  | inr other ↦
      let swapped : (k == j) ≡ false =
        ground (arith, other, bytes_same_iff j k, bytes_same_iff k j) in
      rw other ((rw (lookup-insert j k v m, swapped) d.0), insert-IsDistinct k v m d.1)
]

pub insert-ArePairs :
    (k v : Bytes) (m : Map Bytes Bytes) → IsPair k v → ArePairs m → ArePairs (insert k v m)
unfolding insert
insert-ArePairs k v [] p f = (p, tt)
insert-ArePairs k v ((j, w) ∷ m) p f = elim (Bool-cases (j == k)) [
  | inl same ↦ rw same (p, f.1)
  | inr other ↦ rw other (f.0, insert-ArePairs k v m p f.1)
]

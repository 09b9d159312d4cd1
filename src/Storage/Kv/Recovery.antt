-- ===== src/Storage/Kv/Recovery.antt =====
-- raft_store.go, `RecoverKV`: what the records of a file make of an empty index.
pub mod Steps
pub mod Runs
use go_core_x.Prelude.{
  ℕ, ◌+◌, ◌≤◌, ◌<◌, ◌≡◌, refl, sym, ap, ◌∙◌, arith, Bool, true, false, Option-cases, inl, inr,
  Option, none, some, List, [], ◌∷◌, ◌++◌, append_assoc, length, length-append, Map, lookup,
}
use go_core_x.Bytes.{Bytes}
use go_core_x.Bytes.Equal.{bytes_eq}
use go_core_x.Bytes.Numbers.{length-put_be}
use go_core_x.Storage.Wal.{Record, record_header, encode_record}
use go_core_x.Storage.Wal.Records.{length-record_header}
use go_core_x.Storage.Wal.Scan.{encode_records, AreWritable}
use go_core_x.Storage.Index.{HashIndex, new_hash_index, get, len}
use go_core_x.Storage.Kv.{
  KvRecord, decode_kv_record, GetResult, found, missing, get_at, Recovering, RecoverEnd, whole,
  bad_record, no_room, recover_record, past, recover_records,
}

abbrev pub starting : ℕ → Recovering
starting max = record { index = new_hash_index max; offset = 0; last_applied = 0 }

-- What is to be read of a key.
abbrev pub expected : Option Bytes → GetResult
expected none = missing
expected (some v) = found v

-- An index finds the values of a map in a file, also when more is appended to the file.
abbrev pub Finds : (Bytes → ℕ) → Bytes → Map Bytes Bytes → HashIndex → Type 0
Finds crc file m idx =
    (k more : Bytes) → get_at crc (file ++ more) (get k idx) ≡ expected (lookup k m)

-- The state of the loop behind a file that stands for a map and a last applied index.
pub record Recovered (crc : Bytes → ℕ) (m : Map Bytes Bytes) (applied size max : ℕ) (file : Bytes)
    (r : Recovering) : Type 0 where
  pub offset : r.offset ≡ length file
  pub last_applied : r.last_applied ≡ applied
  pub fits : len r.index ≤ size
  pub bound : r.index.max_keys ≡ max
  pub finds : Finds crc file m r.index

-- The loop over one record that is decoded and for which there is room.
pub recover_one :
    (p : Record) (rs : List Record) (k : KvRecord) (s : Recovering)
    → decode_kv_record p.payload ≡ some k
    → (recover_record k s).1 ≡ true
    → recover_records (p ∷ rs) s ≡ recover_records rs (past p.payload (recover_record k s).0)
unfolding recover_records
recover_one p rs k s d room = rw (recover_records, d, room) refl

-- The loop over more records.
pub recover_records-append :
    (rs ss : List Record) (s r : Recovering)
    → recover_records rs s ≡ (r, whole)
    → recover_records (rs ++ ss) s ≡ recover_records ss r
unfolding recover_records
recover_records-append [] ss s r h = ap (recover_records ss) (ap (λ x. x.0) h)
recover_records-append (p ∷ rs) ss s r h = elim (Option-cases (decode_kv_record p.payload)) [
  | inl bad ↦ ground (arith, h, bad)
  | inr (k, good) ↦
      let next = past p.payload (recover_record k s).0 in
      ground (arith, h, good, recover_records-append rs ss next r)
]

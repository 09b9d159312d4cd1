-- ===== src/Storage/Index.antt =====
-- internal/infrastructure/storage/kv/index.go: the offsets of the keys' records, bounded in number.
pub mod Bounds
use go_core_x.Prelude.{
  ℕ, ◌+◌, Bool, true, false, not, ◌&&◌, Option, none, some, List, [], ◌∷◌, length, leb,
  if◌then◌else◌, Map, lookup, insert, delete,
}
use go_core_x.Bytes.{Bytes}
use go_core_x.Bytes.Equal.{bytes_eq}

pub record HashIndex : Type 0 where
  pub entries : Map Bytes ℕ
  pub max_keys : ℕ

abbrev pub new_hash_index : ℕ → HashIndex
new_hash_index max = record { entries = []; max_keys = max }

abbrev pub is_some {ℓ} : {A : Type ℓ} → Option A → Bool
is_some none = false
is_some (some a) = true

-- `Set`: `false` for ErrIndexFull.
unfoldable pub set : Bytes → ℕ → HashIndex → HashIndex × Bool
set key offset idx =
    if not (is_some (lookup key idx.entries)) && leb idx.max_keys (length idx.entries)
    then (idx, false)
    else (record idx { entries = insert key offset idx.entries }, true)

unfoldable pub get : Bytes → HashIndex → Option ℕ
get key idx = lookup key idx.entries

unfoldable pub remove : Bytes → HashIndex → HashIndex
remove key idx = record idx { entries = delete key idx.entries }

abbrev pub len : HashIndex → ℕ
len idx = length idx.entries

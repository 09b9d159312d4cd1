-- ===== src/Storage/Index/Bounds.antt =====
-- index.go: how many keys an index has.
use go_core_x.Prelude.{
  ℕ, ◌+◌, ◌≤◌, ◌<◌, ◌≡◌, ◌↔◌, refl, arith, true, false, ◌&&◌, none, some, [], ◌∷◌, length, ◌==◌,
  same_self, if◌then◌else◌, Map, lookup, insert, delete, lookup-insert, lookup-delete,
}
use go_core_x.Bytes.{Bytes}
use go_core_x.Bytes.Equal.{bytes_eq}
use go_core_x.Storage.Index.{HashIndex, is_some, set, get, remove, len}

length-insert :
    (k : Bytes) (v : ℕ) (m : Map Bytes ℕ)
    → length (insert k v m) ≡ (if is_some (lookup k m) then length m else length m + 1)
unfolding insert lookup
length-insert k v [] = omega arith
length-insert k v ((j, w) ∷ m) = ground (arith, length-insert k v m)

length-delete : (k : Bytes) (m : Map Bytes ℕ) → length (delete k m) ≤ length m
unfolding delete
length-delete k [] = omega arith
length-delete k ((j, v) ∷ m) = ground (arith, length-delete k m)

pub length-set : (k : Bytes) (v : ℕ) (idx : HashIndex) → len (set k v idx).0 ≤ len idx + 1
unfolding set
length-set k v idx = ground (arith, length-insert k v idx.entries)

pub length-remove : (k : Bytes) (idx : HashIndex) → len (remove k idx) ≤ len idx
unfolding remove
length-remove k idx = length-delete k idx.entries

pub max_keys-set : (k : Bytes) (v : ℕ) (idx : HashIndex) → (set k v idx).0.max_keys ≡ idx.max_keys
unfolding set
max_keys-set k v idx = ground arith

pub max_keys-remove : (k : Bytes) (idx : HashIndex) → (remove k idx).max_keys ≡ idx.max_keys
unfolding remove
max_keys-remove k idx = refl

-- An index within its bound is still within it after a key was set or deleted, and the bound is not changed.
pub index_bounded :
    (k : Bytes) (v : ℕ) (idx : HashIndex)
    → len idx ≤ idx.max_keys
    → (len (set k v idx).0 ≤ idx.max_keys)
      × (len (remove k idx) ≤ idx.max_keys)
      × ((set k v idx).0.max_keys ≡ idx.max_keys)
      × ((remove k idx).max_keys ≡ idx.max_keys)
unfolding set remove
index_bounded k v idx h = (
  ground (arith, length-insert k v idx.entries),
  omega (arith, length-delete k idx.entries),
  ground arith,
  refl,
)

-- A key is refused exactly when it is new and there are as many keys as the bound allows; an offset that is not
-- refused is the one that is found afterwards, and no other key is touched by either call.
pub set_lem :
    (k : Bytes) (v : ℕ) (idx : HashIndex)
    → ((set k v idx).1 ≡ false ↔ ((get k idx ≡ none) × (idx.max_keys ≤ len idx)))
      × ((j : Bytes)
          → get j (set k v idx).0 ≡ (if (set k v idx).1 && k == j then some v else get j idx))
unfolding set get
set_lem k v idx = (ground arith, λ j. ground (arith, lookup-insert j k v idx.entries))

pub get-remove :
    (j k : Bytes) (idx : HashIndex) → get j (remove k idx) ≡ (if k == j then none else get j idx)
unfolding get remove
get-remove j k idx = lookup-delete j k idx.entries

pub set_room :
    (k : Bytes) (v : ℕ) (idx : HashIndex) → len idx < idx.max_keys → (set k v idx).1 ≡ true
unfolding set
set_room k v idx h = ground arith

pub get-set :
    (k : Bytes) (v : ℕ) (idx : HashIndex) → (set k v idx).1 ≡ true → get k (set k v idx).0 ≡ some v
get-set k v idx h = rw ((set_lem k v idx).1 k, h, same_self k) refl

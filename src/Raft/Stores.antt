-- ===== src/Raft/Stores.antt =====
-- The durable stores behind a node: the interfaces MetaStore (meta_store.go) and LogStore
-- (log_store.go). What a store holds is its contents. Whether a call fails is decided outside the
-- node: `fails` says it of the first call, the second, and so on.
use go_core_x.Prelude.{
  ℕ, ◌+◌, String, Bool, true, false, Option, none, some, List, [], ◌∷◌, ◌++◌, ltb, leb,
  if◌then◌else◌,
}
use go_core_x.Raft.Types.{LogEntry}
use go_core_x.Raft.SnapshotFile.{Decoded}

pub record RaftMeta : Type 0 where
  pub term : ℕ
  pub voted_for : String

pub record MetaStore : Type 0 where
  pub meta : RaftMeta
  pub fails : ℕ → Bool
  pub calls : ℕ

-- MetaStore.Save: `true` for a nil error.
unfoldable pub save : MetaStore → RaftMeta → MetaStore × Bool
save s m =
    if s.fails s.calls
    then (record s { calls = s.calls + 1 }, false)
    else (record s { meta = m; calls = s.calls + 1 }, true)

-- `if n.meta != nil { err := n.meta.Save(m) ... }`
unfoldable pub save_meta : Option MetaStore → RaftMeta → Option MetaStore × Bool
unfolding save
save_meta none m = (none, true)
save_meta (some s) m = let (s', ok) = save s m in (some s', ok)

pub record LogStore : Type 0 where
  pub entries : List LogEntry
  pub fails : ℕ → Bool
  pub calls : ℕ

-- The entries before the first one with an index of at least `from`.
unfoldable pub take_below : ℕ → List LogEntry → List LogEntry
take_below from [] = []
take_below from (e ∷ es) =
    let rest = take_below from es in if ltb e.index from then e ∷ rest else []

-- The entries from the first one with an index above `up_to` on.
unfoldable pub drop_through : ℕ → List LogEntry → List LogEntry
drop_through up_to [] = []
drop_through up_to (e ∷ es) =
    let rest = drop_through up_to es in if leb e.index up_to then rest else e ∷ es

-- A call that may fail, and that changes the entries if it does not.
write : (List LogEntry → List LogEntry) → LogStore → LogStore × Bool
write f s =
    if s.fails s.calls
    then (record s { calls = s.calls + 1 }, false)
    else (record s { entries = f s.entries; calls = s.calls + 1 }, true)

write_store : (List LogEntry → List LogEntry) → Option LogStore → Option LogStore × Bool
unfolding write
write_store f none = (none, true)
write_store f (some s) = let (s', ok) = write f s in (some s', ok)

unfoldable pub store_append : LogEntry → Option LogStore → Option LogStore × Bool
unfolding write_store
store_append e = write_store (λ es. es ++ e ∷ [])

unfoldable pub store_truncate_suffix : ℕ → Option LogStore → Option LogStore × Bool
unfolding write_store take_below
store_truncate_suffix from = write_store (take_below from)

unfoldable pub store_compact_prefix : ℕ → Option LogStore → Option LogStore × Bool
unfolding write_store drop_through
store_compact_prefix up_to = write_store (drop_through up_to)

-- Newest first, as `List` returns them.
pub record SnapshotStore : Type 0 where
  pub snapshots : List Decoded
  pub fails : ℕ → Bool
  pub calls : ℕ

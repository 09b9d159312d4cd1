-- ===== src/Raft/Append/Frame.antt =====
-- What the entries of a message leave alone.
use go_core_x.Prelude.{Bool, true, false, List, [], ◌∷◌, ◌≡◌, refl, arith, ◌⊎◌, inl, inr, nat_eq}
use go_core_x.Raft.Types.{WireEntry}
use go_core_x.Raft.Stores.{take_below, store_append, store_truncate_suffix}
use go_core_x.Raft.Node.{Externals, RaftNode}
use go_core_x.Raft.Membership.Frame.{IsFramed, IsFramed-refl, IsFramed-trans, append_entry-IsFramed}
use go_core_x.Raft.Append.{
  Round, more, failed, entry_of_wire, store_entry, replace_suffix, round, append_entries,
}

abbrev after : Round → RaftNode
after (more t n) = n
after (failed n) = n

pub Round-cases :
    (r : Round) → ((t : Bool) × (n : RaftNode) × (r ≡ more t n)) ⊎ ((n : RaftNode) × (r ≡ failed n))
Round-cases (more t n) = inl (t, n, refl)
Round-cases (failed n) = inr (n, refl)

store_entry-IsFramed :
    (x : Externals) (t : Bool) (p : WireEntry) (n : RaftNode)
    → IsFramed n (after (store_entry x t p n))
unfolding store_entry
store_entry-IsFramed x t p n =
    let n' = record n { log_store = (store_append (entry_of_wire p) n.log_store).0 } in
    ground (arith, append_entry-IsFramed x (entry_of_wire p) n')

replace_suffix-IsFramed :
    (x : Externals) (p : WireEntry) (n : RaftNode) → IsFramed n (after (replace_suffix x p n))
unfolding replace_suffix
replace_suffix-IsFramed x p n =
    let stored = store_truncate_suffix p.index n.log_store in
    let n' = record n { log_store = stored.0; log = take_below p.index n.log } in
    ground (arith, store_entry-IsFramed x true p n')

round-IsFramed :
    (x : Externals) (t : Bool) (p : WireEntry) (n : RaftNode) → IsFramed n (after (round x t p n))
unfolding round
round-IsFramed x true p n = store_entry-IsFramed x true p n
round-IsFramed x false p n =
    ground (arith, IsFramed-refl n, store_entry-IsFramed x false p n, replace_suffix-IsFramed x p n)

pub append_entries-IsFramed :
    (x : Externals) (t : Bool) (ps : List WireEntry) (n : RaftNode)
    → IsFramed n (append_entries x t ps n).0
unfolding append_entries
append_entries-IsFramed x t [] n = IsFramed-refl n
append_entries-IsFramed x t (p ∷ ps) n = elim (Round-cases (round x t p n)) [
  | inl (t', n', q) ↦
      rw (q, append_entries)
        (IsFramed-trans (rw q at (round-IsFramed x t p n)) (append_entries-IsFramed x t' ps n'))
  | inr (n', q) ↦ rw (q, append_entries) (rw q at (round-IsFramed x t p n))
]

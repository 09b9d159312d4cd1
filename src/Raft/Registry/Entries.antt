-- ===== src/Raft/Registry/Entries.antt =====
-- group_registry.go, `Register` and `Get`: what becomes of the entries of the registry.
use go_core_x.Prelude.{
  String, Option, none, some, List, [], ◌∷◌, ◌≡◌, refl, sym, ap, ◌∙◌, arith, lookup, insert,
  lookup-insert, string_eq, ◌==◌, if◌then◌else◌, Option-cases, Bool-cases, eq_iff, inl, inr,
}
use go_core_x.Raft.Node.{RaftNode}
use go_core_x.Raft.Registry.{RaftGroupRegistry, get_group, register_group, register_groups}

-- The first node that a list names for a partition.
abbrev pub first_named : String → List (String × RaftNode) → Option RaftNode
first_named j [] = none
first_named j ((id, n) ∷ rest) = if id == j then some n else first_named j rest

-- The entry of a registry, where there is one, and otherwise the other value.
abbrev pub or_else : Option RaftNode → Option RaftNode → Option RaftNode
or_else (some n) o = some n
or_else none o = o

or_else-none : (o : Option RaftNode) → or_else o none ≡ o
or_else-none none = refl
or_else-none (some n) = refl

added :
    (id j : String) (n : RaftNode) (r : RaftGroupRegistry)
    → lookup id r ≡ none
    → lookup j (insert id n r) ≡ or_else (lookup j r) (if id == j then some n else none)
added id j n r q = elim (Bool-cases (id == j)) [
  | inl same ↦
      let here : lookup j r ≡ none = ap (λ k. lookup k r) (sym ((eq_iff id j).0 same)) ∙ q in
      rw (lookup-insert j id n r, same, here) refl
  | inr other ↦ rw (lookup-insert j id n r, other) (sym (or_else-none (lookup j r)))
]

kept :
    (id j : String) (n k : RaftNode) (r : RaftGroupRegistry)
    → lookup id r ≡ some k
    → lookup j r ≡ or_else (lookup j r) (if id == j then some n else none)
kept id j n k r q = elim (Bool-cases (id == j)) [
  | inl same ↦
      let here : lookup j r ≡ some k = ap (λ i. lookup i r) (sym ((eq_iff id j).0 same)) ∙ q in
      rw here refl
  | inr other ↦ rw other (sym (or_else-none (lookup j r)))
]

registered :
    (id : String) (n : RaftNode) (r : RaftGroupRegistry)
    → (r' : RaftGroupRegistry) × (register_group id (some n) r ≡ some r')
      × ((j : String) → get_group j r' ≡ or_else (get_group j r) (if id == j then some n else none))
unfolding register_group get_group
registered id n r = elim (Option-cases (lookup id r)) [
  | inl q ↦ (insert id n r, rw (register_group, q) refl, λ j. added id j n r q)
  | inr (k, q) ↦ (r, rw (register_group, q) refl, λ j. kept id j n k r q)
]

-- Registering nodes, none of them nil, never panics. Whatever is registered, and however often, an
-- entry stays as it was first made.
pub register_groups-first :
    (new : List (String × RaftNode)) (r : RaftGroupRegistry)
    → (r' : RaftGroupRegistry) × (register_groups new r ≡ some r')
      × ((j : String) → get_group j r' ≡ or_else (get_group j r) (first_named j new))
unfolding register_groups
register_groups-first [] r = (r, refl, λ j. ground arith)
register_groups-first ((id, n) ∷ rest) r =
    let (r₁, q, one) = registered id n r in
    let (r₂, p, more) = register_groups-first rest r₁ in
    (r₂, rw (register_groups, q) p, λ j. ground (arith, one j, more j))

-- ===== src/Cluster/Ring/Stable.antt =====
-- ring.go, `RemoveNode`: the keys that other nodes have.
use go_core_x.Prelude.{
  ℕ, zero, suc, ◌<◌, ◌≡◌, ◌≢◌, refl, sym, ap, ◌∙◌, arith, String, string_eq, Bool, true, Bool-cases,
  Option-cases, inl, inr, none, some, List, [], ◌∷◌, select, leb, nat_eq, Map, lookup, delete,
  lookup-delete,
}
use go_core_x.Cluster.Ring.{
  Node, Ring, is_set, first_from, first_of, or_first, delete_hashes, remove_node, point_of,
  lookup_key,
}

-- A walk over the points that pass a test finds what it found before, if that passes.
first_from-select :
    (h p : ℕ) (t : ℕ → Bool) (ps : List ℕ)
    → first_from h ps ≡ some p
    → t p ≡ true
    → first_from h (select t ps) ≡ some p
first_from-select h p t [] e k = cc
first_from-select h p t (q ∷ ps) e k = elim (Bool-cases (leb h q)) [
  | inl here ↦ ground (arith, e, here, k)
  | inr on ↦ ground (arith, e, on, k, first_from-select h p t ps)
]

first_from-select-none :
    (h : ℕ) (t : ℕ → Bool) (ps : List ℕ)
    → first_from h ps ≡ none
    → first_from h (select t ps) ≡ none
first_from-select-none h t [] e = refl
first_from-select-none h t (q ∷ ps) e = ground (arith, e, first_from-select-none h t ps)

first_of-select :
    (p : ℕ) (t : ℕ → Bool) (ps : List ℕ)
    → first_of ps ≡ some p
    → t p ≡ true
    → first_of (select t ps) ≡ some p
first_of-select p t [] e k = cc
first_of-select p t (q ∷ ps) e k = ground (arith, e, k)

or_first-select :
    (h p : ℕ) (t : ℕ → Bool) (ps : List ℕ)
    → or_first (first_from h ps) ps ≡ some p
    → t p ≡ true
    → or_first (first_from h (select t ps)) (select t ps) ≡ some p
or_first-select h p t ps e k = elim (Option-cases (first_from h ps)) [
  | inl gone ↦
      let first : first_of ps ≡ some p = (rw gone at e) in
      rw (first_from-select-none h t ps gone) (first_of-select p t ps first k)
  | inr (q, there) ↦
      let same : q ≡ p = (ground (arith, e, there)) in
      rw (first_from-select h p t ps (there ∙ ap some same) k) refl
]

module _ (vnode_hash : String → ℕ → ℕ) (key_hash : String → ℕ) where
  -- A point that is none of the node's keeps its entry.
  lookup-delete_hashes :
      (id : String) (count p : ℕ) (m : Map ℕ Node)
      → ((i : ℕ) → i < count → vnode_hash id i ≢ p)
      → lookup p (delete_hashes vnode_hash key_hash id count m) ≡ lookup p m
  unfolding delete_hashes
  lookup-delete_hashes id zero p m f = refl
  lookup-delete_hashes id (suc i) p m f =
      lookup-delete_hashes id i p (delete (vnode_hash id i) m) (λ j h. f j (omega arith))
      ∙ lookup-delete p (vnode_hash id i) m
      ∙ ground (arith, f i (omega arith))

  -- Each of the node's points is its own: no other node has taken one over.
  abbrev pub OwnsPoints : String → Ring → Type 0
  OwnsPoints id r =
      (i : ℕ)
      → i < r.vnode_count
      → (o : Node) × (lookup (vnode_hash id i) r.node_by_hash ≡ some o) × (o.id ≡ id)

  not_of_other :
      (id : String) (r : Ring) (p : ℕ) (n : Node)
      → OwnsPoints id r
      → lookup p r.node_by_hash ≡ some n
      → n.id ≢ id
      → (i : ℕ) → i < r.vnode_count
      → vnode_hash id i ≢ p
  not_of_other id r p n owns at other i h same =
      let (o, there, named) = owns i h in
      let equal : some o ≡ some n = sym there ∙ ap (λ q. lookup q r.node_by_hash) same ∙ at in
      other (cc (named, equal))

  removed_lookup :
      (id key : String) (r : Ring) (p : ℕ) (n : Node)
      → point_of vnode_hash key_hash key r ≡ some p
      → lookup p (delete_hashes vnode_hash key_hash id r.vnode_count r.node_by_hash) ≡ some n
      → lookup p r.node_by_hash ≡ some n
      → lookup_key vnode_hash key_hash key (remove_node vnode_hash key_hash id r) ≡ some n
  unfolding lookup_key remove_node
  removed_lookup id key r p n at left before = elim (Bool-cases (is_set (lookup id r.nodes))) [
    | inl known ↦
        let map = delete_hashes vnode_hash key_hash id r.vnode_count r.node_by_hash in
        let kept : is_set (lookup p map) ≡ true = rw left refl in
        let smaller : Ring = record r {
          nodes = delete id r.nodes;
          node_by_hash = map;
          points = select (λ q. is_set (lookup q map)) r.points;
        } in
        let removed : remove_node vnode_hash key_hash id r ≡ smaller =
          rw (remove_node, known) refl in
        let found : lookup_key vnode_hash key_hash key smaller ≡ some n =
          rw
            (
              lookup_key,
              or_first-select (key_hash key) p (λ q. is_set (lookup q map)) r.points at kept,
            )
            left in
        ap (lookup_key vnode_hash key_hash key) removed ∙ found
    | inr unknown ↦
        let same : remove_node vnode_hash key_hash id r ≡ r = rw (remove_node, unknown) refl in
        let found : lookup_key vnode_hash key_hash key r ≡ some n = rw (lookup_key, at) before in
        ap (lookup_key vnode_hash key_hash key) same ∙ found
  ]

  -- When a node is removed none of whose points another node has taken over, every key that another node has
  -- stays with that node.
  pub lookup_key-remove_node :
      (id key : String) (r : Ring) (n : Node)
      → OwnsPoints id r
      → lookup_key vnode_hash key_hash key r ≡ some n
      → n.id ≢ id
      → lookup_key vnode_hash key_hash key (remove_node vnode_hash key_hash id r) ≡ some n
  unfolding lookup_key
  lookup_key-remove_node id key r n owns found other =
      elim (Option-cases (point_of vnode_hash key_hash key r)) [
        | inl empty ↦ absurd (ground (arith, found, empty))
        | inr (p, at) ↦
            let before : lookup p r.node_by_hash ≡ some n = (rw (lookup_key, at) at found) in
            let left =
              lookup-delete_hashes id r.vnode_count p r.node_by_hash
                (not_of_other id r p n owns before other)
              ∙ before in
            removed_lookup id key r p n at left before
      ]

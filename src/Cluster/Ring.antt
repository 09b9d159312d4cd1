-- ===== src/Cluster/Ring.antt =====
-- internal/infrastructure/cluster/ring.go and node.go: the consistent hash ring. The hash of a text
-- is a parameter, `vnode_hash` of a node's name and a number, `key_hash` of a key. A pointer to a
-- node is the node. sort.Slice is an insertion sort, sort.Search a walk from the front.
pub mod Stable
pub mod Tests
use go_core_x.Prelude.{
  ℕ, zero, suc, ◌+◌, String, string_eq, Bool, true, false, Option, none, some, List, [], ◌∷◌, ◌++◌,
  select, leb, ◌==◌, nat_eq, if◌then◌else◌, Map, lookup, insert, delete, length,
}

pub record Node : Type 0 where
  pub id : String
  pub addr : String
  pub healthy : Bool

abbrev pub new_node : String → String → Node
new_node id addr = record { id = id; addr = addr; healthy = true }

abbrev pub default_vnode_count : ℕ
default_vnode_count = 150

pub record Ring : Type 0 where
  pub vnode_count : ℕ
  pub points : List ℕ
  pub node_by_hash : Map ℕ Node
  pub nodes : Map String Node

abbrev pub new_ring : ℕ → Ring
new_ring count = record {
  vnode_count = if count == 0 then default_vnode_count else count;
  points = [];
  node_by_hash = [];
  nodes = [];
}

abbrev pub is_set {ℓ} : {A : Type ℓ} → Option A → Bool
is_set none = false
is_set (some a) = true

pub insert_point : ℕ → List ℕ → List ℕ
insert_point p [] = p ∷ []
insert_point p (q ∷ qs) = let rest = insert_point p qs in if leb p q then p ∷ q ∷ qs else q ∷ rest

unfoldable pub sort_points : List ℕ → List ℕ
unfolding insert_point
sort_points [] = []
sort_points (p ∷ ps) = insert_point p (sort_points ps)

-- sort.Search: the first point that is not below.
abbrev pub first_from : ℕ → List ℕ → Option ℕ
first_from h [] = none
first_from h (p ∷ ps) = let rest = first_from h ps in if leb h p then some p else rest

abbrev pub first_of : List ℕ → Option ℕ
first_of [] = none
first_of (p ∷ ps) = some p

abbrev pub or_first : Option ℕ → List ℕ → Option ℕ
or_first (some p) ps = some p
or_first none ps = first_of ps

module _ (vnode_hash : String → ℕ → ℕ) (key_hash : String → ℕ) where
  -- The loops over the virtual nodes, from the last of them down: the points are sorted behind the
  -- first loop, and both do the same at every round.
  unfoldable pub add_points : Node → ℕ → Ring → Ring
  add_points n zero r = r
  add_points n (suc i) r =
      let h = vnode_hash n.id i in
      add_points n i
        (record r { points = r.points ++ h ∷ []; node_by_hash = insert h n r.node_by_hash })

  unfoldable pub delete_hashes : String → ℕ → Map ℕ Node → Map ℕ Node
  delete_hashes id zero m = m
  delete_hashes id (suc i) m = delete_hashes id i (delete (vnode_hash id i) m)

  unfoldable pub remove_node : String → Ring → Ring
  unfolding delete_hashes
  remove_node id r =
      let left = delete_hashes id r.vnode_count r.node_by_hash in
      if is_set (lookup id r.nodes)
      then record r {
        nodes = delete id r.nodes;
        node_by_hash = left;
        points = select (λ p. is_set (lookup p left)) r.points;
      }
      else r

  unfoldable pub add_node : Node → Ring → Ring
  unfolding remove_node add_points
  add_node n r =
      let cleared = remove_node n.id r in
      let added =
        add_points n r.vnode_count (record cleared { nodes = insert n.id n cleared.nodes }) in
      record added { points = sort_points added.points }

  -- The point that is responsible for a key: the first one not below its hash, or the first of all.
  abbrev pub point_of : String → Ring → Option ℕ
  point_of key r = or_first (first_from (key_hash key) r.points) r.points

  -- `Lookup`: `none` for an empty ring.
  unfoldable pub lookup_key : String → Ring → Option Node
  lookup_key key r = elim (point_of key r) [ none ↦ none | some p ↦ lookup p r.node_by_hash ]

  abbrev pub ring_len : Ring → ℕ
  ring_len r = length r.nodes

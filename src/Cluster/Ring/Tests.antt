-- ===== src/Cluster/Ring/Tests.antt =====
-- A ring of two nodes with two points each.
use go_core_x.Prelude.{
  ℕ, zero, suc, ◌+◌, ◌*◌, ◌≡◌, ◌≢◌, refl, arith, String, string_eq, eq_iff, true, false, some, [],
  ◌∷◌, lookup, insert, ◌==◌, if◌then◌else◌, nat_eq,
}
use go_core_x.Cluster.Ring.{
  new_node, Ring, new_ring, add_node, remove_node, lookup_key, sort_points,
}
use go_core_x.Cluster.Ring.Stable.{OwnsPoints, lookup_key-remove_node}

-- "a" has the points 10 and 20, "b" 15 and 25; every key hashes to 12.
abbrev spot : String → ℕ → ℕ
spot id i = (if id == "a" then 10 else 15) + 10 * i

abbrev key_spot : String → ℕ
key_spot key = 12

abbrev two_nodes : Ring
two_nodes = record {
  vnode_count = 2;
  points = 10 ∷ 15 ∷ 20 ∷ 25 ∷ [];
  node_by_hash =
      (20, new_node "a" "x")
      ∷ (10, new_node "a" "x")
      ∷ (25, new_node "b" "y")
      ∷ (15, new_node "b" "y")
      ∷ [];
  nodes = ("a", new_node "a" "x") ∷ ("b", new_node "b" "y") ∷ [];
}

two_added :
    add_node spot key_spot
      (new_node "b" "y")
      (add_node spot key_spot (new_node "a" "x") (new_ring 2))
    ≡ two_nodes
unfolding add_node lookup insert sort_points
two_added = refl

false-ne-true : false ≢ true
false-ne-true h = cc

b-ne-a : ◌≢◌ {A = String} "b" "a"
b-ne-a h = false-ne-true ((eq_iff "b" "a").1 h)

a_owns : OwnsPoints spot key_spot "a" two_nodes
unfolding lookup
a_owns zero h = (new_node "a" "x", refl, refl)
a_owns (suc zero) h = (new_node "a" "x", refl, refl)
a_owns (suc (suc i)) h = absurd (omega arith)

found_b : lookup_key spot key_spot "k" two_nodes ≡ some (new_node "b" "y")
unfolding lookup_key lookup
found_b = refl

lookup_key-remove_node_example :
    lookup_key spot key_spot "k" (remove_node spot key_spot "a" two_nodes) ≡ some (new_node "b" "y")
lookup_key-remove_node_example =
    lookup_key-remove_node spot key_spot "a" "k" two_nodes (new_node "b" "y") a_owns found_b b-ne-a

-- ===== src/Raft/Config/Voters.antt =====
-- `AllPeers` and `ComputeNewVoters`: the addresses of a configuration as a set.
use go_core_x.Prelude.{
  String, ◌≡◌, refl, Bool, true, false, not, ◌&&◌, ◌||◌, some, List, [], ◌∷◌, ◌++◌, arith, eq_iff,
  select, contains, string_eq, Bool-cases, inl, inr,
}
use go_core_x.Raft.Types.{ClusterConfig}
use go_core_x.Raft.Config.{is_joint, add_unseen, all_peers, compute_new_voters}

-- No address stands twice.
abbrev pub distinct : List String → Bool
distinct [] = true
distinct (x ∷ xs) = not (contains xs x) && distinct xs

contains-append :
    (xs ys : List String) (a : String) → contains (xs ++ ys) a ≡ (contains xs a || contains ys a)
contains-append [] ys a = refl
contains-append (x ∷ xs) ys a = ground (arith, contains-append xs ys a)

distinct-snoc :
    (xs : List String) (a : String)
    → distinct xs ≡ true
    → contains xs a ≡ false
    → distinct (xs ++ a ∷ []) ≡ true
distinct-snoc [] a d h = refl
distinct-snoc (x ∷ xs) a d h =
    ground (arith, distinct-snoc xs a, contains-append xs (a ∷ []) x, eq_iff a x, eq_iff x a)

add_unseen-distinct :
    (out xs : List String) → distinct out ≡ true → distinct (add_unseen out xs) ≡ true
unfolding add_unseen
add_unseen-distinct out [] d = d
add_unseen-distinct out (x ∷ xs) d = elim (Bool-cases (contains out x)) [
  | inl seen ↦ rw seen (add_unseen-distinct out xs d)
  | inr fresh ↦ rw fresh (add_unseen-distinct (out ++ x ∷ []) xs (distinct-snoc out x d fresh))
]

pub contains-add_unseen :
    (out xs : List String) (a : String)
    → contains (add_unseen out xs) a ≡ (contains out a || contains xs a)
unfolding add_unseen
contains-add_unseen out [] a = ground arith
contains-add_unseen out (x ∷ xs) a = elim (Bool-cases (contains out x)) [
  | inl seen ↦ rw seen (ground (arith, contains-add_unseen out xs a, eq_iff x a))
  | inr fresh ↦
      rw fresh
        (ground (arith, contains-add_unseen (out ++ x ∷ []) xs a, contains-append out (x ∷ []) a))
]

pub contains-select :
    (keep : String → Bool) (xs : List String) (a : String)
    → contains (select keep xs) a ≡ (contains xs a && keep a)
contains-select keep [] a = refl
contains-select keep (x ∷ xs) a = ground (arith, contains-select keep xs a, eq_iff x a)

-- The peers of a configuration are its old and its new voters, each once.
pub all_peers_lem :
    (c : ClusterConfig)
    → (distinct (all_peers c) ≡ true)
      × ((a : String) → contains (all_peers c) a ≡ (contains c.voters a || contains c.new_voters a))
unfolding all_peers
all_peers_lem c = (
  add_unseen-distinct _ c.new_voters (add_unseen-distinct [] c.voters refl),
  λ a. rw (contains-add_unseen, contains-add_unseen),
)

-- Outside a joint phase, "add" gives the old voters and the named nodes, each once.
pub compute_new_voters-add :
    (c : ClusterConfig) (nodes : List String)
    → is_joint c ≡ false
    → (vs : List String) × (compute_new_voters c "add" nodes ≡ some vs)
      × (distinct vs ≡ true)
      × ((a : String) → contains vs a ≡ (contains c.voters a || contains nodes a))
unfolding compute_new_voters
compute_new_voters-add c nodes h = (
  add_unseen (add_unseen [] c.voters) nodes,
  rw h,
  add_unseen-distinct _ nodes (add_unseen-distinct [] c.voters refl),
  λ a. rw (contains-add_unseen, contains-add_unseen),
)

-- Outside a joint phase, "remove" gives the old voters that are not named.
pub compute_new_voters-remove :
    (c : ClusterConfig) (nodes : List String)
    → is_joint c ≡ false
    → (vs : List String) × (compute_new_voters c "remove" nodes ≡ some vs)
      × ((a : String) → contains vs a ≡ (contains c.voters a && not (contains nodes a)))
unfolding compute_new_voters
compute_new_voters-remove c nodes h = (
  select (λ addr. not (contains nodes addr)) c.voters,
  rw h,
  contains-select (λ addr. not (contains nodes addr)) c.voters,
)

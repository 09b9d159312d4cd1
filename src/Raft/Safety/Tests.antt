-- ===== src/Raft/Safety/Tests.antt =====
-- A node that votes for "b", refuses "c", and is asked by "b" again; and a term in which "a" is elected
-- by its own vote and that of "b", which stands for the election too.
use mathlib.Core.List.Perm
use mathlib.Core.Path.{subst}
use go_core_x.Prelude.{
  String, [], ◌∷◌, true, ◌≡◌, ◌≢◌, refl, ◌==◌, string_eq, eq_iff, arith, if◌then◌else◌, contains,
}
use go_core_x.Raft.Vote.{handle_request_vote}
use go_core_x.Raft.Vote.Tests.{node_b, b_grants_a, grants_first, grants_again, after_refusal}
use go_core_x.Raft.Examples.{externals, behind}
use go_core_x.Raft.Election.{start_election}
use go_core_x.Raft.Election.Tests.{election_with, node_a, a_stands, a_wins}
use go_core_x.Raft.Safety.{Reach, here, next, request_vote, votes_once}
use go_core_x.Raft.Safety.Leaders.{begins, grants, stands, Member, IsElected, one_leader}

abbrev refused_run : Reach externals (handle_request_vote behind 2 "b" 2 1).0 after_refusal
refused_run = next here (request_vote (handle_request_vote behind 2 "b" 2 1).0 2 "c" 2 1)

abbrev candidate_b : String
candidate_b = "b"

b_named : candidate_b ≢ ""
b_named = λ e. ground (arith, (eq_iff candidate_b "").1 e)

a_named : node_a.id ≢ ""
a_named = λ e. ground (arith, (eq_iff node_a.id "").1 e)

apart : node_a.id ≢ node_b.id
apart = λ e. ground (arith, (eq_iff node_a.id node_b.id).1 e)

votes_once_example : candidate_b ≡ "b"
votes_once_example =
    votes_once {x = externals} behind after_refusal 2 candidate_b "b" 2 1 2 1 b_named grants_first
      refused_run grants_again

abbrev candidate_address : String
candidate_address = "B"

-- The addresses of the nodes.
abbrev address_of : String → String
address_of id = if id == "a" then "A" else if id == "b" then "B" else "C"

abbrev member_at : String → Member externals 2
member_at addr =
    if addr == "A"
    then record {
      node = (start_election node_a).0;
      votes = "a" ∷ [];
      history = stands (begins node_a) a_stands refl;
    }
    else if addr == "B"
    then record {
      node = (handle_request_vote node_b 2 "a" 2 1).0;
      votes = "a" ∷ [];
      history = grants "a" 2 1 (begins node_b) b_grants_a;
    }
    else record { node = behind; votes = []; history = begins behind }

granted_by_b :
    (addr : String) → contains ("B" ∷ []) addr ≡ true → contains (member_at addr).votes "a" ≡ true
granted_by_b addr h =
    let at_b : candidate_address ≡ addr = (eq_iff candidate_address addr).0 (ground (arith, h)) in
    subst (λ a. contains (member_at a).votes "a" ≡ true) at_b refl

a-IsElected : IsElected address_of member_at node_a (election_with "B" ("B" ∷ []))
a-IsElected = record { was_candidate = a_wins; own = refl; given = granted_by_b }

one_leader_example : ¬ IsElected address_of member_at node_b (election_with "A" ("C" ∷ []))
one_leader_example =
    one_leader address_of member_at node_a node_b (election_with "B" ("B" ∷ []))
      (election_with "A" ("C" ∷ [])) a_named b_named (Perm.swap "B" "A" ("C" ∷ [])) apart
      a-IsElected

-- ===== src/Raft/Safety/Leaders.antt =====
-- Two elections of one term, by the votes that the members gave in it.
use mathlib.Core.Path.{subst}
use go_core_x.Prelude.{
  ℕ, ◌<◌, Bool-cases, inl, inr, ◌⊎◌, String, true, ◌≡◌, ◌≢◌, sym, none, some, List, [], ◌∷◌, Perm,
  arith, contains, string_eq, eq_iff, ◌==◌,
}
use go_core_x.Raft.Node.{Externals, RaftNode}
use go_core_x.Raft.Node.Ballot.{KeepsBallot}
use go_core_x.Raft.Config.Overlap.{supports, quorums_overlap}
use go_core_x.Raft.Election.{Election, check_votes, start_election}
use go_core_x.Raft.Election.Wins.{check_votes-quorum}
use go_core_x.Raft.Vote.{handle_request_vote}
use go_core_x.Raft.Vote.Ballots.{handle_request_vote-KeepsBallot}
use go_core_x.Raft.Vote.Grants.{vote_granted}
use go_core_x.Raft.Safety.{Step, Step-KeepsBallot}

-- A node over time, with the candidates that it voted for in one term, the last one first.
pub data History (x : Externals) (term : ℕ) : RaftNode → List String → Type 1 where
  begins : (n : RaftNode) → History x term n []
  goes_on :
      {n m : RaftNode} {cs : List String} → History x term n cs → Step x n m → History x term m cs
  grants :
      {n : RaftNode} {cs : List String} (c : String) (i t : ℕ)
      → History x term n cs
      → (handle_request_vote n term c i t).2 ≡ true
      → History x term (handle_request_vote n term c i t).0 (c ∷ cs)
  stands :
      {n : RaftNode} {cs : List String} {e : Election}
      → History x term n cs
      → (start_election n).1 ≡ some e
      → e.term ≡ term
      → History x term (start_election n).0 (n.id ∷ cs)

-- The vote that the node holds, unless its term is over.
abbrev Holds : ℕ → RaftNode → String → Type 0
Holds term n c = (term < n.current_term) ⊎ ((n.current_term ≡ term) × (n.voted_for ≡ c))

Holds-kept :
    (term : ℕ) (n m : RaftNode) (c : String)
    → c ≢ ""
    → KeepsBallot n m
    → Holds term n c
    → Holds term m c
Holds-kept term n m c named k h = ground (arith, named, k, h)

granted-Holds :
    (n : RaftNode) (term : ℕ) (c : String) (i t : ℕ)
    → (handle_request_vote n term c i t).2 ≡ true
    → ((handle_request_vote n term c i t).0.current_term ≡ term)
      × ((handle_request_vote n term c i t).0.voted_for ≡ c)
granted-Holds n term c i t g = ground (arith, vote_granted n term c i t g)

stood-Holds :
    (n : RaftNode) {e : Election} (term : ℕ)
    → (start_election n).1 ≡ some e
    → e.term ≡ term
    → (n.current_term < term)
      × ((start_election n).0.current_term ≡ term)
      × ((start_election n).0.voted_for ≡ n.id)
unfolding start_election
stood-Holds n term h q = ground arith

-- Every named candidate that a node voted for in a term has its vote as long as the term lasts.
History-Holds :
    {x : Externals} {term : ℕ} {n : RaftNode} {cs : List String}
    → History x term n cs
    → (c : String) → c ≢ ""
    → contains cs c ≡ true
    → Holds term n c
History-Holds (begins n) c named h = cc
History-Holds {term} (goes_on {n} {m} r s) c named h =
    Holds-kept term n m c named (Step-KeepsBallot s) (History-Holds r c named h)
History-Holds {term} (grants {n} {cs} d i t r g) c named h = elim (Bool-cases (d == c)) [
  | inl same ↦ ground (arith, granted-Holds n term d i t g, eq_iff d c, same)
  | inr other ↦
      Holds-kept term n (handle_request_vote n term d i t).0 c named
        (handle_request_vote-KeepsBallot n term d i t)
        (History-Holds r c named (ground (arith, h, other)))
]
History-Holds {term} (stands {n} {cs} r g q) c named h = elim (Bool-cases (n.id == c)) [
  | inl same ↦ ground (arith, stood-Holds n term g q, eq_iff n.id c, same)
  | inr other ↦
      absurd
        (ground (arith, stood-Holds n term g q, History-Holds r c named (ground (arith, h, other))))
]

-- A node votes for one named candidate at most in a term.
votes_agree :
    {x : Externals} {term : ℕ} {n : RaftNode} {cs : List String}
    → History x term n cs
    → (c d : String) → c ≢ ""
    → d ≢ ""
    → contains cs c ≡ true
    → contains cs d ≡ true
    → c ≡ d
votes_agree (begins n) c d named named' h k = cc
votes_agree (goes_on r s) c d named named' h k = votes_agree r c d named named' h k
votes_agree {x} {term} (grants {n} {cs} b i t r g) c d named named' h k = ground (
  arith,
  granted-Holds n term b i t g,
  History-Holds {x = x} {term = term} (grants {n = n} {cs = cs} b i t r g) c named h,
  History-Holds {x = x} {term = term} (grants {n = n} {cs = cs} b i t r g) d named' k,
)
votes_agree {x} {term} (stands {n} {cs} {e} r g q) c d named named' h k = ground (
  arith,
  stood-Holds n {e = e} term g q,
  History-Holds {x = x} {term = term} (stands {n = n} {cs = cs} {e = e} r g q) c named h,
  History-Holds {x = x} {term = term} (stands {n = n} {cs = cs} {e = e} r g q) d named' k,
)

-- A member of the cluster over time.
pub record Member (x : Externals) (term : ℕ) : Type 1 where
  pub node : RaftNode
  pub votes : List String
  pub history : History x term node votes

-- Nodes are known by their id, and to their peers by their address. `member` is the member with an
-- address.
module _ {x : Externals} {term : ℕ} (address : String → String)
    (member : String → Member x term) where
  -- The election ended by a quorum of votes: the candidate's own, and those it has collected.
  pub record IsElected (n : RaftNode) (e : Election) : Type 0 where
    pub was_candidate : (check_votes e n).1 ≡ none
    pub own : contains (member (address n.id)).votes n.id ≡ true
    pub given :
        (addr : String) → contains e.grants addr ≡ true → contains (member addr).votes n.id ≡ true

  supported :
      (n : RaftNode) (e : Election) (m : String)
      → IsElected n e
      → supports (address n.id) (contains e.grants) m ≡ true
      → contains (member m).votes n.id ≡ true
  supported n e m w h = elim (Bool-cases (m == address n.id)) [
    | inl q ↦
        subst (λ a. contains (member a).votes n.id ≡ true) (sym ((eq_iff m (address n.id)).0 q))
          w.own
    | inr q ↦ w.given m (ground (arith, q, h))
  ]

  -- Two nodes with different ids do not both end an election of the same term with a quorum among
  -- the same members, the members being the candidate's own address and the voters of its
  -- configuration. The votes are those that the members have given in that term, while their
  -- processes run and they take only the steps that keep a vote.
  pub one_leader :
      (n₁ n₂ : RaftNode) (e₁ e₂ : Election)
      → n₁.id ≢ ""
      → n₂.id ≢ ""
      → Perm (address n₁.id ∷ e₁.config.voters) (address n₂.id ∷ e₂.config.voters)
      → n₁.id ≢ n₂.id
      → IsElected n₁ e₁
      → ¬ IsElected n₂ e₂
  one_leader n₁ n₂ e₁ e₂ named named' same apart w₁ w₂ =
      let (m, _, s₁, s₂) =
        quorums_overlap (address n₁.id) (address n₂.id) e₁.config e₂.config (contains e₁.grants)
          (contains e₂.grants) same (check_votes-quorum e₁ n₁ w₁.was_candidate)
          (check_votes-quorum e₂ n₂ w₂.was_candidate) in
      apart (
        votes_agree (member m).history n₁.id n₂.id named named' (supported n₁ e₁ m w₁ s₁)
          (supported n₂ e₂ m w₂ s₂))

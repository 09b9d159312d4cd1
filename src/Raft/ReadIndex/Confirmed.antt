-- ===== src/Raft/ReadIndex/Confirmed.antt =====
-- What an index that is read rests on.
use go_core_x.Prelude.{
  ℕ, ◌<◌, String, Bool, true, false, ◌&&◌, ◌||◌, some, List, [], ◌∷◌, ◌≡◌, refl, sym, ◌∙◌, arith,
  ◌⊎◌, inl, inr, ◌==◌, contains, count_mono, Bool-cases, string_eq, if◌then◌else◌,
}
use go_core_x.Raft.Types.{ClusterConfig, leader}
use go_core_x.Raft.Config.{quorum_for}
use go_core_x.Raft.Node.{RaftNode}
use go_core_x.Raft.ReadIndex.{
  Answers, confirms, collect_answers, confirm_leadership, read_at, read_index,
}

-- Whether some answer of the peer has a term that is not above the given one.
abbrev pub confirmed : ℕ → Answers → String → Bool
confirmed term [] addr = false
confirmed term ((a, answer) ∷ rest) addr =
    (confirms term answer && a == addr) || confirmed term rest addr

quorum_for_mono :
    (c : ClusterConfig) (ack ack' : String → Bool)
    → ((a : String) → ack a ≡ true → ack' a ≡ true)
    → quorum_for c ack ≡ true
    → quorum_for c ack' ≡ true
unfolding quorum_for
quorum_for_mono c ack ack' h q =
    ground (arith, count_mono ack ack' c.voters h, count_mono ack ack' c.new_voters h)

quorum_for_ext :
    (c : ClusterConfig) (ack ack' : String → Bool)
    → ((a : String) → ack a ≡ ack' a)
    → quorum_for c ack ≡ quorum_for c ack'
quorum_for_ext c ack ack' h = ground (
  arith,
  quorum_for_mono c ack ack' (λ a p. sym (h a) ∙ p),
  quorum_for_mono c ack' ack (λ a p. h a ∙ p),
)

-- One answer: `later` is what the answers after it give, and `ack` what all of them give.
settle :
    (c : ClusterConfig) (acks : List String) (later : Bool) (ack' ack : String → Bool)
    → ((a : String) → contains acks a ≡ true → ack' a ≡ true)
    → later ≡ quorum_for c ack'
    → ((a : String) → ack' a ≡ ack a)
    → (if quorum_for c (contains acks) then true else later) ≡ quorum_for c ack
settle c acks later ack' ack h l e = elim (Bool-cases (quorum_for c (contains acks))) [
  | inl q ↦
      rw q (sym (sym (quorum_for_ext c ack' ack e) ∙ quorum_for_mono c (contains acks) ack' h q))
  | inr q ↦ rw q (l ∙ quorum_for_ext c ack' ack e)
]

collect_answers_lem :
    (c : ClusterConfig) (term : ℕ) (acks : List String) (answers : Answers)
    → collect_answers c term acks answers
      ≡ quorum_for c (λ a. contains acks a || confirmed term answers a)
unfolding collect_answers
collect_answers_lem c term acks [] =
    quorum_for_ext c (contains acks) (λ a. contains acks a || false) (λ a. ground arith)
collect_answers_lem c term acks ((addr, answer) ∷ rest) = elim (Bool-cases (confirms term answer)) [
  | inl good ↦ rw good (
      settle c (addr ∷ acks) (collect_answers c term (addr ∷ acks) rest)
        (λ a. contains (addr ∷ acks) a || confirmed term rest a)
        (λ a. contains acks a || ((addr == a) || confirmed term rest a)) (λ a p. ground (arith, p))
        (collect_answers_lem c term (addr ∷ acks) rest) (λ a. ground arith))
  | inr bad ↦ rw bad (
      settle c acks (collect_answers c term acks rest)
        (λ a. contains acks a || confirmed term rest a)
        (λ a. contains acks a || confirmed term rest a) (λ a p. ground (arith, p))
        (collect_answers_lem c term acks rest) (λ a. refl))
]

-- Answers that come after a quorum change nothing: a node with peers is confirmed exactly when those
-- that answer with a term that is not above its own are a quorum of its configuration.
pub confirm_leadership_iff :
    (n : RaftNode) (term : ℕ) (answers : Answers) (p : String) (ps : List String)
    → n.peers ≡ some (p ∷ ps)
    → confirm_leadership n term answers ≡ quorum_for n.cluster_config (confirmed term answers)
unfolding confirm_leadership
confirm_leadership_iff n term answers p ps h =
    rw (confirm_leadership, h)
      (collect_answers_lem n.cluster_config term [] answers
        ∙ quorum_for_ext n.cluster_config _ (confirmed term answers) (λ a. ground arith))

-- An index that a node with peers reads is its commit index when the read began, and the node was a
-- leader then. Either its lease had not run out, or a quorum has since answered with terms that are
-- not above the node's.
pub read_index-confirmed :
    (now : ℕ) (n later : RaftNode) (answers : Answers) (p : String) (ps : List String) {i : ℕ}
    → later.peers ≡ some (p ∷ ps)
    → read_index now n later answers ≡ read_at i
    → (n.role ≡ leader)
      × (i ≡ n.commit_index)
      × ((n.lease_enabled ≡ true) × (now < n.lease_expiry)
          ⊎ (quorum_for later.cluster_config (confirmed n.current_term answers) ≡ true))
unfolding read_index
read_index-confirmed now n later answers p ps {i} peers h =
    ground (arith, h, confirm_leadership_iff later n.current_term answers p ps peers)

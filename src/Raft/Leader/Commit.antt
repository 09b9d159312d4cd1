-- ===== src/Raft/Leader/Commit.antt =====
-- `maybeAdvanceCommitIndex`: which index the leader commits.
use native.Mathlib.Decide.{dec_lt}
use go_core_x.Prelude.{
  ℕ, zero, suc, ◌≤◌, ◌<◌, true, ◌&&◌, some, ◌≡◌, refl, arith, ◌⊎◌, inl, inr, leb, Option-cases,
  Bool-cases, ◌==◌, nat_eq,
}
use go_core_x.Raft.Types.{LogEntry, ClusterConfig}
use go_core_x.Raft.Config.{quorum_for}
use go_core_x.Raft.Node.{RaftNode, entry_at}
use go_core_x.Raft.Leader.{advance_from, maybe_advance_commit_index, match_of}

-- The index may be committed in this term: its entry is of the term, and a quorum has it.
pub record IsCommittable (term : ℕ) (cfg : ClusterConfig) (n : RaftNode) (i : ℕ) : Type 0 where
  pub own_term : (e : LogEntry) × (entry_at n i ≡ some e) × (e.term ≡ term)
  pub replicated : quorum_for cfg (λ addr. leb i (match_of n addr)) ≡ true

-- The commit index either stays, and no later index up to `last` may be committed, or it grows to
-- the last index up to `last` that may.
pub record Advances (term last : ℕ) (cfg : ClusterConfig) (n n' : RaftNode) : Type 0 where
  pub moves :
      (n'.commit_index ≡ n.commit_index)
      ⊎ (n.commit_index < n'.commit_index)
        × (n'.commit_index ≤ last)
        × IsCommittable term cfg n n'.commit_index
  pub highest : (j : ℕ) → n'.commit_index < j → j ≤ last → ¬ IsCommittable term cfg n j

committable_now :
    (term : ℕ) (cfg : ClusterConfig) (n : RaftNode) (i : ℕ) → Dec (IsCommittable term cfg n i)
committable_now term cfg n i = elim (Option-cases (entry_at n i)) [
  | inl q ↦ no (λ c. let (e, r, _) = c.own_term in cc)
  | inr (e, q) ↦
      elim (Bool-cases (e.term == term && quorum_for cfg (λ addr. leb i (match_of n addr)))) [
        | inl b ↦
            yes (record { own_term = (e, q, ground (arith, b)); replicated = ground (arith, b) })
        | inr b ↦ no (λ c. let (f, r, s) = c.own_term in ground (arith, b, q, r, s, c.replicated))
      ]
]

-- One round of the loop.
advance_step :
    (term : ℕ) (cfg : ClusterConfig) (n : RaftNode) (i : ℕ)
    → n.commit_index < suc i
    → (IsCommittable term cfg n (suc i)
        × (advance_from term cfg n (suc i) ≡ record n { commit_index = suc i }))
      ⊎ ((¬ IsCommittable term cfg n (suc i))
          × (advance_from term cfg n (suc i) ≡ advance_from term cfg n i))
unfolding advance_from
advance_step term cfg n i lt = elim (committable_now term cfg n (suc i)) [
  | yes c ↦ let (e, q, s) = c.own_term in inl (c, ground (arith, q, s, c.replicated))
  | no c ↦ elim (Option-cases (entry_at n (suc i))) [
    | inl q ↦ inr (c, ground (arith, q))
    | inr (e, q) ↦
        elim (Bool-cases
          (e.term == term && quorum_for cfg (λ addr. leb (suc i) (match_of n addr)))) [
            | inl b ↦ absurd (
                c (record { own_term = (e, q, ground (arith, b)); replicated = ground (arith, b) }))
            | inr b ↦ inr (c, ground (arith, q, b))
          ]
  ]
]

stays :
    (term : ℕ) (cfg : ClusterConfig) (n : RaftNode) (i : ℕ)
    → i ≤ n.commit_index
    → advance_from term cfg n i ≡ n
unfolding advance_from
stays term cfg n zero h = refl
stays term cfg n (suc i) h = ground arith

-- An index above `i` is not above `suc i`, or is `suc i`.
advance_from-Advances :
    (term : ℕ) (cfg : ClusterConfig) (n : RaftNode) (i : ℕ)
    → Advances term i cfg n (advance_from term cfg n i)
advance_from-Advances term cfg n zero =
    rw (stays term cfg n zero (omega arith))
      (record { moves = inl refl; highest = λ j lt le. absurd (omega arith) })
advance_from-Advances term cfg n (suc i) = elim (dec_lt n.commit_index (suc i)) [
  | no ge ↦
      rw (stays term cfg n (suc i) (omega arith))
        (record { moves = inl refl; highest = λ j lt le. absurd (omega arith) })
  | yes lt ↦ elim (advance_step term cfg n i lt) [
    | inl (c, q) ↦
        rw q (record {
          moves = inr (lt, omega arith, c);
          highest = λ j above le. absurd (omega arith);
        })
    | inr (c, q) ↦ rw q (
        let ih = advance_from-Advances term cfg n i in
        record {
          moves = elim ih.moves [ inl same ↦ inl same | inr (g, le, k) ↦ inr (g, omega arith, k) ];
          highest = λ j above le. elim (dec_lt i j) [
            | yes p ↦ let e : j ≡ suc i = omega arith in rw e c
            | no p ↦ ih.highest j above (omega arith)
          ];
        })
  ]
]

-- The leader's commit index moves to the last index, up to the end of its log, that a quorum has
-- replicated with an entry of the leader's own term, and stays where there is no such index.
pub maybe_advance_commit_index-Advances :
    (term last : ℕ) (cfg : ClusterConfig) (n : RaftNode)
    → Advances term last cfg n (maybe_advance_commit_index term last cfg n)
unfolding maybe_advance_commit_index
maybe_advance_commit_index-Advances term last cfg n = advance_from-Advances term cfg n last

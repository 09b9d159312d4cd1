-- ===== src/Raft/Append/Refuse.antt =====
-- The hint that comes with a refusal: where the leader may resume.
use native.Mathlib.Decide.{dec_lt}
use go_core_x.Prelude.{
  ℕ, zero, suc, ◌+◌, ◌-◌, ◌≤◌, ◌<◌, false, none, some, ◌≡◌, ◌≢◌, refl, arith, ◌⊎◌, inl, inr,
  Option-cases, Bool-cases, ◌==◌, nat_eq,
}
use go_core_x.Raft.Types.{AppendEntriesArgs, AppendEntriesResult}
use go_core_x.Raft.Node.{RaftNode, last_entry, term_at}
use go_core_x.Raft.Append.{first_of_term, check_prev}

-- `first` is the first of the entries up to `last` that have the term `t` without a gap.
pub record IsFirstOf (n : RaftNode) (t last first : ℕ) : Type 0 where
  pub positive : 0 < first
  pub bounded : first ≤ last
  pub same : (j : ℕ) → first ≤ j → j ≤ last → term_at n j ≡ some t
  pub stops : (first ≡ 1) ⊎ (term_at n (first - 1) ≢ some t)

first_of_term-IsFirstOf :
    (n : RaftNode) (t k : ℕ) → 0 < k → term_at n k ≡ some t → IsFirstOf n t k (first_of_term n t k)
unfolding first_of_term
first_of_term-IsFirstOf n t zero pos h = absurd (omega arith)
first_of_term-IsFirstOf n t (suc zero) pos h = record {
  positive = omega arith;
  bounded = omega arith;
  same = λ j lo hi. let e : j ≡ 1 = omega arith in rw e h;
  stops = inl refl;
}
first_of_term-IsFirstOf n t (suc (suc i)) pos h = elim (Option-cases (term_at n (suc i))) [
  | inl q ↦ rw (q, first_of_term) (here n t (suc i) h (λ e. cc))
  | inr (u, q) ↦ elim (Bool-cases (u == t)) [
    | inl same ↦
        rw (q, first_of_term)
          (rw same (
            further n t (suc i) _ h
              (first_of_term-IsFirstOf n t (suc i) (omega arith) (ground arith))))
    | inr other ↦ rw (q, first_of_term) (rw other (here n t (suc i) h (λ e. ground arith)))
  ]
]
  where
    here :
        (n : RaftNode) (t i : ℕ)
        → term_at n (suc i) ≡ some t
        → term_at n i ≢ some t
        → IsFirstOf n t (suc i) (suc i)
    here n t i h ne = record {
      positive = omega arith;
      bounded = omega arith;
      same = λ j lo hi. let e : j ≡ suc i = omega arith in rw e h;
      stops = inr (λ p. ne (let e : suc i - 1 ≡ i = omega arith in rw e at p));
    }

    further :
        (n : RaftNode) (t i f : ℕ)
        → term_at n (suc i) ≡ some t
        → IsFirstOf n t i f
        → IsFirstOf n t (suc i) f
    further n t i f h r = record {
      positive = r.positive;
      bounded = omega (arith, r.bounded);
      same = λ j lo hi. elim (dec_lt i j) [
        | yes p ↦ let e : j ≡ suc i = omega arith in rw e h
        | no p ↦ r.same j lo (omega arith)
      ];
      stops = r.stops;
    }

-- A refusal by the check on the previous entry says why. Either the node knows no entry at the
-- previous index, and the hint is the index behind its last entry, with term 0. Or its entry there
-- has another term, and the hint is that term with the first index from which on the node's
-- entries have it.
pub check_prev-hint :
    (n : RaftNode) (args : AppendEntriesArgs) {r : AppendEntriesResult}
    → check_prev n args ≡ some r
    → (r.success ≡ false)
      × ((term_at n args.prev_log_index ≡ none)
            × (r.conflict_index ≡ (last_entry n).0 + 1)
            × (r.conflict_term ≡ 0)
          ⊎ (term_at n args.prev_log_index ≡ some r.conflict_term)
            × (r.conflict_term ≢ args.prev_log_term)
            × IsFirstOf n r.conflict_term args.prev_log_index r.conflict_index)
unfolding check_prev
check_prev-hint n args {r} h = elim (Option-cases (term_at n args.prev_log_index)) [
  | inl q ↦ (ground arith, inl (q, ground arith, ground arith))
  | inr (t, q) ↦
      let pos : 0 < args.prev_log_index = ground arith in
      let ct : r.conflict_term ≡ t = ground arith in
      let ci : r.conflict_index ≡ first_of_term n t args.prev_log_index = ground arith in
      (
        ground arith,
        inr (
          rw ct q,
          ground arith,
          rw (ct, ci) (first_of_term-IsFirstOf n t args.prev_log_index pos q),
        ),
      )
]

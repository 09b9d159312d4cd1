-- ===== src/Raft/Node/Compact.antt =====
-- `truncateLogPrefix`, after a snapshot has been saved.
use go_core_x.Prelude.{ℕ, suc, ◌≤◌, ◌<◌, none, some, ◌≡◌, arith, leb, nat_eq, if◌then◌else◌}
use go_core_x.Raft.Node.{RaftNode, entry_at, term_at, truncate_log_prefix}
use go_core_x.Raft.Node.Log.{IsWellFormed, drop_through-IsConsecutive, find_back-drop_through}

-- What is known of the log is known as before from the given index on, and nothing before it.
pub record IsCompacted (up_to : ℕ) (n n' : RaftNode) : Type 0 where
  pub well_formed : IsWellFormed n'
  pub entries : (j : ℕ) → up_to < j → entry_at n' j ≡ entry_at n j
  pub terms : (j : ℕ) → up_to ≤ j → term_at n' j ≡ term_at n j
  pub forgotten : (j : ℕ) → j < up_to → term_at n' j ≡ none

entry_at-truncated :
    (n : RaftNode) (up_to term j : ℕ)
    → IsWellFormed n
    → entry_at (truncate_log_prefix n up_to term) j ≡ (if leb j up_to then none else entry_at n j)
unfolding entry_at truncate_log_prefix
entry_at-truncated n up_to term j w =
    ground (arith, find_back-drop_through (suc n.snapshot_index) up_to j n.log w.consecutive)

term_at-truncated :
    (n : RaftNode) (up_to term j : ℕ)
    → IsWellFormed n
    → n.snapshot_index ≤ up_to
    → 0 < up_to
    → term_at n up_to ≡ some term
    → up_to ≤ j
    → term_at (truncate_log_prefix n up_to term) j ≡ term_at n j
unfolding term_at truncate_log_prefix
term_at-truncated n up_to term j w above pos known le =
    ground (arith, entry_at-truncated n up_to term j w, known)

term_at-forgotten :
    (n : RaftNode) (up_to term j : ℕ)
    → IsWellFormed n
    → j < up_to
    → term_at (truncate_log_prefix n up_to term) j ≡ none
unfolding term_at truncate_log_prefix
term_at-forgotten n up_to term j w lt = ground (arith, entry_at-truncated n up_to term j w)

-- If a well-formed log is compacted up to a positive index that is not before its snapshot and whose
-- term it knows, then it stays well-formed, every later entry and every term from this index on is
-- as before, and the terms before it are forgotten.
pub truncate_log_prefix-IsCompacted :
    (n : RaftNode) (up_to term : ℕ)
    → IsWellFormed n
    → n.snapshot_index ≤ up_to
    → 0 < up_to
    → term_at n up_to ≡ some term
    → IsCompacted up_to n (truncate_log_prefix n up_to term)
unfolding truncate_log_prefix
truncate_log_prefix-IsCompacted n up_to term w above pos known = record {
  well_formed = record {
    consecutive =
        drop_through-IsConsecutive (suc n.snapshot_index) up_to n.log w.consecutive (omega arith);
  };
  entries = λ j lt. ground (arith, entry_at-truncated n up_to term j w, lt);
  terms = λ j le. term_at-truncated n up_to term j w above pos known le;
  forgotten = λ j lt. term_at-forgotten n up_to term j w lt;
}

-- ===== src/Raft/Membership/Proposals.antt =====
-- What a proposal does to the log, whether the node leads and its store works or not.
use go_core_x.Prelude.{
  ℕ, suc, ◌+◌, true, Option, none, some, [], ◌∷◌, ◌++◌, ◌≡◌, refl, arith, ◌⊎◌, inl, inr, length,
  get_last?, Bool-cases, Option-cases,
}
use go_core_x.Raft.Types.{LogEntry, is_leader_role}
use go_core_x.Raft.Stores.{store_append}
use go_core_x.Raft.Node.{Externals, RaftNode, last_entry}
use go_core_x.Raft.Node.Log.{IsWellFormed, IsConsecutive-append, get_last?-index, get_last?-none}
use go_core_x.Raft.Membership.{append_entry, propose_entry}
use go_core_x.Raft.Membership.Frame.{append_entry-IsFramed}

pub last_entry-index :
    (n : RaftNode) → IsWellFormed n → (last_entry n).0 ≡ n.snapshot_index + length n.log
unfolding last_entry
last_entry-index n w = elim (Option-cases (get_last? n.log)) [
  | inl q ↦ rw (last_entry, q) (omega (arith, get_last?-none n.log q))
  | inr (e, q) ↦
      rw (last_entry, q)
        (omega (arith, get_last?-index (suc n.snapshot_index) n.log {e = e} w.consecutive q))
]

-- The entry that a leader makes of a proposal.
abbrev pub proposed : RaftNode → LogEntry → LogEntry
proposed n e = record e { index = suc (n.snapshot_index + length n.log); term = n.current_term }

-- Either the entry is given the index behind the log and stands there, saved, or the log is as
-- before.
pub record IsProposed (n n' : RaftNode) (e : LogEntry) (r : Option (ℕ × ℕ)) : Type 0 where
  pub well_formed : IsWellFormed n'
  pub outcome :
      (r ≡ some (suc (n.snapshot_index + length n.log), n.current_term))
        × (is_leader_role n.role ≡ true)
        × (n'.log ≡ n.log ++ proposed n e ∷ [])
        × ((store_append (proposed n e) n.log_store).1 ≡ true)
      ⊎ (r ≡ none) × (n'.log ≡ n.log)

IsWellFormed-longer :
    (n n' : RaftNode) (e : LogEntry)
    → IsWellFormed n
    → n'.log ≡ n.log ++ proposed n e ∷ []
    → n'.snapshot_index ≡ n.snapshot_index
    → IsWellFormed n'
IsWellFormed-longer n n' e w l s = record {
  consecutive =
      rw (l, s)
        (IsConsecutive-append (suc n.snapshot_index) n.log (proposed n e ∷ []) w.consecutive
          (omega arith, tt));
}

propose_as_leader :
    (x : Externals) (n : RaftNode) (e : LogEntry)
    → IsWellFormed n
    → is_leader_role n.role ≡ true
    → IsProposed n (propose_entry x n e).0 e (propose_entry x n e).1
unfolding propose_entry
propose_as_leader x n e w q =
    let i : (last_entry n).0 + 1 ≡ suc (n.snapshot_index + length n.log) =
      omega (arith, last_entry-index n w) in
    rw (propose_entry, q, i)
      (elim (Bool-cases (store_append (proposed n e) n.log_store).1) [
        | inl ok ↦
            let n' = record n { log_store = (store_append (proposed n e) n.log_store).0 } in
            let (f, l) = append_entry-IsFramed x (proposed n e) n' in
            rw ok (record {
              well_formed =
                  IsWellFormed-longer n (append_entry x (proposed n e) n') e w l f.snapshot_index;
              outcome = inl (refl, q, l, ok);
            })
        | inr failed ↦ rw failed (record {
          well_formed = record { consecutive = w.consecutive };
          outcome = inr (refl, refl);
        })
      ])

-- A proposal leaves a well-formed log well-formed. Either the node leads, its store has taken the
-- entry, and the entry stands behind the log with the index and the term that are returned; or
-- nothing is returned, and the log is as before.
pub propose_entry-IsProposed :
    (x : Externals) (n : RaftNode) (e : LogEntry)
    → IsWellFormed n
    → IsProposed n (propose_entry x n e).0 e (propose_entry x n e).1
unfolding propose_entry
propose_entry-IsProposed x n e w = elim (Bool-cases (is_leader_role n.role)) [
  | inl q ↦ propose_as_leader x n e w q
  | inr q ↦ rw (propose_entry, q) (record { well_formed = w; outcome = inr (refl, refl) })
]

-- ===== src/Raft/Append/Accept.antt =====
-- `HandleAppendEntries` on a well-formed log.
use go_core_x.Prelude.{
  ℕ, suc, ◌+◌, ◌≤◌, true, false, none, some, ◌≡◌, ◌∙◌, sym, ap, arith, length, ltb, Option-cases,
  Bool-cases, inl, inr, ◌⊎◌,
}
use go_core_x.Raft.Types.{AppendEntriesArgs, AppendEntriesResult}
use go_core_x.Raft.Node.{Externals, RaftNode, find_back, entry_at, term_at}
use go_core_x.Raft.Node.Log.{IsWellFormed, find_back-below, find_back-above}
use go_core_x.Raft.Append.{
  raise_term, follow, check_prev, append_entries, advance_commit, replicate_entries,
  handle_append_entries,
}
use go_core_x.Raft.Append.Frame.{append_entries-IsFramed}
use go_core_x.Raft.Append.Matching.{
  IsReady, IsRun, Holds, append_entries-IsConsecutive, append_entries-IsMatched,
}

-- The entries of the message follow its previous index. Where that is 0, nothing has been compacted.
pub record IsAligned (n : RaftNode) (args : AppendEntriesArgs) : Type 0 where
  pub run : IsRun (suc args.prev_log_index) args.entries
  pub from_start : args.prev_log_index ≡ 0 → n.snapshot_index ≡ 0

-- An index with a known term is that of the snapshot or of an entry.
pub term_at-range :
    (n : RaftNode) (j : ℕ) {t : ℕ}
    → IsWellFormed n
    → term_at n j ≡ some t
    → (n.snapshot_index ≤ j) × (j ≤ n.snapshot_index + length n.log)
unfolding term_at entry_at
term_at-range n j w h = ground (
  arith,
  find_back-below (suc n.snapshot_index) j n.log w.consecutive,
  find_back-above (suc n.snapshot_index) j n.log w.consecutive,
)

-- What the follower keeps when it follows a leader.
pub follow_same :
    (args : AppendEntriesArgs) (n : RaftNode)
    → ((follow args n).log ≡ n.log)
      × ((follow args n).snapshot_index ≡ n.snapshot_index)
      × ((follow args n).snapshot_term ≡ n.snapshot_term)
      × ((follow args n).commit_index ≡ n.commit_index)
unfolding follow raise_term
follow_same args n = ground arith

-- A passed check leaves no gap between the log and the message.
pub prev_in_range :
    (n : RaftNode) (args : AppendEntriesArgs)
    → IsWellFormed n
    → (args.prev_log_index ≡ 0 → n.snapshot_index ≡ 0)
    → check_prev n args ≡ none
    → (n.snapshot_index ≤ args.prev_log_index)
      × (args.prev_log_index ≤ n.snapshot_index + length n.log)
unfolding check_prev
prev_in_range n args w start h = elim (Option-cases (term_at n args.prev_log_index)) [
  | inl q ↦ let zero_prev : args.prev_log_index ≡ 0 = ground arith in omega (arith, start zero_prev)
  | inr (t, q) ↦ term_at-range n args.prev_log_index {t = t} w q
]

pub ready :
    (n : RaftNode) (args : AppendEntriesArgs)
    → IsWellFormed n
    → (args.prev_log_index ≡ 0 → n.snapshot_index ≡ 0)
    → check_prev n args ≡ none
    → IsReady (suc n.snapshot_index) (suc args.prev_log_index) false n
ready n args w start h =
    let (lo, hi) = prev_in_range n args w start h in
    record {
      positive = omega arith;
      consecutive = w.consecutive;
      low = omega arith;
      high = omega arith;
      at_end = λ c. cc;
    }

pub follow-IsWellFormed :
    (args : AppendEntriesArgs) (n : RaftNode) → IsWellFormed n → IsWellFormed (follow args n)
follow-IsWellFormed args n w =
    let (l, i, _, _) = follow_same args n in record { consecutive = rw (l, i) w.consecutive }

pub follow-IsAligned :
    (args : AppendEntriesArgs) (n : RaftNode) → IsAligned n args → IsAligned (follow args n) args
follow-IsAligned args n a =
    let (_, i, _, _) = follow_same args n in
    record { run = a.run; from_start = λ z. i ∙ a.from_start z }

-- What the loop's result decides.
pub replicate_entries_parts :
    (x : Externals) (args : AppendEntriesArgs) (n : RaftNode)
    → ((replicate_entries x args n).0.log ≡ (append_entries x false args.entries n).0.log)
      × ((replicate_entries x args n).0.snapshot_index ≡ n.snapshot_index)
      × ((replicate_entries x args n).1.success ≡ (append_entries x false args.entries n).1)
unfolding replicate_entries advance_commit
replicate_entries_parts x args n = ground (arith, append_entries-IsFramed x false args.entries n)

replicate_entries-IsWellFormed :
    (x : Externals) (args : AppendEntriesArgs) (n : RaftNode)
    → IsWellFormed n
    → IsAligned n args
    → check_prev n args ≡ none
    → IsWellFormed (replicate_entries x args n).0
replicate_entries-IsWellFormed x args n w a h =
    let c =
      append_entries-IsConsecutive x (suc n.snapshot_index) (suc args.prev_log_index) false
        args.entries n (ready n args w a.from_start h) a.run in
    let (l, i, _) = replicate_entries_parts x args n in record { consecutive = rw (l, i) c }

-- A message whose entries follow its previous index leaves a well-formed log well-formed, whether it
-- is accepted, refused, or cut short by a store that fails. A message from the start of the log
-- is only expected where nothing has been compacted.
pub handle_append_entries-IsWellFormed :
    (x : Externals) (n : RaftNode) (args : AppendEntriesArgs)
    → IsWellFormed n
    → IsAligned n args
    → IsWellFormed (handle_append_entries x n args).0
unfolding handle_append_entries
handle_append_entries-IsWellFormed x n args w a =
    let w' = follow-IsWellFormed args n w in
    elim (Bool-cases (ltb args.term n.current_term)) [
      | inl old ↦ rw old w
      | inr new ↦ rw new (elim (Option-cases (check_prev (follow args n) args)) [
        | inl q ↦
            rw q (
              replicate_entries-IsWellFormed x args (follow args n) w' (follow-IsAligned args n a)
                q)
        | inr (r, q) ↦ rw q w'
      ])
    ]

-- What an accepted message leaves behind.
pub record IsAccepted (n n' : RaftNode) (args : AppendEntriesArgs) : Type 0 where
  pub current : n.current_term ≤ args.term
  pub previous :
      (args.prev_log_index ≡ 0) ⊎ (term_at n args.prev_log_index ≡ some args.prev_log_term)
  pub holds : Holds args.entries n'.log
  pub kept : (j : ℕ) → j ≤ args.prev_log_index → find_back j n'.log ≡ find_back j n.log

pub check_prev-previous :
    (n : RaftNode) (args : AppendEntriesArgs)
    → check_prev n args ≡ none
    → (args.prev_log_index ≡ 0) ⊎ (term_at n args.prev_log_index ≡ some args.prev_log_term)
unfolding check_prev
check_prev-previous n args h = ground arith

term_at-follow :
    (args : AppendEntriesArgs) (n : RaftNode) (j : ℕ) → term_at (follow args n) j ≡ term_at n j
unfolding term_at entry_at
term_at-follow args n j = ground (arith, follow_same args n)

check_prev-refuses :
    (n : RaftNode) (args : AppendEntriesArgs) {r : AppendEntriesResult}
    → check_prev n args ≡ some r
    → r.success ≡ false
unfolding check_prev
check_prev-refuses n args h = ground arith

-- The way through the handler to a successful answer.
pub success_path :
    (x : Externals) (n : RaftNode) (args : AppendEntriesArgs)
    → (handle_append_entries x n args).1.success ≡ true
    → (n.current_term ≤ args.term)
      × (check_prev (follow args n) args ≡ none)
      × (handle_append_entries x n args ≡ replicate_entries x args (follow args n))
unfolding handle_append_entries
success_path x n args h = elim (Option-cases (check_prev (follow args n) args)) [
  | inl q ↦ (ground arith, q, ground arith)
  | inr (r, q) ↦ absurd (ground (arith, q, check_prev-refuses (follow args n) args {r = r} q))
]

-- On a follower with a well-formed log, and for a message whose entries follow its previous index one
-- by one, a successful answer means that the message was not old, that its previous entry is in the
-- log with the same term, and that every entry of it now stands in the log at its index with its
-- term. The entries up to the previous one are those that were there before. A message from the
-- start of the log is only expected where nothing has been compacted.
pub handle_append_entries-IsAccepted :
    (x : Externals) (n : RaftNode) (args : AppendEntriesArgs)
    → IsWellFormed n
    → IsAligned n args
    → (handle_append_entries x n args).1.success ≡ true
    → IsAccepted n (handle_append_entries x n args).0 args
handle_append_entries-IsAccepted x n args w a h =
    let (new, q, path) = success_path x n args h in
    let n' = follow args n in
    let (l, _, done) = replicate_entries_parts x args n' in
    let m =
      append_entries-IsMatched x (suc n'.snapshot_index) (suc args.prev_log_index) false
        args.entries n'
        (ready n' args (follow-IsWellFormed args n w) (follow-IsAligned args n a).from_start q)
        a.run (sym done ∙ (rw path at h)) in
    rw path (record {
      current = new;
      previous = rw term_at-follow at (check_prev-previous n' args q);
      holds = rw l m.holds;
      kept = λ j lt. rw l (m.kept j (omega arith) ∙ ap (find_back j) (follow_same args n).0);
    })

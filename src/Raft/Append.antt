-- ===== src/Raft/Append.antt =====
-- node.go, `HandleAppendEntries`: the follower's side of log replication.
pub mod Frame
pub mod Ballots
pub mod Merge
pub mod Matching
pub mod Accept
pub mod LogMatching
pub mod Refuse
pub mod Tests
use go_core_x.Prelude.{
  ℕ, zero, suc, ◌+◌, Bool, true, false, Option, none, some, List, [], ◌∷◌, ltb, leb, ◌==◌, nat_eq,
  if◌then◌else◌,
}
use go_core_x.Raft.Types.{
  LogEntry, WireEntry, entry_type_of_wire, follower, AppendEntriesArgs, AppendEntriesResult,
}
use go_core_x.Raft.Stores.{take_below, save_meta, store_append, store_truncate_suffix}
use go_core_x.Raft.Node.{Externals, RaftNode, last_entry, entry_at, term_at}
use go_core_x.Raft.Membership.{append_entry}

abbrev reject : RaftNode → ℕ → ℕ → AppendEntriesResult
reject n conflict_index conflict_term = record {
  term = n.current_term;
  success = false;
  conflict_index = conflict_index;
  conflict_term = conflict_term;
}

-- The term update of a message from a higher term.
raise_term : ℕ → RaftNode → RaftNode
raise_term term n =
    if ltb n.current_term term
    then record n {
      current_term = term;
      voted_for = "";
      meta = (save_meta n.meta (record { term = term; voted_for = "" })).0;
    }
    else n

-- What every message from a valid leader does to the node.
pub follow : AppendEntriesArgs → RaftNode → RaftNode
follow args n = record (raise_term args.term n) {
  role = follower;
  lease_expiry = 0;
  leader_id = args.leader_id;
  reset_ch = true;
}

-- The loop back to the first index of the conflicting term: `suc i` is the index reached.
pub first_of_term : RaftNode → ℕ → ℕ → ℕ
first_of_term n conflict_term zero = zero
first_of_term n conflict_term (suc zero) = suc zero
first_of_term n conflict_term (suc (suc i)) =
    let earlier = first_of_term n conflict_term (suc i) in
    elim (term_at n (suc i)) [
      | none ↦ suc (suc i)
      | some t ↦ if t == conflict_term then earlier else suc (suc i)
    ]

-- The consistency check on the previous entry; `none` passes.
pub check_prev : RaftNode → AppendEntriesArgs → Option AppendEntriesResult
check_prev n args =
    if leb args.prev_log_index 0 then none else elim (term_at n args.prev_log_index) [
      | none ↦ some (reject n ((last_entry n).0 + 1) 0)
      | some prev_term ↦
          if prev_term == args.prev_log_term
          then none
          else some (reject n (first_of_term n prev_term args.prev_log_index) prev_term)
    ]

abbrev pub entry_of_wire : WireEntry → LogEntry
entry_of_wire p = record {
  index = p.index;
  term = p.term;
  entry_type = entry_type_of_wire p.entry_type;
  payload = p.payload;
}

-- How one round of the loop over the entries ends: with the flag `truncated`, or with a failed
-- write, after which the handler returns.
pub data Round : Type 0 where
  more : Bool → RaftNode → Round
  failed : RaftNode → Round

store_entry : Externals → Bool → WireEntry → RaftNode → Round
store_entry x truncated p n =
    let (store', ok) = store_append (entry_of_wire p) n.log_store in
    let n' = record n { log_store = store' } in
    if ok then more truncated (append_entry x (entry_of_wire p) n') else failed n'

replace_suffix : Externals → WireEntry → RaftNode → Round
replace_suffix x p n =
    let (store', ok) = store_truncate_suffix p.index n.log_store in
    let n' = record n { log_store = store' } in
    if ok then store_entry x true p (record n' { log = take_below p.index n.log }) else failed n'

pub round : Externals → Bool → WireEntry → RaftNode → Round
round x true p n = store_entry x true p n
round x false p n = elim (entry_at n p.index) [
  | none ↦ store_entry x false p n
  | some existing ↦ if existing.term == p.term then more false n else replace_suffix x p n
]

pub append_entries : Externals → Bool → List WireEntry → RaftNode → RaftNode × Bool
append_entries x truncated [] n = (n, true)
append_entries x truncated (p ∷ ps) n = elim (round x truncated p n) [
  | more truncated' n' ↦ append_entries x truncated' ps n'
  | failed n' ↦ (n', false)
]

pub advance_commit : ℕ → RaftNode → RaftNode
advance_commit leader_commit n =
    if ltb n.commit_index leader_commit
    then record n {
      commit_index = if ltb leader_commit (last_entry n).0 then leader_commit else (last_entry n).0;
    }
    else n

-- The entries of an accepted message, and the commit index that follows them.
pub replicate_entries : Externals → AppendEntriesArgs → RaftNode → RaftNode × AppendEntriesResult
replicate_entries x args n =
    let (n', ok) = append_entries x false args.entries n in
    if ok
    then (
      advance_commit args.leader_commit n',
      record { term = n'.current_term; success = true; conflict_index = 0; conflict_term = 0 },
    )
    else (n', reject n' 0 0)

pub handle_append_entries :
    Externals → RaftNode → AppendEntriesArgs → RaftNode × AppendEntriesResult
handle_append_entries x n args =
    if ltb args.term n.current_term
    then (n, reject n 0 0)
    else (let n' = follow args n in
        elim (check_prev n' args) [
          | some refused ↦ (n', refused)
          | none ↦ replicate_entries x args n'
        ])

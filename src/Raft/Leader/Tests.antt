-- ===== src/Raft/Leader/Tests.antt =====
-- A leader in term 2 with three entries, of which "b" has three and "c" one.
use go_core_x.Raft.Leader.Replicates.{IsHistory, IsReplicated, prepare_send-IsReplicated}
use go_core_x.Raft.Append.{handle_append_entries}
use go_core_x.Raft.Append.Tests.{behind-IsWellFormed, succeeds}
use go_core_x.Raft.Append.LogMatching.{Matches}
use go_core_x.Raft.Types.{LogEntry, AppendEntriesArgs}
use go_core_x.Prelude.{◌^◌, nat_eq, ℕ, lookup, ◌<◌, ◌≤◌, ◌≡◌, refl, arith, some, [], ◌∷◌}
use go_core_x.Raft.Node.{find_back, RaftNode, term_at}
use go_core_x.Raft.Examples.{replicate_two, externals, behind, wire, node_with, entry, three_nodes}
use go_core_x.Raft.Leader.{entries, next_of, prepare_send, maybe_advance_commit_index}
use go_core_x.Raft.Leader.Commit.{Advances, maybe_advance_commit_index-Advances}

abbrev leading : RaftNode
leading = node_with 2 (entry 1 1 ∷ entry 2 2 ∷ entry 3 2 ∷ [])

maybe_advance_commit_index-Advances_example :
    Advances 2 3 three_nodes leading (maybe_advance_commit_index 2 3 three_nodes leading)
maybe_advance_commit_index-Advances_example =
    maybe_advance_commit_index-Advances 2 3 three_nodes leading

abbrev leading_b : RaftNode
leading_b = record leading { next_index = some (("b", 2) ∷ []) }

abbrev to_b : AppendEntriesArgs
to_b = record {
  term = 2;
  leader_id = "a";
  prev_log_index = 1;
  prev_log_term = 1;
  entries = wire 2 2 ∷ wire 3 2 ∷ [];
  leader_commit = 0;
}

sends_to_b : prepare_send leading_b 2 "b" ≡ entries to_b 3
unfolding prepare_send next_of term_at lookup
sends_to_b = refl

b_low : 0 < next_of leading_b "b"
unfolding next_of lookup
b_low = ground arith

b_top : next_of leading_b "b" ≤ 4
unfolding next_of lookup
b_top = ground arith

-- The leader that sends `replicate_two`.
abbrev leading_c : RaftNode
leading_c = record leading_b { id = "b"; commit_index = 1 }

sends_two : prepare_send leading_c 2 "b" ≡ entries replicate_two 3
unfolding prepare_send next_of term_at lookup
sends_two = refl

leading_b-types : (i : ℕ) (e : LogEntry) → find_back i leading_b.log ≡ some e → e.entry_type < 2 ^ 8
unfolding find_back
leading_b-types i e q = ground arith

leading_c-IsHistory : IsHistory leading_b.log leading_c
leading_c-IsHistory = record {
  consecutive = (refl, (refl, (refl, tt)));
  whole = refl;
  found = λ i e q. q;
  base = λ lt. absurd (omega arith);
  types = leading_b-types;
}

behind-Matches : Matches behind.log leading_b.log
unfolding find_back
behind-Matches j i a b d e qa qb t le qd qe = ground arith

prepare_send-IsReplicated_example :
    IsReplicated (handle_append_entries externals behind replicate_two).0.log leading_c.log 1
unfolding next_of
prepare_send-IsReplicated_example =
    prepare_send-IsReplicated externals leading_c behind 2 "b" {args = replicate_two} {last = 3}
      leading_c.log (record { consecutive = (refl, (refl, (refl, tt))) }) leading_c-IsHistory
      (λ _. refl) b_low b_top sends_two behind-IsWellFormed (λ z. refl) behind-Matches succeeds

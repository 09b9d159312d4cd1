-- ===== src/Raft/Append/Ballots.antt =====
-- `HandleAppendEntries` and the vote that the node has cast.
use go_core_x.Prelude.{arith, false}
use go_core_x.Raft.Types.{AppendEntriesArgs}
use go_core_x.Raft.Node.{Externals, RaftNode}
use go_core_x.Raft.Node.Ballot.{KeepsBallot}
use go_core_x.Raft.Append.{
  raise_term, follow, advance_commit, replicate_entries, handle_append_entries,
}
use go_core_x.Raft.Append.Frame.{append_entries-IsFramed}

follow-KeepsBallot : (args : AppendEntriesArgs) (n : RaftNode) → KeepsBallot n (follow args n)
unfolding follow raise_term
follow-KeepsBallot args n = ground arith

replicate_entries-KeepsBallot :
    (x : Externals) (args : AppendEntriesArgs) (n : RaftNode)
    → KeepsBallot n (replicate_entries x args n).0
unfolding replicate_entries advance_commit
replicate_entries-KeepsBallot x args n =
    ground (arith, append_entries-IsFramed x false args.entries n)

pub handle_append_entries-KeepsBallot :
    (x : Externals) (n : RaftNode) (args : AppendEntriesArgs)
    → KeepsBallot n (handle_append_entries x n args).0
unfolding handle_append_entries
handle_append_entries-KeepsBallot x n args =
    ground (arith, follow-KeepsBallot args n, replicate_entries-KeepsBallot x args (follow args n))

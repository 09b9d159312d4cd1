-- ===== src/Raft/Safety.antt =====
-- One node over time, until its process ends: the steps that it takes under its lock, in any order.
-- A failed save of the own vote is a step where the node has not voted in its term, and an answer to
-- an election is one where its term is not above the election's or is above the node's. Where that
-- does not hold both forget the vote that the node has cast (node.go, runCandidate). Restarts are
-- left out.
pub mod Leaders
mod Tests
use go_core_x.Prelude.{ℕ, ◌≤◌, ◌<◌, ◌⊎◌, String, Bool, true, ◌≡◌, ◌≢◌, Option, some, arith, eq_iff}
use go_core_x.Raft.Types.{InstallSnapshotArgs, AppendEntriesArgs, AppendEntriesResult, LogEntry}
use go_core_x.Raft.Node.{Externals, RaftNode}
use go_core_x.Raft.Node.Ballot.{KeepsBallot, KeepsBallot-refl, KeepsBallot-trans}
use go_core_x.Raft.Vote.{handle_request_vote}
use go_core_x.Raft.Vote.Ballots.{handle_request_vote-KeepsBallot}
use go_core_x.Raft.Vote.Grants.{vote_granted}
use go_core_x.Raft.Append.{handle_append_entries}
use go_core_x.Raft.Append.Ballots.{handle_append_entries-KeepsBallot}
use go_core_x.Raft.SnapshotFile.{Decoded}
use go_core_x.Raft.Snapshots.{
  Machine, SnapshotExternals, SnapshotConfig, Installing, handle_install_snapshot,
}
use go_core_x.Raft.Snapshots.Safe.{handle_install_snapshot-Keeps}
use go_core_x.Raft.Apply.{apply_tick}
use go_core_x.Raft.Membership.{propose_entry}
use go_core_x.Raft.Membership.Ballots.{propose_entry-IsFramed}
use go_core_x.Raft.Election.{Election, election_timeout, start_election, hear_leader, collect_vote}
use go_core_x.Raft.Election.Ballots.{
  start_election-KeepsBallot, give_up-KeepsBallot, collect_vote-KeepsBallot,
  role_change-KeepsBallot,
}
use go_core_x.Raft.Leader.{HeartbeatRound, start_leader, handle_reply}
use go_core_x.Raft.Leader.Ballots.{handle_reply-KeepsBallot, start_leader-KeepsBallot}

pub data Step (x : Externals) : RaftNode → RaftNode → Type 1 where
  request_vote :
      (n : RaftNode) (term : ℕ) (c : String) (i t : ℕ)
      → Step x n (handle_request_vote n term c i t).0
  append_entries :
      (n : RaftNode) (args : AppendEntriesArgs) → Step x n (handle_append_entries x n args).0
  propose : (n : RaftNode) (e : LogEntry) → Step x n (propose_entry x n e).0
  time_out : (n : RaftNode) → Step x n (election_timeout n)
  campaign :
      (n : RaftNode) {e : Election} → (start_election n).1 ≡ some e → Step x n (start_election n).0
  give_up : (n : RaftNode) → n.voted_for ≡ "" → Step x n (start_election n).0
  collect :
      (n : RaftNode) (e : Election) (resp_term : ℕ) (addr : String) (vote : Bool)
      → (resp_term ≤ e.term) ⊎ (n.current_term < resp_term)
      → Step x n (collect_vote e resp_term addr vote n).0
  hear : (n : RaftNode) → Step x n (hear_leader n)
  lead : (n : RaftNode) → Step x n (start_leader n).0
  reply :
      (n : RaftNode) (now : ℕ) (r : HeartbeatRound) (addr : String) (last_sent : ℕ)
      (resp : Option AppendEntriesResult)
      → Step x n (handle_reply now r addr last_sent resp n).0
  install_snapshot :
      {S : Type 0} (m : Machine S) (e : SnapshotExternals) (cfg : SnapshotConfig)
      (args : InstallSnapshotArgs) (t : Installing S)
      → Step x t.node (handle_install_snapshot m x e cfg args t).0.node
  apply : (n : RaftNode) → Step x n (apply_tick n).0

pub data Reach (x : Externals) (n : RaftNode) : RaftNode → Type 1 where
  here : Reach x n n
  next : {m k : RaftNode} → Reach x n m → Step x m k → Reach x n k

apply_tick-KeepsBallot : (n : RaftNode) → KeepsBallot n (apply_tick n).0
unfolding apply_tick
apply_tick-KeepsBallot n = ground arith

pub Step-KeepsBallot : {x : Externals} {n m : RaftNode} → Step x n m → KeepsBallot n m
Step-KeepsBallot (request_vote n term c i t) = handle_request_vote-KeepsBallot n term c i t
Step-KeepsBallot {x} (append_entries n args) = handle_append_entries-KeepsBallot x n args
Step-KeepsBallot {x} (propose n e) = ground (arith, propose_entry-IsFramed x n e)
Step-KeepsBallot (time_out n) = (role_change-KeepsBallot n).0
Step-KeepsBallot (campaign n h) = start_election-KeepsBallot n h
Step-KeepsBallot (give_up n h) = give_up-KeepsBallot n h
Step-KeepsBallot (collect n e t addr vote h) = collect_vote-KeepsBallot e t addr vote n h
Step-KeepsBallot (hear n) = (role_change-KeepsBallot n).1
Step-KeepsBallot (lead n) = start_leader-KeepsBallot n
Step-KeepsBallot (reply n now r addr l resp) = handle_reply-KeepsBallot now r addr l resp n
Step-KeepsBallot {x} (install_snapshot m e cfg args t) =
    (handle_install_snapshot-Keeps m x e cfg args t).ballot
Step-KeepsBallot (apply n) = apply_tick-KeepsBallot n

-- Over these steps a node's term never falls, and within a term a vote that it has cast stays.
pub Reach-KeepsBallot : {x : Externals} {n m : RaftNode} → Reach x n m → KeepsBallot n m
Reach-KeepsBallot {n} here = KeepsBallot-refl n
Reach-KeepsBallot {n} (next {m} {k} r s) =
    KeepsBallot-trans n m k (Reach-KeepsBallot r) (Step-KeepsBallot s)

-- A node that has granted its vote to a named candidate grants no other candidate its vote in the
-- same term, if it has only taken these steps in between and was not started again: any messages,
-- proposals, snapshots, heartbeat rounds and timeouts; own elections whose vote was saved, or at whose
-- start the node had not voted in its term; and answers to its elections with a term that is not
-- above the election's, or is above the node's.
pub votes_once :
    {x : Externals} (n m : RaftNode) (term : ℕ) (c d : String) (i t j u : ℕ)
    → c ≢ ""
    → (handle_request_vote n term c i t).2 ≡ true
    → Reach x (handle_request_vote n term c i t).0 m
    → (handle_request_vote m term d j u).2 ≡ true
    → c ≡ d
votes_once n m term c d i t j u named g r h = ground (
  arith,
  vote_granted n term c i t g,
  Reach-KeepsBallot r,
  vote_granted m term d j u h,
  handle_request_vote-KeepsBallot m term d j u,
)

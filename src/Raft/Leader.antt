-- ===== src/Raft/Leader.antt =====
-- node.go, the leader's side: `sendHeartbeats` in its two parts under the lock (what is sent to a
-- peer, and what its answer does), `maybeAdvanceCommitIndex`, and `runLeader`'s first step.
pub mod Ballots
pub mod Commit
pub mod Sends
pub mod Replicates
mod Tests
use go_core_x.Prelude.{
  ℕ, zero, suc, ◌+◌, ◌-◌, ◌*◌, ◌^◌, contains, String, Bool, true, false, ◌&&◌, ◌||◌, Option, none,
  some, List, [], ◌∷◌, Map, lookup, insert, select, get_last?, map, ltb, leb, ◌==◌, nat_eq,
  string_eq, if◌then◌else◌,
}
use go_core_x.Raft.Types.{
  LogEntry, WireEntry, follower, ClusterConfig, AppendEntriesArgs, AppendEntriesResult,
}
use go_core_x.Raft.Config.{is_joint, quorum_for}
use go_core_x.Raft.Node.{RaftNode, last_entry, entry_at, term_at}

-- Reading a map: a missing key, or a nil map, gives 0.
pub next_of : RaftNode → String → ℕ
next_of n addr = elim n.next_index [
  | none ↦ 0
  | some next ↦ elim (lookup addr next) [ none ↦ 0 | some i ↦ i ]
]

pub match_of : RaftNode → String → ℕ
match_of n addr = elim (lookup addr n.match_index) [ none ↦ 0 | some i ↦ i ]

-- The map is not nil here: a leader with peers has made it.
abbrev pub set_next : String → ℕ → RaftNode → RaftNode
set_next addr i n = record n {
  next_index = elim n.next_index [ none ↦ none | some next ↦ some (insert addr i next) ];
}

-- `make(map)`, with one value for every peer.
pub progress_all : List String → ℕ → Map String ℕ
progress_all [] i = []
progress_all (addr ∷ rest) i = insert addr i (progress_all rest i)

-- The first step of `runLeader`, and the voters for which it proposes a stable configuration.
pub start_leader : RaftNode → RaftNode × List String
unfolding is_joint progress_all last_entry
start_leader n = (
  record n {
    next_index = elim n.peers [
      | none ↦ n.next_index
      | some addrs ↦ some (progress_all addrs ((last_entry n).0 + 1))
    ];
    match_index = elim n.peers [ none ↦ n.match_index | some addrs ↦ progress_all addrs 0 ];
    leader_id = n.id;
    lease_expiry = 0;
  },
  if is_joint n.cluster_config then n.cluster_config.new_voters else [],
)

abbrev wire_of_entry : LogEntry → WireEntry
wire_of_entry e = record {
  index = e.index;
  term = e.term;
  entry_type = e.entry_type;
  payload = e.payload;
}

-- What one heartbeat round sends to a peer.
pub data Send : Type 0 where
  snapshot : Send
  entries : AppendEntriesArgs → ℕ → Send

abbrev has_snapshots : RaftNode → Bool
has_snapshots n = elim n.snapshot_store [ none ↦ false | some _ ↦ true ]

-- A peer behind the snapshot gets the snapshot; any other gets every entry from its next index on,
-- with the index of the last one. A next index of 0 gives a previous index of 0 where the source
-- has -1; a receiver treats both alike.
pub prepare_send : RaftNode → ℕ → String → Send
unfolding next_of term_at
prepare_send n term addr =
    let next = next_of n addr in
    let sent = select (λ e. leb next e.index) n.log in
    if has_snapshots n && leb next n.snapshot_index
    then snapshot
    else entries
        (record {
          term = term;
          leader_id = n.id;
          prev_log_index = next - 1;
          prev_log_term = elim (term_at n (next - 1)) [ none ↦ 0 | some t ↦ t ];
          entries = map wire_of_entry sent;
          leader_commit = n.commit_index;
        })
        (elim (get_last? sent) [ none ↦ 0 | some e ↦ e.index ])

-- The loop down from `lastIdx` to the first index that may be committed.
advance_from : ℕ → ClusterConfig → RaftNode → ℕ → RaftNode
advance_from current_term cfg n zero = n
advance_from current_term cfg n (suc i) =
    let next = advance_from current_term cfg n i in
    if ltb n.commit_index (suc i)
    then elim (entry_at n (suc i)) [
      | none ↦ next
      | some e ↦
          if e.term == current_term && quorum_for cfg (λ addr. leb (suc i) (match_of n addr))
          then record n { commit_index = suc i }
          else next
    ]
    else n

pub maybe_advance_commit_index : ℕ → ℕ → ClusterConfig → RaftNode → RaftNode
unfolding advance_from
maybe_advance_commit_index current_term last_index cfg n =
    advance_from current_term cfg n last_index

-- An answer from a higher term.
pub step_down_leader : ℕ → RaftNode → RaftNode
step_down_leader resp_term n =
    let n' =
      if ltb n.current_term resp_term
      then record n { current_term = resp_term; voted_for = "" }
      else n in
    record n' { role = follower; lease_expiry = 0 }

pub acknowledge : String → ℕ → RaftNode → RaftNode
unfolding match_of
acknowledge addr last_sent n =
    let n' =
      if ltb (match_of n addr) last_sent
      then record n { match_index = insert addr last_sent n.match_index }
      else n in
    set_next addr (match_of n' addr + 1) n'

-- The index of the last entry of a term.
pub last_of_term : ℕ → List LogEntry → Option ℕ
last_of_term t [] = none
last_of_term t (e ∷ es) = elim (last_of_term t es) [
  | some i ↦ some i
  | none ↦ if e.term == t then some e.index else none
]

-- The next index after a refusal (fast backup).
back_up : ℕ → ℕ → List LogEntry → ℕ
unfolding last_of_term
back_up conflict_index conflict_term log =
    if conflict_term == 0 || conflict_index == 0
    then (if ltb 0 conflict_index then conflict_index else 1)
    else elim (last_of_term conflict_term log) [ some i ↦ i + 1 | none ↦ conflict_index ]

pub refused : String → ℕ → ℕ → RaftNode → RaftNode
unfolding back_up
refused addr conflict_index conflict_term n =
    let next = back_up conflict_index conflict_term n.log in
    set_next addr (if ltb next 1 then 1 else next) n

-- What a round of heartbeats was started with, and what it has collected.
pub record HeartbeatRound : Type 0 where
  pub term : ℕ
  pub last_index : ℕ
  pub config : ClusterConfig
  pub snapshot_peers : ℕ
  pub acks : List String

-- 130 milliseconds, in nanoseconds.
abbrev pub lease_duration : ℕ
lease_duration = 130 * 10 ^ 6

-- The lease after an acknowledgment at time `now`: it is only moved forward.
renew_lease : ℕ → HeartbeatRound → RaftNode → RaftNode
renew_lease now r n =
    if n.lease_enabled
      && r.snapshot_peers == 0
      && quorum_for r.config (contains r.acks)
      && (n.lease_expiry == 0 || ltb n.lease_expiry (now + lease_duration))
    then record n { lease_expiry = now + lease_duration }
    else n

abbrev with_ack : String → HeartbeatRound → HeartbeatRound
with_ack addr r = record r { acks = addr ∷ r.acks }

-- The answer of a peer, `none` for a failed call. The Boolean says whether the round goes on.
pub handle_reply :
    ℕ
    → HeartbeatRound
    → String
    → ℕ
    → Option AppendEntriesResult
    → RaftNode
    → RaftNode × HeartbeatRound × Bool
handle_reply now r addr last_sent none n = (n, r, true)
handle_reply now r addr last_sent (some resp) n =
    if ltb r.term resp.term
    then (step_down_leader resp.term n, r, false)
    else if resp.success
    then (
      renew_lease now (with_ack addr r)
          (maybe_advance_commit_index r.term r.last_index r.config (acknowledge addr last_sent n)),
      with_ack addr r,
      true,
    )
    else (refused addr resp.conflict_index resp.conflict_term n, r, true)

-- ===== src/Raft/ReadIndex.antt =====
-- node.go, `ReadIndex` and `confirmLeadership`: reads that need no log entry.
pub mod Confirmed
mod Tests
use go_core_x.Prelude.{
  ℕ, String, Bool, true, false, Option, none, some, List, [], ◌∷◌, ◌&&◌, contains, ltb, leb,
  if◌then◌else◌, string_eq,
}
use go_core_x.Raft.Types.{is_leader_role, ClusterConfig}
use go_core_x.Raft.Config.{quorum_for}
use go_core_x.Raft.Node.{RaftNode}

-- The answers come as a list of addresses, each with the term in the answer or `none` for a failed
-- call. The list ends when all have answered or the context is done.
abbrev pub Answers : Type 0
Answers = List (String × Option ℕ)

abbrev confirms : ℕ → Option ℕ → Bool
confirms term none = false
confirms term (some t) = leb t term

collect_answers : ClusterConfig → ℕ → List String → Answers → Bool
collect_answers cfg term acks [] = quorum_for cfg (contains acks)
collect_answers cfg term acks ((addr, answer) ∷ rest) =
    let acks' = if confirms term answer then addr ∷ acks else acks in
    let later = collect_answers cfg term acks' rest in
    if quorum_for cfg (contains acks') then true else later

-- With no peers to ask, the node is confirmed at once.
pub confirm_leadership : RaftNode → ℕ → Answers → Bool
unfolding collect_answers
confirm_leadership n term answers =
    let asked = collect_answers n.cluster_config term [] answers in
    elim n.peers [ none ↦ true | some addrs ↦ elim addrs [ [] ↦ true | _ ∷ _ ↦ asked ] ]

pub data ReadResult : Type 0 where
  not_leader timeout : ReadResult
  read_at : ℕ → ReadResult

-- The commit index is taken before the peers are asked. `later` is the node when they are.
pub read_index : ℕ → RaftNode → RaftNode → Answers → ReadResult
unfolding confirm_leadership
read_index now n later answers =
    if is_leader_role n.role
    then (if n.lease_enabled && ltb now n.lease_expiry
        then read_at n.commit_index
        else if confirm_leadership later n.current_term answers
        then read_at n.commit_index
        else timeout)
    else not_leader

-- ===== src/Raft/Leader/Sends.antt =====
-- `sendHeartbeats`: the form of what a leader sends.
use go_core_x.Prelude.{
  ℕ, suc, ◌+◌, ◌-◌, ◌≤◌, ◌<◌, String, none, List, [], ◌∷◌, ◌≡◌, refl, arith, map, length, select,
  leb, Option-cases, Bool-cases, inl, inr,
}
use go_core_x.Raft.Types.{LogEntry, AppendEntriesArgs}
use go_core_x.Raft.Node.{RaftNode}
use go_core_x.Raft.Node.Log.{IsConsecutive, IsWellFormed}
use go_core_x.Raft.Append.Matching.{IsRun}
use go_core_x.Raft.Leader.{wire_of_entry, next_of, entries, prepare_send}

-- The entries from `next` on.
abbrev pub sent_from : ℕ → List LogEntry → List LogEntry
sent_from next = select (λ e. leb next e.index)

all_sent :
    (i next : ℕ) (es : List LogEntry)
    → next ≤ i
    → IsConsecutive i es
    → IsRun i (map wire_of_entry (sent_from next es))
all_sent i next [] h c = tt
all_sent i next (e ∷ es) h c = elim (Bool-cases (leb next e.index)) [
  | inl q ↦ rw q (c.0, all_sent (suc i) next es (omega arith) c.1)
  | inr q ↦ absurd (ground (arith, q, c.0))
]

sent_from-IsRun :
    (i next : ℕ) (es : List LogEntry)
    → i ≤ next
    → IsConsecutive i es
    → IsRun next (map wire_of_entry (sent_from next es))
sent_from-IsRun i next [] h c = tt
sent_from-IsRun i next (e ∷ es) h c = elim (Bool-cases (leb next e.index)) [
  | inl q ↦
      let e' : e.index ≡ next = ground (arith, q, c.0) in
      let i' : i ≡ next = ground (arith, q, c.0) in
      rw q (e', all_sent (suc next) next es (omega arith) (rw i' at c.1))
  | inr q ↦ rw q (sent_from-IsRun (suc i) next es (ground (arith, q, c.0)) c.1)
]

length-all_sent :
    (i next : ℕ) (es : List LogEntry)
    → next ≤ i
    → IsConsecutive i es
    → length (map wire_of_entry (sent_from next es)) ≡ length es
length-all_sent i next [] h c = refl
length-all_sent i next (e ∷ es) h c = elim (Bool-cases (leb next e.index)) [
  | inl q ↦ rw q (omega (arith, length-all_sent (suc i) next es (omega arith) c.1))
  | inr q ↦ absurd (ground (arith, q, c.0))
]

length-sent_from :
    (i next : ℕ) (es : List LogEntry)
    → i ≤ next
    → next ≤ i + length es
    → IsConsecutive i es
    → next + length (map wire_of_entry (sent_from next es)) ≡ i + length es
length-sent_from i next [] h k c = omega arith
length-sent_from i next (e ∷ es) h k c = elim (Bool-cases (leb next e.index)) [
  | inl q ↦
      let i' : i ≡ next = ground (arith, q, c.0) in
      rw q (omega (arith, i', length-all_sent (suc i) next es (omega arith) c.1))
  | inr q ↦
      rw q
        (omega (arith, length-sent_from (suc i) next es (ground (arith, q, c.0)) (omega arith) c.1))
]

-- The entries of a message run on from its previous index to the end of the sender's log.
pub record IsComplete (n : RaftNode) (args : AppendEntriesArgs) : Type 0 where
  pub run : IsRun (suc args.prev_log_index) args.entries
  pub whole : args.prev_log_index + length args.entries ≡ n.snapshot_index + length n.log

-- What is sent to a peer whose next index lies behind the snapshot, and at most one behind the end.
pub sends_entries :
    (n : RaftNode) (term : ℕ) (addr : String) {args : AppendEntriesArgs} {last : ℕ}
    → prepare_send n term addr ≡ entries args last
    → (args.prev_log_index ≡ next_of n addr - 1)
      × (args.entries ≡ map wire_of_entry (sent_from (next_of n addr) n.log))
unfolding prepare_send
sends_entries n term addr h = ground (arith, h)

-- A peer that is sent entries is not behind the snapshot.
pub sends_behind :
    (n : RaftNode) (term : ℕ) (addr : String) {args : AppendEntriesArgs} {last : ℕ}
    → (n.snapshot_store ≡ none → n.snapshot_index ≡ 0)
    → 0 < next_of n addr
    → prepare_send n term addr ≡ entries args last
    → n.snapshot_index < next_of n addr
unfolding prepare_send
sends_behind n term addr unset pos h = elim (Option-cases n.snapshot_store) [
  | inl q ↦ omega (arith, unset q)
  | inr (s, q) ↦ ground (arith, h, q)
]

-- A leader with a well-formed log sends a peer entries that run on from the previous index of the
-- message to the end of the log, if the peer's next index is positive and at most one behind the
-- end, and the leader has no snapshot index without a snapshot store.
pub prepare_send-IsComplete :
    (n : RaftNode) (term : ℕ) (addr : String) {args : AppendEntriesArgs} {last : ℕ}
    → IsWellFormed n
    → (n.snapshot_store ≡ none → n.snapshot_index ≡ 0)
    → 0 < next_of n addr
    → next_of n addr ≤ suc (n.snapshot_index + length n.log)
    → prepare_send n term addr ≡ entries args last
    → IsComplete n args
prepare_send-IsComplete n term addr {args} {last} w unset pos top h =
    let (p, q) = sends_entries n term addr {args = args} {last = last} h in
    let behind = sends_behind n term addr {args = args} {last = last} unset pos h in
    let next : suc args.prev_log_index ≡ next_of n addr = omega (arith, p) in
    record {
      run =
          rw (next, q) (sent_from-IsRun (suc n.snapshot_index) _ n.log (omega arith) w.consecutive);
      whole = rw q (
          omega (
            arith,
            next,
            length-sent_from (suc n.snapshot_index) (next_of n addr) n.log (omega arith)
                (omega arith) w.consecutive,
          ));
    }

-- ===== src/Raft/Leader/Replicates.antt =====
-- `sendHeartbeats` and `HandleAppendEntries` together: what a message of a leader makes of a follower.
use native.Mathlib.Decide.{dec_lt}
use go_core_x.Prelude.{
  ℕ, suc, ◌+◌, ◌-◌, ◌≤◌, ◌<◌, ◌^◌, ◌%◌, String, true, none, some, List, [], ◌∷◌, ◌≡◌, sym, ap, ◌∙◌,
  arith, map, length, leb, Bool-cases, inl, inr, nat_eq, ◌⊎◌,
}
use go_core_x.Raft.Types.{LogEntry, WireEntry, AppendEntriesArgs}
use go_core_x.Raft.Node.{Externals, RaftNode, find_back, term_at, entry_at}
use go_core_x.Raft.Node.Log.{IsConsecutive, IsWellFormed, find_back-below, find_back-inside}
use go_core_x.Raft.Append.{entry_of_wire, follow, handle_append_entries}
use go_core_x.Raft.Append.Matching.{IsRun, Holds}
use go_core_x.Raft.Append.Accept.{
  IsAligned, follow_same, follow-IsWellFormed, success_path, handle_append_entries-IsAccepted,
}
use go_core_x.Raft.Append.LogMatching.{
  Matches, Matches-self, Follows, AreFrom, IsFrom, check_prev-Follows,
  handle_append_entries-Matches,
}
use go_core_x.Raft.Leader.{wire_of_entry, next_of, entries, prepare_send}
use go_core_x.Raft.Leader.Sends.{sent_from, sends_entries, sends_behind, prepare_send-IsComplete}

-- The log that a node would have without compaction.
pub record IsHistory (full : List LogEntry) (n : RaftNode) : Type 0 where
  pub consecutive : IsConsecutive 1 full
  pub whole : length full ≡ n.snapshot_index + length n.log
  pub found : (i : ℕ) (e : LogEntry) → find_back i n.log ≡ some e → find_back i full ≡ some e
  pub base :
      0 < n.snapshot_index
      → (e : LogEntry) × (find_back n.snapshot_index full ≡ some e) × (e.term ≡ n.snapshot_term)
  pub types : (i : ℕ) (e : LogEntry) → find_back i full ≡ some e → e.entry_type < 2 ^ 8

wire_round_trip : (e : LogEntry) → e.entry_type < 2 ^ 8 → entry_of_wire (wire_of_entry e) ≡ e
wire_round_trip e h =
    let kept : e.entry_type % 2 ^ 8 ≡ e.entry_type = omega arith in
    ap (λ t. record e { entry_type = t }) kept

AreFrom-sent :
    (i next : ℕ) (es full : List LogEntry)
    → IsConsecutive i es
    → ((j : ℕ) (e : LogEntry) → find_back j es ≡ some e → find_back j full ≡ some e)
    → ((j : ℕ) (e : LogEntry) → find_back j full ≡ some e → e.entry_type < 2 ^ 8)
    → AreFrom full (map wire_of_entry (sent_from next es))
unfolding find_back
AreFrom-sent i next [] full c f t = tt
AreFrom-sent i next (e ∷ es) full c f t =
    let rest = AreFrom-sent (suc i) next es full c.1 (λ j d q. f j d (rw q)) t in
    let here : find_back e.index full ≡ some e =
      f e.index e (ground (arith, c.0, find_back-below (suc i) e.index es c.1)) in
    elim (Bool-cases (leb next e.index)) [
      | inl q ↦ rw q (here ∙ ap some (sym (wire_round_trip e (t e.index e here))), rest)
      | inr q ↦ rw q rest
    ]

term_at-inside :
    (n : RaftNode) (j : ℕ) {e : LogEntry}
    → 0 < j
    → find_back j n.log ≡ some e
    → term_at n j ≡ some e.term
unfolding term_at entry_at
term_at-inside n j pos q = ground (arith, q)

term_at-snapshot :
    (n : RaftNode) (j : ℕ)
    → 0 < j
    → find_back j n.log ≡ none
    → j ≡ n.snapshot_index
    → term_at n j ≡ some n.snapshot_term
unfolding term_at entry_at
term_at-snapshot n j pos q e = ground (arith, q, e)

prev_term_is :
    (n : RaftNode) (term : ℕ) (addr : String) {args : AppendEntriesArgs} {last t : ℕ}
    → prepare_send n term addr ≡ entries args last
    → term_at n args.prev_log_index ≡ some t
    → args.prev_log_term ≡ t
unfolding prepare_send
prev_term_is n term addr {args} {last} {t} h q =
    let (p, _) = sends_entries n term addr {args = args} {last = last} h in
    let known : term_at n (next_of n addr - 1) ≡ some t = ap (term_at n) (sym p) ∙ q in
    ground (arith, h, known)

module _ (n : RaftNode) (term : ℕ) (addr : String) (args : AppendEntriesArgs) (last : ℕ)
    (full : List LogEntry) (w : IsWellFormed n) (y : IsHistory full n)
    (unset : n.snapshot_store ≡ none → n.snapshot_index ≡ 0) (pos : 0 < next_of n addr)
    (top : next_of n addr ≤ suc (n.snapshot_index + length n.log))
    (sent : prepare_send n term addr ≡ entries args last) where
  sent-range : (n.snapshot_index ≤ args.prev_log_index) × (args.prev_log_index ≤ length full)
  sent-range =
      let (p, _) = sends_entries n term addr {args = args} {last = last} sent in
      let behind = sends_behind n term addr {args = args} {last = last} unset pos sent in
      (omega (arith, p), omega (arith, p, y.whole))

  previous-IsFrom :
      (args.prev_log_index ≡ 0)
      ⊎ (e : LogEntry) × (find_back args.prev_log_index full ≡ some e)
        × (e.term ≡ args.prev_log_term)
  previous-IsFrom =
      let prev = args.prev_log_index in
      elim (dec_lt 0 prev) [
        | no z ↦ inl (omega arith)
        | yes some_prev ↦ inr (elim (dec_lt n.snapshot_index prev) [
          | yes inside ↦
              let (e, q) =
                find_back-inside (suc n.snapshot_index) prev n.log w.consecutive inside
                  (omega (arith, sent-range, y.whole)) in
              (
                e,
                y.found prev e q,
                sym (
                    prev_term_is n term addr {args = args} {last = last} sent
                      (term_at-inside n prev some_prev q)),
              )
          | no outside ↦
              let here : prev ≡ n.snapshot_index = omega (arith, sent-range) in
              let (e, q, t) = y.base (omega arith) in
              let known =
                term_at-snapshot n prev some_prev
                  (find_back-below (suc n.snapshot_index) prev n.log w.consecutive (omega arith))
                  here in
              (
                e,
                ap (λ j. find_back j full) here ∙ q,
                t ∙ sym (prev_term_is n term addr {args = args} {last = last} sent known),
              )
        ])
      ]

  sent-IsFrom : IsFrom full args
  sent-IsFrom =
      let (_, q) = sends_entries n term addr {args = args} {last = last} sent in
      record {
        previous = previous-IsFrom;
        entries = rw q (
            AreFrom-sent (suc n.snapshot_index) (next_of n addr) n.log full w.consecutive y.found
              y.types);
      }

-- An entry of the message, in the sender's log and in the follower's.
held_at :
    (k i : ℕ) (ps : List WireEntry) (full log : List LogEntry)
    → IsRun k ps
    → AreFrom full ps
    → Holds ps log
    → k ≤ i
    → i < k + length ps
    → (d e : LogEntry) × (find_back i log ≡ some d)
      × (find_back i full ≡ some e)
      × (d.term ≡ e.term)
held_at k i [] full log run from holds lo hi = absurd (omega arith)
held_at k i (p ∷ ps) full log run from holds lo hi = elim (dec_lt k i) [
  | yes lt ↦ held_at (suc k) i ps full log run.1 from.1 holds.1 lt (omega arith)
  | no ge ↦
      let here : p.index ≡ i = omega (arith, run.0) in
      let (d, q, t) = holds.0 in
      (
        d,
        entry_of_wire p,
        ap (λ j. find_back j log) (sym here) ∙ q,
        ap (λ j. find_back j full) (sym here) ∙ from.0,
        t,
      )
]

-- The follower's log has the sender's entries, up to the sender's last.
pub record IsReplicated (log full : List LogEntry) (prev : ℕ) : Type 0 where
  pub holds : (i : ℕ) → prev < i → i ≤ length full → find_back i log ≡ find_back i full
  pub agrees :
      (i : ℕ) (d : LogEntry)
      → i ≤ length full
      → find_back i log ≡ some d
      → find_back i full ≡ some d

-- Let a leader's log and a follower's be well-formed, the follower's match the leader's history, which is the
-- leader's log without compaction, and the follower succeed on the entries that the leader prepares for it, where its
-- next index is positive and at most one behind the leader's end, the leader has no snapshot index without a
-- snapshot store, and a message from the start of the log goes to a follower that has compacted nothing. Then the
-- follower's log has exactly the leader's entries behind the previous index, up to the leader's last; what it still
-- has up to there agrees with the leader's history as a whole.
pub prepare_send-IsReplicated :
    (x : Externals) (n f : RaftNode) (term : ℕ) (addr : String) {args : AppendEntriesArgs}
    {last : ℕ} (full : List LogEntry)
    → IsWellFormed n
    → IsHistory full n
    → (n.snapshot_store ≡ none → n.snapshot_index ≡ 0)
    → 0 < next_of n addr
    → next_of n addr ≤ suc (n.snapshot_index + length n.log)
    → prepare_send n term addr ≡ entries args last
    → IsWellFormed f
    → (args.prev_log_index ≡ 0 → f.snapshot_index ≡ 0)
    → Matches f.log full
    → (handle_append_entries x f args).1.success ≡ true
    → IsReplicated (handle_append_entries x f args).0.log full args.prev_log_index
prepare_send-IsReplicated x n f term addr {args} {last} full w y unset pos top sent wf start m ok =
    let whole =
      prepare_send-IsComplete n term addr {args = args} {last = last} w unset pos top sent in
    let from = sent-IsFrom n term addr args last full w y unset pos top sent in
    let a : IsAligned f args = record { run = whole.run; from_start = start } in
    let f' = (handle_append_entries x f args).0 in
    let m' : Matches f'.log full =
      handle_append_entries-Matches x f args full full wf a y.consecutive from m (Matches-self full)
        m in
    let acc = handle_append_entries-IsAccepted x f args wf a ok in
    let prev = args.prev_log_index in
    let behind : (i : ℕ) → prev < i → i ≤ length full → find_back i f'.log ≡ find_back i full =
      λ i lo hi.
        let (d, e, qd, qe, t) =
          held_at (suc prev) i args.entries full f'.log whole.run from.entries acc.holds lo
            (omega (arith, whole.whole, y.whole)) in
        qd ∙ ap some (m' i i d e d e qd qe t (omega arith) qd qe) ∙ sym qe in
    let (l, snap, _, _) = follow_same args f in
    let (_, passed, _) = success_path x f args ok in
    let before : Follows (suc prev) f.log full = λ i d lt q.
      check_prev-Follows (follow args f) args full (follow-IsWellFormed args f wf)
        (λ z. snap ∙ start z) y.consecutive from (rw l m) passed i d lt (ap (find_back i) l ∙ q) in
    record {
      holds = behind;
      agrees = λ i d hi q. elim (dec_lt prev i) [
        | yes lo ↦ sym (behind i lo hi) ∙ q
        | no ge ↦ before i d (omega arith) (sym (acc.kept i (omega arith)) ∙ q)
      ];
    }

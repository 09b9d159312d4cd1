-- ===== src/Raft/Append/Matching.antt =====
-- The loop over the entries of a message: what holds of the log behind it.
use go_core_x.Prelude.{
  ℕ, suc, ◌+◌, ◌≤◌, ◌<◌, Bool, true, false, some, List, [], ◌∷◌, ◌++◌, ◌≡◌, refl, ◌∙◌, arith,
  length, nat_eq, inl, inr, ◌⊎◌,
}
use go_core_x.Raft.Types.{LogEntry, WireEntry}
use go_core_x.Raft.Stores.{take_below, store_append, store_truncate_suffix}
use go_core_x.Raft.Node.{Externals, RaftNode, find_back, entry_at}
use go_core_x.Raft.Node.Log.{IsConsecutive, take_below-IsConsecutive}
use go_core_x.Raft.Membership.Frame.{append_entry-IsFramed}
use go_core_x.Raft.Append.{
  Round, more, failed, entry_of_wire, store_entry, replace_suffix, round, append_entries,
}
use go_core_x.Raft.Append.Frame.{Round-cases}
use go_core_x.Raft.Append.Merge.{merge, IsPlaced, merge-IsPlaced}

-- A round that goes on has merged its entry; one that fails has cut the log at most.
abbrev pub Merged : WireEntry → List LogEntry → List LogEntry × Bool → Round → Type 0
Merged p log (new, cut) (more t n) = (n.log ≡ new) × (t ≡ cut)
Merged p log _ (failed n) = (n.log ≡ log) ⊎ (n.log ≡ take_below p.index log)

store_entry-Merged :
    (x : Externals) (t : Bool) (p : WireEntry) (n : RaftNode)
    → Merged p n.log (n.log ++ entry_of_wire p ∷ [], t) (store_entry x t p n)
unfolding store_entry
store_entry-Merged x t p n =
    let n' = record n { log_store = (store_append (entry_of_wire p) n.log_store).0 } in
    ground (arith, append_entry-IsFramed x (entry_of_wire p) n')

replace_suffix-Merged :
    (x : Externals) (p : WireEntry) (n : RaftNode)
    → Merged p n.log (take_below p.index n.log ++ entry_of_wire p ∷ [], true) (replace_suffix x p n)
unfolding replace_suffix store_entry
replace_suffix-Merged x p n =
    let stored = store_truncate_suffix p.index n.log_store in
    let cut = record n { log_store = stored.0; log = take_below p.index n.log } in
    let n' = record cut { log_store = (store_append (entry_of_wire p) cut.log_store).0 } in
    ground (arith, append_entry-IsFramed x (entry_of_wire p) n')

pub round-Merged :
    (x : Externals) (t : Bool) (p : WireEntry) (n : RaftNode)
    → 0 < p.index
    → Merged p n.log (merge t p n.log) (round x t p n)
unfolding round merge entry_at
round-Merged x true p n pos = store_entry-Merged x true p n
round-Merged x false p n pos =
    ground (arith, store_entry-Merged x false p n, replace_suffix-Merged x p n)

-- Entries of a message with consecutive indices from `k` on.
abbrev pub IsRun : ℕ → List WireEntry → Type 0
IsRun k [] = Unit {0}
IsRun k (p ∷ ps) = (p.index ≡ k) × IsRun (suc k) ps

-- Every entry of the message stands in the log, with its index and term.
abbrev pub Holds : List WireEntry → List LogEntry → Type 0
Holds [] log = Unit {0}
Holds (p ∷ ps) log =
    ((e : LogEntry) × (find_back p.index log ≡ some e) × (e.term ≡ p.term)) × Holds ps log

-- A state of the loop from which the entries from `k` on can be placed.
pub record IsReady (i k : ℕ) (t : Bool) (n : RaftNode) : Type 0 where
  pub positive : 0 < i
  pub consecutive : IsConsecutive i n.log
  pub low : i ≤ k
  pub high : k ≤ i + length n.log
  pub at_end : t ≡ true → k ≡ i + length n.log

pub round-IsPlaced :
    (x : Externals) (i k : ℕ) (t : Bool) (p : WireEntry) (n : RaftNode) {t' : Bool} {n' : RaftNode}
    → IsReady i k t n
    → p.index ≡ k
    → round x t p n ≡ more t' n'
    → IsPlaced i p n.log n'.log t'
round-IsPlaced x i k t p n r e q =
    let (new, cut) = rw q at (round-Merged x t p n (omega (arith, r.positive, r.low))) in
    rw (new, cut)
      (merge-IsPlaced i t p n.log r.consecutive (omega arith) (omega arith)
        (λ h. omega (arith, r.at_end h)))

pub round-failed :
    (x : Externals) (i k : ℕ) (t : Bool) (p : WireEntry) (n : RaftNode) {n' : RaftNode}
    → IsReady i k t n
    → p.index ≡ k
    → round x t p n ≡ failed n'
    → IsConsecutive i n'.log
round-failed x i k t p n r e q =
    elim (rw q at (round-Merged x t p n (omega (arith, r.positive, r.low)))) [
      | inl same ↦ rw same r.consecutive
      | inr cut ↦ rw cut (take_below-IsConsecutive i p.index n.log r.consecutive)
    ]

pub IsReady-next :
    (i k : ℕ) (t' : Bool) (p : WireEntry) (n n' : RaftNode)
    → 0 < i
    → i ≤ k
    → p.index ≡ k
    → IsPlaced i p n.log n'.log t'
    → IsReady i (suc k) t' n'
IsReady-next i k t' p n n' pos lo e h = record {
  positive = pos;
  consecutive = h.consecutive;
  low = omega arith;
  high = omega arith;
  at_end = λ c. omega (arith, h.ends c);
}

pub append_entries-IsConsecutive :
    (x : Externals) (i k : ℕ) (t : Bool) (ps : List WireEntry) (n : RaftNode)
    → IsReady i k t n
    → IsRun k ps
    → IsConsecutive i (append_entries x t ps n).0.log
unfolding append_entries
append_entries-IsConsecutive x i k t [] n r run = r.consecutive
append_entries-IsConsecutive x i k t (p ∷ ps) n r run = elim (Round-cases (round x t p n)) [
  | inl (t', n', q) ↦
      rw (q, append_entries)
        (append_entries-IsConsecutive x i (suc k) t' ps n'
          (IsReady-next i k t' p n n' r.positive r.low run.0 (round-IsPlaced x i k t p n r run.0 q))
          run.1)
  | inr (n', q) ↦ rw (q, append_entries) (round-failed x i k t p n r run.0 q)
]

-- What a loop that stores every entry gives.
pub record IsMatched (k : ℕ) (ps : List WireEntry) (old new : List LogEntry) : Type 0 where
  pub holds : Holds ps new
  pub kept : (j : ℕ) → j < k → find_back j new ≡ find_back j old

IsMatched-cons :
    (i k : ℕ) (t' : Bool) (p : WireEntry) (ps : List WireEntry) (old mid : List LogEntry)
    {new : List LogEntry}
    → p.index ≡ k
    → IsPlaced i p old mid t'
    → IsMatched (suc k) ps mid new
    → IsMatched k (p ∷ ps) old new
IsMatched-cons i k t' p ps old mid e h m =
    let (f, there, same) = h.found in
    record {
      holds = ((f, m.kept p.index (omega arith) ∙ there, same), m.holds);
      kept = λ j lt. m.kept j (omega arith) ∙ h.kept j (omega arith);
    }

pub append_entries-IsMatched :
    (x : Externals) (i k : ℕ) (t : Bool) (ps : List WireEntry) (n : RaftNode)
    → IsReady i k t n
    → IsRun k ps
    → (append_entries x t ps n).1 ≡ true
    → IsMatched k ps n.log (append_entries x t ps n).0.log
unfolding append_entries
append_entries-IsMatched x i k t [] n r run ok = record { holds = tt; kept = λ j _. refl }
append_entries-IsMatched x i k t (p ∷ ps) n r run ok = elim (Round-cases (round x t p n)) [
  | inl (t', n', q) ↦
      let h = round-IsPlaced x i k t p n r run.0 q in
      rw (q, append_entries)
        (IsMatched-cons i k t' p ps n.log n'.log run.0 h (
          append_entries-IsMatched x i (suc k) t' ps n'
            (IsReady-next i k t' p n n' r.positive r.low run.0 h) run.1
            (rw (q, append_entries) at ok)))
  | inr (n', q) ↦ cc (rw (q, append_entries) at ok)
]

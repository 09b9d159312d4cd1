-- ===== src/Raft/Append/Merge.antt =====
-- What one entry of a message does to the log, as a function of logs alone.
use native.Mathlib.Decide.{dec_lt}
use go_core_x.Prelude.{
  ℕ, ◌+◌, ◌≤◌, ◌<◌, Bool, true, false, Option, none, some, List, [], ◌∷◌, ◌++◌, ◌≡◌, refl, arith,
  length, length-append, ◌==◌, nat_eq, if◌then◌else◌, Bool-cases, Option-cases, inl, inr,
}
use go_core_x.Raft.Types.{LogEntry, WireEntry}
use go_core_x.Raft.Stores.{take_below}
use go_core_x.Raft.Node.{find_back}
use go_core_x.Raft.Node.Log.{
  IsConsecutive, IsConsecutive-append, find_back-snoc, find_back-above, find_back-inside,
  take_below-IsConsecutive, length-take_below, find_back-take_below,
}
use go_core_x.Raft.Append.{entry_of_wire}

-- The log after the entry, and whether it has been cut.
merge_found : WireEntry → List LogEntry → Option LogEntry → List LogEntry × Bool
merge_found p log none = (log ++ entry_of_wire p ∷ [], false)
merge_found p log (some e) =
    if e.term == p.term
    then (log, false)
    else (take_below p.index log ++ entry_of_wire p ∷ [], true)

unfoldable pub merge : Bool → WireEntry → List LogEntry → List LogEntry × Bool
unfolding merge_found
merge true p log = (log ++ entry_of_wire p ∷ [], true)
merge false p log = merge_found p log (find_back p.index log)

-- The log `new` comes from the log `old`, which begins at `i`, by placing `p`.
pub record IsPlaced (i : ℕ) (p : WireEntry) (old new : List LogEntry) (cut : Bool) : Type 0 where
  pub consecutive : IsConsecutive i new
  pub found : (e : LogEntry) × (find_back p.index new ≡ some e) × (e.term ≡ p.term)
  pub kept : (j : ℕ) → j < p.index → find_back j new ≡ find_back j old
  pub reaches : p.index + 1 ≤ i + length new
  pub ends : cut ≡ true → p.index + 1 ≡ i + length new

-- Adding an entry at the end of a log.
append-IsPlaced :
    (i : ℕ) (p : WireEntry) (old log : List LogEntry) (cut : Bool)
    → IsConsecutive i log
    → i + length log ≡ p.index
    → ((j : ℕ) → j < p.index → find_back j log ≡ find_back j old)
    → IsPlaced i p old (log ++ entry_of_wire p ∷ []) cut
append-IsPlaced i p old log cut c e keep = record {
  consecutive = IsConsecutive-append i log (entry_of_wire p ∷ []) c (omega arith, tt);
  found = (entry_of_wire p, ground (arith, find_back-snoc p.index log (entry_of_wire p)), refl);
  kept = λ j lt. ground (arith, find_back-snoc j log (entry_of_wire p), keep j lt);
  reaches = omega (arith, length-append log (entry_of_wire p ∷ []));
  ends = λ _. omega (arith, length-append log (entry_of_wire p ∷ []));
}

-- An index that a log has not reached, or has.
pub end_of_missing :
    (i j : ℕ) (log : List LogEntry)
    → IsConsecutive i log
    → i ≤ j
    → find_back j log ≡ none
    → i + length log ≤ j
end_of_missing i j log c lo q = elim (dec_lt j (i + length log)) [
  | yes lt ↦ let (e, r) = find_back-inside i j log c lo lt in cc
  | no ge ↦ omega arith
]

pub inside_of_found :
    (i j : ℕ) (log : List LogEntry) {e : LogEntry}
    → IsConsecutive i log
    → find_back j log ≡ some e
    → j < i + length log
inside_of_found i j log c q = elim (dec_lt j (i + length log)) [
  | yes lt ↦ lt
  | no ge ↦ cc (find_back-above i j log c (omega arith))
]

pub merge-IsPlaced :
    (i : ℕ) (t : Bool) (p : WireEntry) (log : List LogEntry)
    → IsConsecutive i log
    → i ≤ p.index
    → p.index ≤ i + length log
    → (t ≡ true → p.index ≡ i + length log)
    → IsPlaced i p log (merge t p log).0 (merge t p log).1
unfolding merge
merge-IsPlaced i true p log c lo hi at_end =
    append-IsPlaced i p log log true c (omega (arith, at_end refl)) (λ j _. refl)
merge-IsPlaced i false p log c lo hi at_end = elim (Option-cases (find_back p.index log)) [
  | inl q ↦ rw q (
      append-IsPlaced i p log log false c (omega (arith, end_of_missing i p.index log c lo q))
        (λ j _. refl))
  | inr (e, q) ↦ rw q (elim (Bool-cases (e.term == p.term)) [
    | inl same ↦ rw same (record {
      consecutive = c;
      found = (e, q, ground arith);
      kept = λ j _. refl;
      reaches = omega (arith, inside_of_found i p.index log {e = e} c q);
      ends = λ h. cc;
    })
    | inr other ↦ rw other (
        append-IsPlaced i p log (take_below p.index log) true
          (take_below-IsConsecutive i p.index log c) (length-take_below i p.index log c lo hi)
          (λ j lt. ground (arith, find_back-take_below i p.index j log c)))
  ])
]

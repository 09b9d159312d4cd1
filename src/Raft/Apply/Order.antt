-- ===== src/Raft/Apply/Order.antt =====
-- `runApplyLoop`: the order of the entries that one tick delivers.
use mathlib.Core.Path.{subst}
use native.Mathlib.Decide.{dec_lt}
use go_core_x.Prelude.{
  ℕ, zero, suc, ◌+◌, ◌-◌, ◌≤◌, ◌<◌, false, none, some, List, [], ◌∷◌, ◌≡◌, refl, sym, ◌∙◌, ◌⊎◌,
  arith, length, leb, Bool-cases, inl, inr,
}
use go_core_x.Raft.Types.{LogEntry}
use go_core_x.Raft.Node.{RaftNode, find_back, entry_at}
use go_core_x.Raft.Node.Log.{
  IsConsecutive, IsWellFormed, find_back-inside, find_back-index, find_back-below,
}
use go_core_x.Raft.Apply.{collect_entries, apply_tick}

entry_at-inside :
    (n : RaftNode) (j : ℕ)
    → IsWellFormed n
    → n.snapshot_index < j
    → j ≤ n.snapshot_index + length n.log
    → (e : LogEntry) × (entry_at n j ≡ some e) × (e.index ≡ j) × (find_back j n.log ≡ some e)
unfolding entry_at
entry_at-inside n j w lo hi =
    let (e, q) =
      find_back-inside (suc n.snapshot_index) j n.log w.consecutive (omega arith) (omega arith) in
    let pos : leb j 0 ≡ false = ground arith in
    (e, rw (entry_at, pos) q, find_back-index j n.log {e = e} q, q)

-- The entries from `from` on, `count` of them, as the log has them.
pub record IsRange (n : RaftNode) (from count : ℕ) (es : List LogEntry) : Type 0 where
  pub in_order : IsConsecutive from es
  pub size : length es ≡ count
  pub from_log : (j : ℕ) → from ≤ j → j < from + count → find_back j es ≡ find_back j n.log

find_later :
    (j : ℕ) (e : LogEntry) (es : List LogEntry)
    → e.index < j
    → find_back j (e ∷ es) ≡ find_back j es
unfolding find_back
find_later j e es lt = ground (arith, lt)

find_first :
    (from : ℕ) (e : LogEntry) (es : List LogEntry)
    → e.index ≡ from
    → IsConsecutive (suc from) es
    → find_back from (e ∷ es) ≡ some e
unfolding find_back
find_first from e es i c = ground (arith, i, find_back-below (suc from) from es c (omega arith))

IsRange-cons :
    (n : RaftNode) (from count : ℕ) (e : LogEntry) (es : List LogEntry)
    → e.index ≡ from
    → find_back from n.log ≡ some e
    → IsRange n (suc from) count es
    → IsRange n from (suc count) (e ∷ es)
IsRange-cons n from count e es i q r = record {
  in_order = (i, r.in_order);
  size = omega (arith, r.size);
  from_log = λ j lo hi. elim (dec_lt from j) [
    | yes p ↦ find_later j e es (omega (arith, i)) ∙ r.from_log j (omega arith) (omega arith)
    | no p ↦
        let here : j ≡ from = omega arith in rw here (find_first from e es i r.in_order ∙ sym q)
  ];
}

collect_entries-IsRange :
    (n : RaftNode) (from count : ℕ)
    → IsWellFormed n
    → n.snapshot_index < from
    → from + count ≤ suc (n.snapshot_index + length n.log)
    → IsRange n from count (collect_entries n from count)
unfolding collect_entries
collect_entries-IsRange n from zero w lo hi = record {
  in_order = tt;
  size = refl;
  from_log = λ j l h. absurd (omega arith);
}
collect_entries-IsRange n from (suc k) w lo hi =
    let (e, q, i, f) = entry_at-inside n from w lo (omega arith) in
    rw (q, collect_entries)
      (IsRange-cons n from k e (collect_entries n (suc from) k) i f
        (collect_entries-IsRange n (suc from) k w (omega arith) (omega arith)))

entry_at-snapshot :
    (n : RaftNode) (j : ℕ) → IsWellFormed n → j ≤ n.snapshot_index → entry_at n j ≡ none
unfolding entry_at
entry_at-snapshot n j w h =
    ground (arith, find_back-below (suc n.snapshot_index) j n.log w.consecutive (omega arith))

-- The larger of both.
abbrev pub later : ℕ → ℕ → ℕ
later a b = a + (b - a)

IsRange-empty : (n : RaftNode) (from count : ℕ) → count ≡ 0 → IsRange n from count []
IsRange-empty n from count z = record {
  in_order = tt;
  size = sym z;
  from_log = λ j l h. absurd (omega arith);
}

collect_behind :
    (n : RaftNode) (last count : ℕ)
    → IsWellFormed n
    → last + count ≤ n.snapshot_index + length n.log
    → IsRange n
        (suc (later last n.snapshot_index))
        (last + count - later last n.snapshot_index)
        (collect_entries n (suc last) count)
unfolding collect_entries
collect_behind n last zero w hi = IsRange-empty n _ _ (omega arith)
collect_behind n last (suc k) w hi = elim (dec_lt last n.snapshot_index) [
  | yes inside ↦
      let from : later last n.snapshot_index ≡ later (suc last) n.snapshot_index = omega arith in
      let size : last + suc k ≡ suc last + k = omega arith in
      rw (collect_entries, entry_at-snapshot n (suc last) w (omega arith), size, from)
        (collect_behind n (suc last) k w (omega arith))
  | no outside ↦
      let from : later last n.snapshot_index ≡ last = omega arith in
      let size : last + suc k - last ≡ suc k = omega arith in
      rw (from, size) (collect_entries-IsRange n (suc last) (suc k) w (omega arith) (omega arith))
]

-- The node is well-formed and has what is committed.
pub record IsReadyToApply (n : RaftNode) : Type 0 where
  pub well_formed : IsWellFormed n
  pub present : n.commit_index ≤ n.snapshot_index + length n.log

-- Where something was committed behind the last applied index, one tick delivers the entries behind
-- that index and behind the snapshot, up to the commit index, in order, each once and none skipped,
-- and then both indices agree. What the snapshot covers is not delivered, also where the node has
-- not applied it. Otherwise the tick delivers nothing and changes nothing. The node's log is
-- well-formed and reaches to the commit index.
pub apply_tick-IsRange :
    (n : RaftNode)
    → IsReadyToApply n
    → let behind = later n.last_applied n.snapshot_index in
      (n.last_applied < n.commit_index)
        × ((apply_tick n).0.last_applied ≡ n.commit_index)
        × IsRange n (suc behind) (n.commit_index - behind) (apply_tick n).1
        × IsReadyToApply (apply_tick n).0
      ⊎ (n.commit_index ≤ n.last_applied) × (apply_tick n ≡ (n, []))
unfolding apply_tick
apply_tick-IsRange n r = elim (Bool-cases (leb n.commit_index n.last_applied)) [
  | inl q ↦ inr (ground (arith, q), rw q refl)
  | inr q ↦
      let lt : n.last_applied < n.commit_index = ground (arith, q) in
      let top = r.present in
      let next : n.last_applied + 1 ≡ suc n.last_applied = omega arith in
      let all : n.last_applied + (n.commit_index - n.last_applied) ≡ n.commit_index = omega arith in
      rw (q, next)
        (inl (
          lt,
          refl,
          subst
              (λ c.
                IsRange n (suc (later n.last_applied n.snapshot_index))
                  (c - later n.last_applied n.snapshot_index)
                  (collect_entries n (suc n.last_applied) (n.commit_index - n.last_applied)))
              all
              (collect_behind n n.last_applied (n.commit_index - n.last_applied) r.well_formed
                (omega arith)),
          record {
            well_formed = record { consecutive = r.well_formed.consecutive };
            present = r.present;
          },
        ))
]

-- ===== src/Raft/Append/LogMatching.antt =====
-- `HandleAppendEntries` among the logs of a cluster: the Log Matching property.
use native.Mathlib.Decide.{dec_lt}
use go_core_x.Prelude.{
  ℕ, suc, ◌+◌, ◌≤◌, ◌<◌, Bool, true, false, none, some, List, [], ◌∷◌, ◌++◌, ◌≡◌, refl, sym, ap,
  ◌∙◌, arith, length, ltb, ◌==◌, nat_eq, inl, inr, ◌⊎◌, Bool-cases, Option-cases,
}
use go_core_x.Raft.Types.{LogEntry, WireEntry, AppendEntriesArgs}
use go_core_x.Raft.Stores.{take_below}
use go_core_x.Raft.Node.{Externals, RaftNode, find_back, entry_at, term_at}
use go_core_x.Raft.Node.Log.{
  IsConsecutive, IsWellFormed, find_back-snoc, find_back-above, find_back-below, find_back-inside,
  find_back-take_below, length-take_below, take_below-IsConsecutive,
}
use go_core_x.Raft.Append.{
  more, entry_of_wire, round, append_entries, follow, check_prev, handle_append_entries,
}
use go_core_x.Raft.Append.Frame.{Round-cases}
use go_core_x.Raft.Append.Merge.{merge, end_of_missing, inside_of_found}
use go_core_x.Raft.Append.Matching.{IsReady, IsRun, IsReady-next, round-Merged, round-IsPlaced}
use go_core_x.Raft.Append.Accept.{
  IsAligned, ready, follow_same, follow-IsWellFormed, follow-IsAligned, prev_in_range,
  check_prev-previous, replicate_entries_parts,
}

-- Where two logs have entries of one term at one index, they have the same entries up to there,
-- as far as neither is compacted.
abbrev pub Matches : List LogEntry → List LogEntry → Type 0
Matches log other =
    (j i : ℕ) (a b d e : LogEntry)
    → find_back j log ≡ some a
    → find_back j other ≡ some b
    → a.term ≡ b.term
    → i ≤ j
    → find_back i log ≡ some d
    → find_back i other ≡ some e
    → d ≡ e

-- Below `k` the log has nothing but the sender's entries.
abbrev pub Follows : ℕ → List LogEntry → List LogEntry → Type 0
Follows k log sender =
    (i : ℕ) (d : LogEntry) → i < k → find_back i log ≡ some d → find_back i sender ≡ some d

-- The entries of a message stand in the sender's log, and so does the previous one.
abbrev pub AreFrom : List LogEntry → List WireEntry → Type 0
AreFrom sender [] = Unit {0}
AreFrom sender (p ∷ ps) = (find_back p.index sender ≡ some (entry_of_wire p)) × AreFrom sender ps

pub record IsFrom (sender : List LogEntry) (args : AppendEntriesArgs) : Type 0 where
  pub previous :
      (args.prev_log_index ≡ 0)
      ⊎ (e : LogEntry) × (find_back args.prev_log_index sender ≡ some e)
        × (e.term ≡ args.prev_log_term)
  pub entries : AreFrom sender args.entries

-- A log that is cut at `k` and then follows the sender.
extended-Matches :
    (k : ℕ) (old new sender other : List LogEntry)
    → ((j : ℕ) → j < k → find_back j new ≡ find_back j old)
    → ((j : ℕ) → k < j → find_back j new ≡ none)
    → Follows (suc k) new sender
    → Matches old other
    → Matches sender other
    → Matches new other
extended-Matches k old new sender other below above f m s j i a b d e qa qb t le qd qe =
    elim (dec_lt j k) [
      | yes lt ↦ m j i a b d e (sym (below j lt) ∙ qa) qb t le (sym (below i (omega arith)) ∙ qd) qe
      | no ge ↦ elim (dec_lt k j) [
        | yes gt ↦ cc (above j gt)
        | no same ↦ s j i a b d e (f j a (omega arith) qa) qb t le (f i d (omega arith) qd) qe
      ]
    ]

cut-Matches :
    (i k : ℕ) (log other : List LogEntry)
    → IsConsecutive i log
    → Matches log other
    → Matches (take_below k log) other
cut-Matches i k log other c m j h a b d e qa qb t le qd qe =
    m j h a b d e (ground (arith, qa, find_back-take_below i k j log c)) qb t le
      (ground (arith, qd, find_back-take_below i k h log c)) qe

module _ (sender : List LogEntry) (p : WireEntry)
    (there : find_back p.index sender ≡ some (entry_of_wire p)) where
  -- A log that reaches up to the entry, with the entry behind it.
  snoc-Follows :
      (log : List LogEntry)
      → Follows p.index log sender
      → Follows (suc p.index) (log ++ entry_of_wire p ∷ []) sender
  snoc-Follows log f i d lt q = elim (dec_lt i p.index) [
    | yes less ↦ f i d less (ground (arith, q, find_back-snoc i log (entry_of_wire p)))
    | no ge ↦
        let same : i ≡ p.index = omega arith in
        let found : find_back i (log ++ entry_of_wire p ∷ []) ≡ some (entry_of_wire p) =
          ground (arith, find_back-snoc i log (entry_of_wire p)) in
        ap (λ l. find_back l sender) same ∙ there ∙ sym found ∙ q
  ]

  -- What one entry of the message does to a log.
  record IsExtended (old new : List LogEntry) : Type 0 where
    below : (j : ℕ) → j < p.index → find_back j new ≡ find_back j old
    follows : Follows (suc p.index) new sender
    rest : (new ≡ old) ⊎ ((j : ℕ) → p.index < j → find_back j new ≡ none)

  snoc-IsExtended :
      (i : ℕ) (old log : List LogEntry)
      → IsConsecutive i log
      → i + length log ≡ p.index
      → ((j : ℕ) → j < p.index → find_back j log ≡ find_back j old)
      → Follows p.index old sender
      → IsExtended old (log ++ entry_of_wire p ∷ [])
  snoc-IsExtended i old log c e below f = record {
    below = λ j lt. ground (arith, find_back-snoc j log (entry_of_wire p), below j lt);
    follows = snoc-Follows log λ j d lt q. f j d lt (sym (below j lt) ∙ q);
    rest =
        inr
          λ j gt. ground (arith, find_back-snoc j log (entry_of_wire p), find_back-above i j log c);
  }

  merge-IsExtended :
      (i : ℕ) (t : Bool) (log : List LogEntry)
      → IsConsecutive i log
      → i ≤ p.index
      → p.index ≤ i + length log
      → (t ≡ true → p.index ≡ i + length log)
      → Matches log sender
      → Follows p.index log sender
      → IsExtended log (merge t p log).0
  unfolding merge
  merge-IsExtended i true log c lo hi at_end m f =
      snoc-IsExtended i log log c (omega (arith, at_end refl)) (λ j _. refl) f
  merge-IsExtended i false log c lo hi at_end m f = elim (Option-cases (find_back p.index log)) [
    | inl q ↦ rw q (
        snoc-IsExtended i log log c (omega (arith, end_of_missing i p.index log c lo q))
          (λ j _. refl) f)
    | inr (e, q) ↦ rw q (elim (Bool-cases (e.term == p.term)) [
      | inl same ↦ rw same (record {
        below = λ j _. refl;
        follows = λ j d lt r. elim (dec_lt j p.index) [
          | yes less ↦ f j d less r
          | no ge ↦
              let here : j ≡ p.index = omega arith in
              let d' : d ≡ e = cc in
              ap (λ l. find_back l sender) here
              ∙ there
              ∙ ap some (
                  sym (
                    m p.index p.index e (entry_of_wire p) e (entry_of_wire p) q there (ground arith)
                      (omega arith) q there))
              ∙ ap some (sym d')
        ];
        rest = inl refl;
      })
      | inr other ↦ rw other (
          snoc-IsExtended i log (take_below p.index log) (take_below-IsConsecutive i p.index log c)
            (length-take_below i p.index log c lo hi)
            (λ j lt. ground (arith, find_back-take_below i p.index j log c)) f)
    ])
  ]

  IsExtended-Matches :
      (old new other : List LogEntry)
      → IsExtended old new
      → Matches old other
      → Matches sender other
      → Matches new other
  IsExtended-Matches old new other x m s = elim x.rest [
    | inl same ↦ rw same m
    | inr above ↦ extended-Matches p.index old new sender other x.below above x.follows m s
  ]

pub Matches-self : (log : List LogEntry) → Matches log log
Matches-self log j i a b d e qa qb t le qd qe = cc

round-IsExtended :
    (x : Externals) (i k : ℕ) (t : Bool) (p : WireEntry) (n : RaftNode) (sender : List LogEntry)
    {t' : Bool} {n' : RaftNode}
    → IsReady i k t n
    → p.index ≡ k
    → (there : find_back p.index sender ≡ some (entry_of_wire p)) → Matches n.log sender
    → Follows k n.log sender
    → round x t p n ≡ more t' n'
    → IsExtended sender p there n.log n'.log
round-IsExtended x i k t p n sender r e there m f q =
    let (new, _) = rw q at (round-Merged x t p n (omega (arith, r.positive, r.low))) in
    rw new (
      merge-IsExtended sender p there i t n.log r.consecutive (omega (arith, r.low))
        (omega (arith, r.high)) (λ h. omega (arith, r.at_end h)) m
        λ j d lt h. f j d (omega arith) h)

append_entries-Matches :
    (x : Externals) (i k : ℕ) (t : Bool) (ps : List WireEntry) (n : RaftNode)
    (sender other : List LogEntry)
    → IsReady i k t n
    → IsRun k ps
    → AreFrom sender ps
    → Matches n.log sender
    → Matches sender other
    → Matches n.log other
    → Follows k n.log sender
    → Matches (append_entries x t ps n).0.log other
unfolding append_entries
append_entries-Matches x i k t [] n sender other r run from ms so mo f = mo
append_entries-Matches x i k t (p ∷ ps) n sender other r run from ms so mo f =
    elim (Round-cases (round x t p n)) [
      | inl (t', n', q) ↦
          let y = round-IsExtended x i k t p n sender r run.0 from.0 ms f q in
          rw (q, append_entries)
            (append_entries-Matches x i (suc k) t' ps n' sender other
              (IsReady-next i k t' p n n' r.positive r.low run.0
                (round-IsPlaced x i k t p n r run.0 q))
              run.1 from.1
              (IsExtended-Matches sender p from.0 n.log n'.log sender y ms (Matches-self sender)) so
              (IsExtended-Matches sender p from.0 n.log n'.log other y mo so)
              λ j d lt h. y.follows j d (omega arith) h)
      | inr (n', q) ↦
          rw (q, append_entries)
            (elim (rw q at (round-Merged x t p n (omega (arith, r.positive, r.low)))) [
              | inl same ↦ rw same mo
              | inr cut ↦ rw cut (cut-Matches i p.index n.log other r.consecutive mo)
            ])
    ]

-- The entry behind a term.
term_at-found :
    (n : RaftNode) (j : ℕ) {t : ℕ} {e : LogEntry}
    → 0 < j
    → term_at n j ≡ some t
    → find_back j n.log ≡ some e
    → e.term ≡ t
unfolding term_at entry_at
term_at-found n j pos h q = ground (arith, h, q)

pub start_below :
    (i j : ℕ) (log : List LogEntry) {e : LogEntry}
    → IsConsecutive i log
    → find_back j log ≡ some e
    → i ≤ j
start_below i j log c q = elim (dec_lt j i) [
  | yes lt ↦ cc (find_back-below i j log c lt)
  | no ge ↦ omega arith
]

-- A passed check means that the follower's log up to the previous entry is the sender's.
pub check_prev-Follows :
    (n : RaftNode) (args : AppendEntriesArgs) (sender : List LogEntry)
    → IsWellFormed n
    → (args.prev_log_index ≡ 0 → n.snapshot_index ≡ 0)
    → IsConsecutive 1 sender
    → IsFrom sender args
    → Matches n.log sender
    → check_prev n args ≡ none
    → Follows (suc args.prev_log_index) n.log sender
check_prev-Follows n args sender w start c from m h i d lt q =
    let prev = args.prev_log_index in
    let lo = start_below (suc n.snapshot_index) i n.log {e = d} w.consecutive q in
    let top = prev_in_range n args w start h in
    let (e, qe) =
      find_back-inside (suc n.snapshot_index) prev n.log w.consecutive (omega arith)
        (omega (arith, top)) in
    elim from.previous [
      | inl zero_prev ↦ absurd (omega arith)
      | inr (f, qf, tf) ↦
          let known : term_at n prev ≡ some args.prev_log_term =
            elim (check_prev-previous n args h) [
              | inl zero_prev ↦ absurd (omega arith)
              | inr t ↦ t
            ] in
          let te : e.term ≡ args.prev_log_term =
            term_at-found n prev {e = e} (omega arith) known qe in
          let (g, qg) =
            find_back-inside 1 i sender c (omega arith)
              (omega (arith, inside_of_found 1 prev sender {e = f} c qf)) in
          qg ∙ ap some (sym (m prev i e f d g qe qf (te ∙ sym tf) (omega arith) q qg))
    ]

-- Let a follower have a well-formed log, and let a message come from a log that begins with entry 1. Any third log
-- that matches the follower's log and the sender's matches also the follower's log after the message, whether the
-- message is accepted, refused, or cut short by a store that fails: where two logs have an entry of one term at one
-- index they have the same entries up to there. The sender's log may itself be the third.
pub handle_append_entries-Matches :
    (x : Externals) (n : RaftNode) (args : AppendEntriesArgs) (sender other : List LogEntry)
    → IsWellFormed n
    → IsAligned n args
    → IsConsecutive 1 sender
    → IsFrom sender args
    → Matches n.log sender
    → Matches sender other
    → Matches n.log other
    → Matches (handle_append_entries x n args).0.log other
unfolding handle_append_entries
handle_append_entries-Matches x n args sender other w a c from ms so mo =
    let n' = follow args n in
    let w' = follow-IsWellFormed args n w in
    let a' = follow-IsAligned args n a in
    let (l, _, _, _) = follow_same args n in
    elim (Bool-cases (ltb args.term n.current_term)) [
      | inl old ↦ rw old mo
      | inr new ↦ rw new (elim (Option-cases (check_prev n' args)) [
        | inl q ↦
            rw (q, (replicate_entries_parts x args n').0)
              (append_entries-Matches x (suc n'.snapshot_index) (suc args.prev_log_index) false
                args.entries n' sender other (ready n' args w' a'.from_start q) a'.run from.entries
                (rw l ms) so (rw l mo)
                (check_prev-Follows n' args sender w' a'.from_start c from (rw l ms) q))
        | inr (r, q) ↦ rw (q, l) mo
      ])
    ]

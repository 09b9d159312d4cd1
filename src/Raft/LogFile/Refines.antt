-- ===== src/Raft/LogFile/Refines.antt =====
-- log_store.go: WALLogStore beside MemLogStore, call by call.
use mathlib.Core.Path.{subst}
use go_core_x.Prelude.{
  ℕ, ◌+◌, ◌^◌, ◌<◌, ◌≡◌, refl, sym, Bool, true, false, ◌&&◌, some, List, [], ◌∷◌, ◌++◌, append-nil,
  append_assoc, length,
}
use go_core_x.Bytes.{Bytes}
use go_core_x.Storage.Wal.{encode_record}
use go_core_x.Storage.Wal.Records.{IsChecksum}
use go_core_x.Storage.Writer.{Writer, immediate, never, done, all_done, new_writer}
use go_core_x.Storage.Writer.Done.{write_done}
use go_core_x.Raft.Types.{LogEntry}
use go_core_x.Raft.Stores.{take_below, drop_through}
use go_core_x.Raft.LogFile.{
  encode_log_entry, encode_truncate, ok, load_all, append, truncate_suffix, Compaction,
  write_entries, rewrite_wal_excluding, compact_prefix,
}
use go_core_x.Raft.LogFile.Codec.{IsStorable}
use go_core_x.Raft.LogFile.Replay.{Holds, empty-Holds, scan_Holds, entry-Holds, truncate-Holds}
use go_core_x.Raft.LogFile.Ascending.{
  Each, IsAscending, Each-snoc, Each-take_below, Each-drop_through, IsAscending-snoc,
  IsAscending-take_below, IsAscending-drop_through, select-ascending,
}

pub data LogOp : Type 0 where
  add : LogEntry → LogOp
  cut_from : ℕ → LogOp
  compact : ℕ → LogOp

-- The calls on MemLogStore.
abbrev pub mem_step : LogOp → List LogEntry → List LogEntry
mem_step (add e) es = es ++ e ∷ []
mem_step (cut_from from) es = take_below from es
mem_step (compact up_to) es = drop_through up_to es

abbrev pub mem_run : List LogOp → List LogEntry → List LogEntry
mem_run [] es = es
mem_run (op ∷ ops) es = mem_run ops (mem_step op es)

-- The same calls on WALLogStore, at the times of a clock, and whether all return nil.
module _ (crc : Bytes → ℕ) (times : ℕ → ℕ) (c : Compaction) where
  abbrev pub wal_step : LogOp → Writer → Writer × Bool
  wal_step (add e) w = append crc (times w.calls) e w
  wal_step (cut_from from) w = truncate_suffix crc (times w.calls) from w
  wal_step (compact up_to) w = compact_prefix crc times c up_to w

  abbrev pub wal_run : List LogOp → Writer → Writer × Bool
  wal_run [] w = (w, true)
  wal_run (op ∷ ops) w =
      let r = wal_step op w in let rest = wal_run ops r.0 in (rest.0, r.1 && rest.1)

abbrev pub nothing_fails : Compaction
nothing_fails = record { writes = all_done; swaps = true; closes = true }

-- What the callers see to: entries that fit their fields, in ascending order.
abbrev pub IsFit : LogOp → List LogEntry → Type 0
IsFit (add e) es = IsStorable e × Each (λ x. x.index < e.index) es
IsFit (cut_from from) es = from < 2 ^ 63
IsFit (compact up_to) es = Unit {0}

abbrev pub AreFit : List LogOp → List LogEntry → Type 0
AreFit [] es = Unit {0}
AreFit (op ∷ ops) es = IsFit op es × AreFit ops (mem_step op es)

-- A writer none of whose calls fails, and the log that its file stands for.
record StandsFor (crc : Bytes → ℕ) (es : List LogEntry) (w : Writer) : Type 0 where
  works : (n : ℕ) → w.outcomes n ≡ done
  holds : Holds crc es w.file

record Implements (crc : Bytes → ℕ) (es : List LogEntry) (w : Writer) : Type 0 where
  stands : StandsFor crc es w
  storable : Each IsStorable es
  ascending : IsAscending es

module _ (crc : Bytes → ℕ) (small : IsChecksum crc) (times : ℕ → ℕ)
    (early : (n : ℕ) → times n < 2 ^ 64) where
  append-StandsFor :
      (es : List LogEntry) (w : Writer) (e : LogEntry)
      → StandsFor crc es w
      → IsStorable e
      → (w' : Writer) × (append crc (times w.calls) e w ≡ (w', true))
        × StandsFor crc (es ++ e ∷ []) w'
  unfolding append
  append-StandsFor es w e i f = (
    record w { file = w.file ++ encode_record crc _; calls = w.calls + 1 },
    write_done crc (times w.calls) (encode_log_entry e) w i.works,
    record { works = i.works; holds = entry-Holds i.holds (times w.calls) e (early w.calls) f },
  )

  truncate-StandsFor :
      (es : List LogEntry) (w : Writer) (from : ℕ)
      → StandsFor crc es w
      → from < 2 ^ 63
      → (w' : Writer) × (truncate_suffix crc (times w.calls) from w ≡ (w', true))
        × StandsFor crc (take_below from es) w'
  unfolding truncate_suffix
  truncate-StandsFor es w from i f = (
    record w { file = w.file ++ encode_record crc _; calls = w.calls + 1 },
    write_done crc (times w.calls) (encode_truncate from) w i.works,
    record {
      works = i.works;
      holds = truncate-Holds i.holds (times w.calls) from (early w.calls) f;
    },
  )

  write_entries-StandsFor :
      (ks es : List LogEntry) (w : Writer)
      → StandsFor crc ks w
      → Each IsStorable es
      → (w' : Writer) × (write_entries crc times es w ≡ some w') × StandsFor crc (ks ++ es) w'
  unfolding write_entries
  write_entries-StandsFor ks [] w i f =
      (w, refl, subst (λ l. StandsFor crc l w) (sym (append-nil ks)) i)
  write_entries-StandsFor ks (e ∷ es) w i f =
      let (w1, added, i1) = append-StandsFor ks w e i f.0 in
      let (w2, rest, i2) = write_entries-StandsFor (ks ++ e ∷ []) es w1 i1 f.1 in
      (w2, rw (added) rest, subst (λ l. StandsFor crc l w2) (append_assoc ks (e ∷ []) es) i2)

  compact-StandsFor :
      (es : List LogEntry) (w : Writer) (up_to : ℕ)
      → Implements crc es w
      → (w' : Writer) × (compact_prefix crc times nothing_fails up_to w ≡ (w', true))
        × StandsFor crc (drop_through up_to es) w'
  unfolding compact_prefix rewrite_wal_excluding
  compact-StandsFor es w up_to i =
      let kept = drop_through up_to es in
      let fresh = new_writer [] never all_done in
      let (new, written, n) =
        write_entries-StandsFor [] kept fresh
          (record { works = λ k. refl; holds = empty-Holds crc })
          (Each-drop_through IsStorable up_to es i.storable) in
      (
        record w { file = new.file; size_tracker = length new.file },
        rw
            (
              compact_prefix,
              rewrite_wal_excluding,
              scan_Holds i.stands.holds small false,
              select-ascending up_to es i.ascending,
              written,
            )
            refl,
        record { works = i.stands.works; holds = n.holds },
      )

  step-Implements :
      (op : LogOp) (es : List LogEntry) (w : Writer)
      → Implements crc es w
      → IsFit op es
      → (w' : Writer) × (wal_step crc times nothing_fails op w ≡ (w', true))
        × Implements crc (mem_step op es) w'
  step-Implements (add e) es w i f =
      let (w', r, s) = append-StandsFor es w e i.stands f.0 in
      (
        w',
        r,
        record {
          stands = s;
          storable = Each-snoc IsStorable es e i.storable f.0;
          ascending = IsAscending-snoc es e i.ascending f.1;
        },
      )
  step-Implements (cut_from from) es w i f =
      let (w', r, s) = truncate-StandsFor es w from i.stands f in
      (
        w',
        r,
        record {
          stands = s;
          storable = Each-take_below IsStorable from es i.storable;
          ascending = IsAscending-take_below from es i.ascending;
        },
      )
  step-Implements (compact up_to) es w i f =
      let (w', r, s) = compact-StandsFor es w up_to i in
      (
        w',
        r,
        record {
          stands = s;
          storable = Each-drop_through IsStorable up_to es i.storable;
          ascending = IsAscending-drop_through up_to es i.ascending;
        },
      )

  run-Implements :
      (ops : List LogOp) (es : List LogEntry) (w : Writer)
      → Implements crc es w
      → AreFit ops es
      → (w' : Writer) × (wal_run crc times nothing_fails ops w ≡ (w', true))
        × Implements crc (mem_run ops es) w'
  run-Implements [] es w i f = (w, refl, i)
  run-Implements (op ∷ ops) es w i f =
      let (w1, first, i1) = step-Implements op es w i f.0 in
      let (w2, later, i2) = run-Implements ops (mem_step op es) w1 i1 f.1 in
      (w2, rw (first, later) refl, i2)

  -- Whatever entries are appended in ascending order, each fit for its fields, and whatever truncations and
  -- compactions stand between them: where no write fails, every call on a new WALLogStore returns nil, and what is
  -- then loaded of its file is the log that the same calls leave in a MemLogStore.
  pub wal_run_refines :
      (ops : List LogOp)
      → AreFit ops []
      → let r = wal_run crc times nothing_fails ops (new_writer [] immediate all_done) in
        (r.1 ≡ true) × (load_all crc r.0 ≡ ok (mem_run ops []))
  unfolding load_all
  wal_run_refines ops f =
      let fresh = new_writer [] immediate all_done in
      let (w, run, i) =
        run-Implements ops [] fresh
          (record {
            stands = record { works = λ n. refl; holds = empty-Holds crc };
            storable = tt;
            ascending = tt;
          })
          f in
      rw run (refl, scan_Holds i.stands.holds small true)

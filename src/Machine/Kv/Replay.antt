-- ===== src/Machine/Kv/Replay.antt =====
-- kv_state_machine.go, `ApplyDirect`, and its loop in cmd/main.go: the last applied index.
use go_core_x.Prelude.{
  ℕ, ◌≤◌, ◌⊎◌, List, [], ◌∷◌, ◌≡◌, refl, arith, leb, ltb, Bool-cases, Option-cases, inl, inr,
}
use go_core_x.Raft.Types.{LogEntry}
use go_core_x.Machine.Command.{Decoder}
use go_core_x.Machine.Kv.{
  KvStateMachine, durable_write, notify_waiters, apply_command, apply, apply_direct, replay_gap,
}

apply_last :
    (decode : Decoder) (e : LogEntry) (sm : KvStateMachine)
    → ((apply decode e sm).last_applied ≡ e.index)
      ⊎ ((apply decode e sm).last_applied ≡ sm.last_applied)
unfolding apply apply_command notify_waiters
apply_last decode e sm = elim (Option-cases (decode e.payload)) [
  | inl q ↦ inr (rw (apply, q) refl)
  | inr (cmd, q) ↦ elim (Bool-cases (durable_write cmd e.index sm.store).1) [
    | inl ok ↦ inl (rw (apply, q) (rw (ok, apply_command) refl))
    | inr failed ↦ inr (rw (apply, q) (rw (failed, apply_command) refl))
  ]
]

apply_direct_last :
    (decode : Decoder) (e : LogEntry) (sm : KvStateMachine)
    → sm.last_applied ≤ (apply_direct decode e sm).last_applied
unfolding apply_direct
apply_direct_last decode e sm = elim (Bool-cases (leb e.index sm.last_applied)) [
  | inl q ↦ rw q (omega arith)
  | inr q ↦ rw q (ground (arith, q, apply_last decode e sm))
]

-- However many entries are replayed, in whatever order, and whether their writes fail or not, the
-- last applied index does not fall.
pub replay_gap_last :
    (decode : Decoder) (applied : ℕ) (es : List LogEntry) (sm : KvStateMachine)
    → sm.last_applied ≤ (replay_gap decode applied es sm).last_applied
unfolding replay_gap
replay_gap_last decode applied [] sm = omega arith
replay_gap_last decode applied (e ∷ es) sm = elim (Bool-cases (ltb applied e.index)) [
  | inl q ↦
      rw (replay_gap, q)
        (omega (
          arith,
          apply_direct_last decode e sm,
          replay_gap_last decode applied es (apply_direct decode e sm),
        ))
  | inr q ↦ rw (replay_gap, q) (replay_gap_last decode applied es sm)
]

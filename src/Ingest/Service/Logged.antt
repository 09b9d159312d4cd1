-- ===== src/Ingest/Service/Logged.antt =====
-- The order of the WAL and the workers: an event that is on its way to a worker, or was processed, has been written.
use go_core_x.Prelude.{
  ℕ, ◌+◌, ◌<◌, ◌≡◌, refl, sym, ap, arith, Bool, Option-cases, Bool-cases, inl, inr, ◌∷◌, length,
  ◌==◌, nat_eq, ltb, Memᴰ,
}
use mathlib.Core.Path.{subst}
use go_core_x.Storage.Events.{Event}
use go_core_x.Ingest.EventPool.{pick, set_fields, acquire, release, collect}
use go_core_x.Ingest.WorkerPool.{
  receive-cases, shutdown-cases, submit, receive, finish, leave, shutdown,
}
use go_core_x.Ingest.Service.{
  System, begin, write, hand_over, released, Action, begins, writes, submits, receives, finishes,
  leaves, shuts_down, after_shutdown, collects, step,
}
use go_core_x.Ingest.Service.Exclusive.{occurs, is_one_refl, pick-occurs, occurs-snoc, IsExclusive}

-- In how many hands an object is behind the WAL.
abbrev in_flight : ℕ → System → ℕ
in_flight e s = occurs e s.unsubmitted + occurs e s.workers.job_ch + occurs e s.workers.working

pub record IsLogged (s : System) : Type 0 where
  pub flying : (e : ℕ) → 0 < in_flight e s → Memᴰ (s.pool.heap e) s.written
  pub processed : (v : Event) → Memᴰ v s.workers.processed → Memᴰ v s.written

-- A step that writes nothing, processes nothing and leaves the fields of what is in flight.
kept-IsLogged :
    (s s' : System)
    → s'.written ≡ s.written
    → s'.workers.processed ≡ s.workers.processed
    → ((e : ℕ) → 0 < in_flight e s' → (0 < in_flight e s) × (s'.pool.heap e ≡ s.pool.heap e))
    → IsLogged s
    → IsLogged s'
kept-IsLogged s s' w p f x = record {
  flying = λ e h. let (h', same) = f e h in rw (w, same) (x.flying e h');
  processed = λ v h. rw w (x.processed v (rw p at h));
}

write-IsLogged :
    (ok : Bool) (k : ℕ) (s : System) → IsExclusive s → IsLogged s → IsLogged (write ok k s)
unfolding write release set_fields
write-IsLogged ok k s y x = elim (Option-cases (pick k s.unwritten)) [
  | inl q ↦ rw (write, q) x
  | inr ((e, rest), q) ↦
      let moved = pick-occurs k s.unwritten {x = e} {rest = rest} q in
      elim (Bool-cases ok) [
        | inl good ↦
            rw (write, q, good)
              (record {
                flying = λ j h. elim (Bool-cases (e == j)) [
                  | inl same ↦ Memᴰ.head (ap s.pool.heap (ground arith))
                  | inr other ↦ Memᴰ.tail (x.flying j (ground (arith, h, other)))
                ];
                processed = λ v h. Memᴰ.tail (x.processed v h);
              })
        | inr bad ↦
            rw (write, q, bad)
              (kept-IsLogged s _ refl refl (λ j h. (h, ground (arith, h, moved j, y.once j))) x)
      ]
]

hand_over-IsLogged : (k : ℕ) (s : System) → IsExclusive s → IsLogged s → IsLogged (hand_over k s)
unfolding hand_over submit release set_fields
hand_over-IsLogged k s y x = elim (Option-cases (pick k s.unsubmitted)) [
  | inl q ↦ rw (hand_over, q) x
  | inr ((e, rest), q) ↦
      let moved = pick-occurs k s.unsubmitted {x = e} {rest = rest} q in
      elim (Bool-cases s.workers.closed) [
        | inl shut ↦
            rw (hand_over, q, submit, shut)
              (kept-IsLogged s _ refl refl (λ j h. (omega (arith, h, moved j), refl)) x)
        | inr open_ ↦ elim (Bool-cases (ltb (length s.workers.job_ch) s.workers.capacity)) [
          | inl room ↦
              rw (hand_over, q, submit, open_, room)
                (kept-IsLogged s _ refl refl
                  (λ j h. (omega (arith, h, moved j, occurs-snoc j e s.workers.job_ch), refl)) x)
          | inr crowded ↦
              rw (hand_over, q, submit, open_, crowded)
                (kept-IsLogged s _ refl refl
                  (λ j h. (omega (arith, h, moved j), ground (arith, h, moved j, y.once j))) x)
        ]
      ]
]

receive-IsLogged : (s : System) → IsLogged s → IsLogged (record s { workers = receive s.workers })
receive-IsLogged s x = elim (receive-cases s.workers) [
  | inl (q, _) ↦ rw q x
  | inr (e, rest, jobs, _, q) ↦
      rw q (kept-IsLogged s _ refl refl (λ j h. (omega (arith, h, ap (occurs j) jobs), refl)) x)
]

finish-IsLogged :
    (k : ℕ) (s : System)
    → IsExclusive s
    → IsLogged s
    → IsLogged (released s (finish k s.pool.heap s.workers))
unfolding finish release set_fields
finish-IsLogged k s y x = elim (Option-cases (pick k s.workers.working)) [
  | inl q ↦ rw (finish, q) x
  | inr ((e, rest), q) ↦
      let moved = pick-occurs k s.workers.working {x = e} {rest = rest} q in
      rw (finish, q)
        (record {
          flying = λ j h. elim (Bool-cases (j == e)) [
            | inl same ↦ absurd (ground (arith, h, moved j, y.once j))
            | inr other ↦ rw other (x.flying j (omega (arith, h, moved j)))
          ];
          processed = finished e (omega (arith, moved e, is_one_refl e));
        })
]
  where
    finished :
        (e : ℕ)
        → 0 < in_flight e s
        → (v : Event) → Memᴰ v (s.pool.heap e ∷ s.workers.processed)
        → Memᴰ v s.written
    finished e h v (Memᴰ.head q) = subst (λ u. Memᴰ u s.written) (sym q) (x.flying e h)
    finished e h v (Memᴰ.tail m) = x.processed v m

begin-IsLogged :
    (k : ℕ) (fields : Event) (s : System) → IsExclusive s → IsLogged s → IsLogged (begin k fields s)
unfolding begin acquire set_fields
begin-IsLogged k fields s y x = elim (Option-cases (pick k s.pool.free)) [
  | inl q ↦
      rw (begin, acquire, q)
        (kept-IsLogged s _ refl refl (λ j h. (h, ground (arith, h, y.known j))) x)
  | inr ((e, rest), q) ↦
      let moved = pick-occurs k s.pool.free {x = e} {rest = rest} q in
      rw (begin, acquire, q)
        (kept-IsLogged s _ refl refl (λ j h. (h, ground (arith, h, moved j, y.once j))) x)
]

collect-IsLogged :
    (k : ℕ) (s : System) → IsLogged s → IsLogged (record s { pool = collect k s.pool })
unfolding collect
collect-IsLogged k s x = elim (Option-cases (pick k s.pool.free)) [
  | inl q ↦ rw (collect, q) x
  | inr ((e, rest), q) ↦ rw (collect, q) (kept-IsLogged s _ refl refl (λ j h. (h, refl)) x)
]

leave-IsLogged : (s : System) → IsLogged s → IsLogged (record s { workers = leave s.workers })
unfolding leave
leave-IsLogged s x = kept-IsLogged s _ refl (ground arith) (λ j h. (ground (arith, h), refl)) x

shutdown-IsLogged : (s : System) → IsLogged s → IsLogged (after_shutdown s (shutdown s.workers))
shutdown-IsLogged s x = elim (shutdown-cases s.workers) [
  | inl twice ↦ rw twice x
  | inr first ↦ rw first (kept-IsLogged s _ refl refl (λ j h. (h, refl)) x)
]

pub step-IsLogged : (a : Action) (s : System) → IsExclusive s → IsLogged s → IsLogged (step a s)
unfolding step shutdown
step-IsLogged (begins k fields) s y x = begin-IsLogged k fields s y x
step-IsLogged (writes ok k) s y x = write-IsLogged ok k s y x
step-IsLogged (submits k) s y x = hand_over-IsLogged k s y x
step-IsLogged receives s y x = receive-IsLogged s x
step-IsLogged (finishes k) s y x = finish-IsLogged k s y x
step-IsLogged leaves s y x = leave-IsLogged s x
step-IsLogged shuts_down s y x = shutdown-IsLogged s x
step-IsLogged (collects k) s y x = collect-IsLogged k s x

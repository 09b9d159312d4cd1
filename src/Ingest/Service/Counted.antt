-- ===== src/Ingest/Service/Counted.antt =====
-- How many events and workers there are: every event that was accepted is counted in one place.
use go_core_x.Prelude.{
  ℕ, zero, suc, ◌+◌, ◌≤◌, ◌<◌, ◌≡◌, refl, ap, arith, Bool, true, ◌&&◌, Option-cases, Bool-cases,
  inl, inr, some, List, [], ◌∷◌, length, length-append, ltb,
}
use go_core_x.Ingest.EventPool.{pick}
use go_core_x.Ingest.WorkerPool.{
  receive-cases, shutdown-cases, WorkerPool, submit, receive, finish, leave, shutdown,
}
use go_core_x.Ingest.Service.{
  System, begin, write, hand_over, released, Action, begins, writes, submits, receives, finishes,
  leaves, shuts_down, after_shutdown, collects, step,
}

pub length-pick :
    (k : ℕ) (xs : List ℕ) {x : ℕ} {rest : List ℕ}
    → pick k xs ≡ some (x, rest)
    → length xs ≡ suc (length rest)
unfolding pick
length-pick k [] h = cc
length-pick zero (y ∷ xs) h = ground (arith, h)
length-pick (suc k) (y ∷ xs) {x} {rest} h = elim (Option-cases (pick k xs)) [
  | inl q ↦ cc (rw q at h)
  | inr ((z, zs), q) ↦ ground (arith, h, q, length-pick k xs {x = z} {rest = zs} q)
]

pub record IsCounted (num size : ℕ) (w : WorkerPool) (accepted : ℕ) : Type 0 where
  pub events : accepted ≡ w.processed_count + length w.job_ch + length w.working
  pub calls : w.processed_count ≡ length w.processed
  pub workers : w.idle_workers + length w.working + w.returned ≡ num
  pub room : length w.job_ch ≤ w.capacity
  pub capacity : w.capacity ≡ size
  pub ended : 0 < w.returned → (w.closed ≡ true) × (length w.job_ch ≡ 0)

module _ (num size : ℕ) where
  abbrev pub IsTally : System → Type 0
  IsTally s = IsCounted num size s.workers s.accepted_count

  write-IsTally : (ok : Bool) (k : ℕ) (s : System) → IsTally s → IsTally (write ok k s)
  unfolding write
  write-IsTally ok k s x = elim (Option-cases (pick k s.unwritten)) [
    | inl q ↦ rw (write, q) x
    | inr (e, q) ↦ elim (Bool-cases ok) [
      | inl good ↦ rw (write, q, good) x
      | inr bad ↦ rw (write, q, bad) x
    ]
  ]

  hand_over-IsTally : (k : ℕ) (s : System) → IsTally s → IsTally (hand_over k s)
  unfolding hand_over submit
  hand_over-IsTally k s x = elim (Option-cases (pick k s.unsubmitted)) [
    | inl q ↦ rw (hand_over, q) x
    | inr ((e, rest), q) ↦ elim (Bool-cases s.workers.closed) [
      | inl shut ↦ simp (hand_over, q, submit, shut) x
      | inr open_ ↦ elim (Bool-cases (ltb (length s.workers.job_ch) s.workers.capacity)) [
        | inl room ↦
            let more = length-append s.workers.job_ch (e ∷ []) in
            rw (hand_over, q, submit, open_, room)
              (record {
                events = omega (arith, x.events, more);
                calls = x.calls;
                workers = x.workers;
                room = ground (arith, more, room);
                capacity = x.capacity;
                ended = λ h. absurd (cc ((x.ended h).0, open_));
              })
        | inr crowded ↦ simp (hand_over, q, submit, open_, crowded) x
      ]
    ]
  ]

  receive-IsTally : (s : System) → IsTally s → IsTally (record s { workers = receive s.workers })
  receive-IsTally s x = elim (receive-cases s.workers) [
    | inl (q, _) ↦ rw q x
    | inr (e, rest, jobs, some_waiting, q) ↦
        let shorter : length s.workers.job_ch ≡ suc (length rest) = ap length jobs in
        rw q (record {
          events = omega (arith, x.events, shorter);
          calls = x.calls;
          workers = omega (arith, x.workers, some_waiting);
          room = omega (arith, x.room, shorter);
          capacity = x.capacity;
          ended = λ h. absurd (omega (arith, x.ended h, shorter));
        })
  ]

  finish-IsTally :
      (k : ℕ) (s : System) → IsTally s → IsTally (released s (finish k s.pool.heap s.workers))
  unfolding finish
  finish-IsTally k s x = elim (Option-cases (pick k s.workers.working)) [
    | inl q ↦ rw (finish, q) x
    | inr ((e, rest), q) ↦
        let shorter = length-pick k s.workers.working {x = e} {rest = rest} q in
        rw (finish, q)
          (record {
            events = omega (arith, x.events, shorter);
            calls = omega (arith, x.calls);
            workers = omega (arith, x.workers, shorter);
            room = x.room;
            capacity = x.capacity;
            ended = x.ended;
          })
  ]

  leave-IsTally : (s : System) → IsTally s → IsTally (record s { workers = leave s.workers })
  unfolding leave
  leave-IsTally s x =
      elim (Bool-cases
        (s.workers.closed && ltb (length s.workers.job_ch) 1 && ltb 0 s.workers.idle_workers)) [
          | inl out ↦
              rw (leave, out)
                (record {
                  events = x.events;
                  calls = x.calls;
                  workers = ground (arith, x.workers, out);
                  room = x.room;
                  capacity = x.capacity;
                  ended = λ h. ground (arith, out);
                })
          | inr stay ↦ rw (leave, stay) x
        ]

  shutdown-IsTally : (s : System) → IsTally s → IsTally (after_shutdown s (shutdown s.workers))
  shutdown-IsTally s x = elim (shutdown-cases s.workers) [
    | inl twice ↦ rw twice x
    | inr first ↦ rw first (record {
      events = x.events;
      calls = x.calls;
      workers = x.workers;
      room = x.room;
      capacity = x.capacity;
      ended = λ h. (refl, (x.ended h).1);
    })
  ]

  pub step-IsTally : (a : Action) (s : System) → IsTally s → IsTally (step a s)
  unfolding step begin
  step-IsTally (begins k fields) s x = x
  step-IsTally (writes ok k) s x = write-IsTally ok k s x
  step-IsTally (submits k) s x = hand_over-IsTally k s x
  step-IsTally receives s x = receive-IsTally s x
  step-IsTally (finishes k) s x = finish-IsTally k s x
  step-IsTally leaves s x = leave-IsTally s x
  step-IsTally shuts_down s x = shutdown-IsTally s x
  step-IsTally (collects k) s x = x

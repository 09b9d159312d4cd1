-- ===== src/Ingest/Service/Drains.antt =====
-- The end of the workers: `Shutdown` returns once the accepted events are processed.
use native.Mathlib.Decide.{dec_lt}
use go_core_x.Prelude.{
  ℕ, zero, suc, ◌+◌, ◌*◌, ◌≤◌, ◌<◌, ◌≡◌, refl, ap, ◌∙◌, arith, true, ◌&&◌, Option-cases, Bool-cases,
  inl, inr, ◌⊎◌, some, List, [], ◌∷◌, length, ltb,
}
use go_core_x.Ingest.EventPool.{pick}
use go_core_x.Ingest.WorkerPool.{receive-cases, finish, leave}
use go_core_x.Ingest.Service.{System, new_system, Action, receives, finishes, leaves, step, run}
use go_core_x.Ingest.Service.Counted.{IsTally, length-pick, step-IsTally}
use go_core_x.Ingest.Service.Sound.{run-IsSound}

-- What a worker can do.
pub data IsWork : Action → Type 0 where
  receiving : IsWork receives
  finishing : (k : ℕ) → IsWork (finishes k)
  leaving : IsWork leaves

abbrev pub AreWork : List Action → Type 0
AreWork [] = Unit {0}
AreWork (a ∷ actions) = IsWork a × AreWork actions

-- What the workers have left to do.
abbrev pub work_left : System → ℕ
work_left s = 3 * length s.workers.job_ch + 2 * length s.workers.working + s.workers.idle_workers

-- A step of a worker does nothing, or leaves less to do; it does not open the channel again, nor accept an event.
record IsProgress (s s' : System) : Type 0 where
  less : (s' ≡ s) ⊎ (work_left s' < work_left s)
  closed : s'.workers.closed ≡ s.workers.closed
  accepted : s'.accepted_count ≡ s.accepted_count

receive-IsProgress : (s : System) → IsProgress s (step receives s)
unfolding step
receive-IsProgress s = elim (receive-cases s.workers) [
  | inl (q, _) ↦ rw q (record { less = inl refl; closed = refl; accepted = refl })
  | inr (e, rest, jobs, some_waiting, q) ↦
      let shorter : length s.workers.job_ch ≡ suc (length rest) = ap length jobs in
      rw q (record {
        less = inr (omega (arith, shorter, some_waiting));
        closed = refl;
        accepted = refl;
      })
]

finish-IsProgress : (k : ℕ) (s : System) → IsProgress s (step (finishes k) s)
unfolding step finish
finish-IsProgress k s = elim (Option-cases (pick k s.workers.working)) [
  | inl q ↦ rw (finish, q) (record { less = inl refl; closed = refl; accepted = refl })
  | inr ((e, rest), q) ↦
      let shorter = length-pick k s.workers.working {x = e} {rest = rest} q in
      rw (finish, q)
        (record { less = inr (omega (arith, shorter)); closed = refl; accepted = refl })
]

leave-IsProgress : (s : System) → IsProgress s (step leaves s)
unfolding step leave
leave-IsProgress s =
    elim (Bool-cases
      (s.workers.closed && ltb (length s.workers.job_ch) 1 && ltb 0 s.workers.idle_workers)) [
        | inl out ↦
            rw (leave, out)
              (record { less = inr (ground (arith, out)); closed = refl; accepted = refl })
        | inr stay ↦ rw (leave, stay) (record { less = inl refl; closed = refl; accepted = refl })
      ]

work-IsProgress : (a : Action) (s : System) → IsWork a → IsProgress s (step a s)
work-IsProgress receives s w = receive-IsProgress s
work-IsProgress (finishes k) s w = finish-IsProgress k s
work-IsProgress leaves s w = leave-IsProgress s
work-IsProgress _ s w = elim w [ ]

list_cases : (xs : List ℕ) → (xs ≡ []) ⊎ (x : ℕ) × (rest : List ℕ) × (xs ≡ x ∷ rest)
list_cases [] = inl refl
list_cases (x ∷ xs) = inr (x, xs, refl)

finish_first :
    (s : System) (e : ℕ) (rest : List ℕ)
    → s.workers.working ≡ e ∷ rest
    → work_left (step (finishes 0) s) < work_left s
unfolding step finish pick
finish_first s e rest q =
    let found : pick 0 s.workers.working ≡ some (e, rest) = ap (pick 0) q in
    let shorter : length s.workers.working ≡ suc (length rest) = ap length q in
    rw (finish, found) (omega (arith, shorter))

leave_first :
    (s : System)
    → s.workers.closed ≡ true
    → length s.workers.job_ch ≡ 0
    → 0 < s.workers.idle_workers
    → work_left (step leaves s) < work_left s
unfolding step leave
leave_first s shut none_left some_waiting =
    let out : (s.workers.closed && ltb (length s.workers.job_ch) 1 && ltb 0 s.workers.idle_workers)
        ≡ true =
      ground (arith, shut, none_left, some_waiting) in
    rw (leave, out) (omega (arith, some_waiting))

-- As long as something is left to do, some worker can do it.
some_step :
    (num size : ℕ) (s : System)
    → IsTally num size s
    → 0 < num
    → s.workers.closed ≡ true
    → 0 < work_left s
    → (a : Action) × IsWork a × (work_left (step a s) < work_left s)
unfolding step
some_step num size s x some_workers shut some_left = elim (receive-cases s.workers) [
  | inr (e, rest, jobs, some_waiting, q) ↦
      let shorter : length s.workers.job_ch ≡ suc (length rest) = ap length jobs in
      (receives, receiving, rw q (omega (arith, shorter, some_waiting)))
  | inl (_, stuck) ↦ elim (list_cases s.workers.working) [
    | inr (e, rest, q) ↦ (finishes 0, finishing 0, finish_first s e rest q)
    | inl idle ↦
        let no_work : length s.workers.working ≡ 0 = ap length idle in
        elim stuck [
          | inl jobs ↦
              let none_left : length s.workers.job_ch ≡ 0 = ap length jobs in
              (
                leaves,
                leaving,
                leave_first s shut none_left (omega (arith, none_left, no_work, some_left)),
              )
          | inr none_waiting ↦ absurd (
              omega (
                arith,
                none_waiting,
                no_work,
                some_left,
                x.workers,
                some_workers,
                x.ended (omega (arith, none_waiting, no_work, x.workers, some_workers)),
              ))
        ]
  ]
]

-- A pool that is shut down: every accepted event is processed, and every worker has returned.
pub record IsShutDown (num : ℕ) (s : System) : Type 0 where
  pub processed : s.workers.processed_count ≡ s.accepted_count
  pub all_returned : s.workers.returned ≡ num

nothing_left : (num size : ℕ) (s : System) → IsTally num size s → work_left s ≡ 0 → IsShutDown num s
nothing_left num size s x none_left = record {
  processed = omega (arith, x.events, none_left);
  all_returned = omega (arith, x.workers, none_left);
}

drains :
    (num size n : ℕ) (s : System)
    → IsTally num size s
    → 0 < num
    → s.workers.closed ≡ true
    → work_left s ≤ n
    → (actions : List Action) × AreWork actions
      × (length actions ≤ n)
      × IsShutDown num (run actions s)
      × ((run actions s).accepted_count ≡ s.accepted_count)
unfolding run
drains num size zero s x some_workers shut le =
    ([], tt, omega arith, nothing_left num size s x (omega arith), refl)
drains num size (suc n) s x some_workers shut le = elim (dec_lt 0 (work_left s)) [
  | no none_left ↦ ([], tt, omega arith, nothing_left num size s x (omega arith), refl)
  | yes some_left ↦
      let (a, w, lt) = some_step num size s x some_workers shut some_left in
      let p = work-IsProgress a s w in
      let (rest, ws, short, down, same) =
        drains num size n (step a s) (step-IsTally num size a s x) some_workers (p.closed ∙ shut)
          (omega (arith, lt, le)) in
      (a ∷ rest, (w, ws), omega (arith, short), down, same ∙ p.accepted)
]

-- Once the channel is closed, after any interleaving of a service with at least one worker, each step of a worker
-- either does nothing or leaves less to do, so the workers come to an end in any order; and they can: some steps of
-- theirs, no more than there is to do, process every event that was accepted, and then all workers have returned,
-- which is what `Shutdown` waits for.
pub shuts_down-IsShutDown :
    (num size : ℕ) (actions : List Action)
    → 0 < num
    → let s = run actions (new_system num size) in
      s.workers.closed ≡ true
      → ((a : Action) → IsWork a → (step a s ≡ s) ⊎ (work_left (step a s) < work_left s))
        × (more : List Action) × AreWork more
        × (length more ≤ work_left s)
        × IsShutDown num (run more s)
        × ((run more s).accepted_count ≡ s.accepted_count)
shuts_down-IsShutDown num size actions some_workers shut =
    let s = run actions (new_system num size) in
    let x = (run-IsSound num size actions).counted in
    let (more, work, short, down, same) =
      drains num size (work_left s) s x some_workers shut (omega arith) in
    (λ a w. (work-IsProgress a s w).less, more, work, short, down, same)

-- ===== src/Ingest/WorkerPool.antt =====
-- internal/infrastructure/executor/worker_pool.go: the channel of jobs, which has room for at least
-- one, and the workers. A worker waits for a job, has one in work, or has returned.
use go_core_x.Prelude.{
  ◌≡◌, refl, ap, ◌∙◌, ◌<◌, arith, inl, inr, ◌⊎◌, Bool-cases, ℕ, suc, ◌-◌, Bool, true, false, ◌&&◌,
  Option, none, some, List, [], ◌∷◌, ◌++◌, ltb, length, if◌then◌else◌,
}
use go_core_x.Ingest.EventPool.{pick}
use go_core_x.Storage.Events.{Event}

pub record WorkerPool : Type 0 where
  pub job_ch : List ℕ
  pub capacity : ℕ
  pub closed : Bool
  pub idle_workers : ℕ
  pub working : List ℕ
  pub returned : ℕ
  pub processed_count : ℕ
  -- What `Process` was called on.
  pub processed : List Event

abbrev pub new_worker_pool : ℕ → ℕ → WorkerPool
new_worker_pool num_workers job_buffer_size = record {
  job_ch = [];
  capacity = job_buffer_size;
  closed = false;
  idle_workers = num_workers;
  working = [];
  returned = 0;
  processed_count = 0;
  processed = [];
}

-- A send on a closed channel panics, also in a select.
pub data Submitted : Type 0 where
  accepted full panics : Submitted

-- `Submit`
unfoldable pub submit : ℕ → WorkerPool → WorkerPool × Submitted
submit e w =
    if w.closed
    then (w, panics)
    else if ltb (length w.job_ch) w.capacity
    then (record w { job_ch = w.job_ch ++ e ∷ [] }, accepted)
    else (w, full)

-- `Shutdown` closes the channel, and waits until every worker has returned. `none` is the panic of
-- closing it twice.
unfoldable pub shutdown : WorkerPool → Option WorkerPool
shutdown w = if w.closed then none else some (record w { closed = true })

-- A worker that has received a job.
abbrev pub with_job : ℕ → List ℕ → WorkerPool → WorkerPool
with_job e rest w = record w {
  job_ch = rest;
  idle_workers = w.idle_workers - 1;
  working = e ∷ w.working;
}

-- `work`: a waiting worker receives a job.
abbrev received : List ℕ → WorkerPool → WorkerPool
received [] w = w
received (e ∷ rest) w = if ltb 0 w.idle_workers then with_job e rest w else w

unfoldable pub receive : WorkerPool → WorkerPool
receive w = received w.job_ch w

-- `work`: a worker has processed its job, and waits again; the object that it is to release.
unfoldable pub finish : ℕ → (ℕ → Event) → WorkerPool → WorkerPool × Option ℕ
finish k heap w = elim (pick k w.working) [
  | none ↦ (w, none)
  | some (e, rest) ↦ (
    record w {
      working = rest;
      idle_workers = suc w.idle_workers;
      processed_count = suc w.processed_count;
      processed = heap e ∷ w.processed;
    },
    some e,
  )
]

-- `work`: the range over a closed and empty channel ends.
unfoldable pub leave : WorkerPool → WorkerPool
leave w =
    if w.closed && ltb (length w.job_ch) 1 && ltb 0 w.idle_workers
    then record w { idle_workers = w.idle_workers - 1; returned = suc w.returned }
    else w

list_cases : (xs : List ℕ) → (xs ≡ []) ⊎ (x : ℕ) × (rest : List ℕ) × (xs ≡ x ∷ rest)
list_cases [] = inl refl
list_cases (x ∷ xs) = inr (x, xs, refl)

pub receive-cases :
    (w : WorkerPool)
    → (receive w ≡ w) × ((w.job_ch ≡ []) ⊎ (w.idle_workers ≡ 0))
      ⊎ (e : ℕ) × (rest : List ℕ) × (w.job_ch ≡ e ∷ rest)
        × (0 < w.idle_workers)
        × (receive w ≡ with_job e rest w)
unfolding receive
receive-cases w = elim (list_cases w.job_ch) [
  | inl q ↦ inl (ap (λ l. received l w) q, inl q)
  | inr (e, rest, q) ↦ elim (Bool-cases (ltb 0 w.idle_workers)) [
    | inl some_waiting ↦
        inr (e, rest, q, ground arith, ap (λ l. received l w) q ∙ rw some_waiting refl)
    | inr none_waiting ↦ inl (ap (λ l. received l w) q ∙ rw none_waiting refl, inr (ground arith))
  ]
]

pub shutdown-cases :
    (w : WorkerPool) → (shutdown w ≡ none) ⊎ (shutdown w ≡ some (record w { closed = true }))
unfolding shutdown
shutdown-cases w = elim (Bool-cases w.closed) [
  | inl twice ↦ inl (ap (λ (c : Bool). if c then none else some (record w { closed = true })) twice)
  | inr first ↦ inr (ap (λ (c : Bool). if c then none else some (record w { closed = true })) first)
]

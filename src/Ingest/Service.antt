-- ===== src/Ingest/Service.antt =====
-- internal/application/ingestion/service.go: `Ingest` with a WAL writer, whose answer is given, and all that
-- can happen between the parts of many calls.
pub mod Exclusive
pub mod Logged
pub mod Counted
pub mod Sound
pub mod Drains
mod Tests
use go_core_x.Prelude.{
  ℕ, suc, ◌+◌, Bool, true, false, Option, none, some, List, [], ◌∷◌, if◌then◌else◌,
}
use go_core_x.Bytes.{Bytes}
use go_core_x.Storage.Events.{Event}
use go_core_x.Ingest.EventPool.{
  EventPool, new_event_pool, pick, set_fields, acquire, release, collect,
}
use go_core_x.Ingest.WorkerPool.{
  WorkerPool, new_worker_pool, Submitted, accepted, full, panics, submit, shutdown, receive, finish,
  leave,
}

-- The objects in the hands of calls that have yet to write them, and of calls that have yet to
-- submit them; the events that were written, the latest first; and how many were accepted.
pub record System : Type 0 where
  pub pool : EventPool
  pub workers : WorkerPool
  pub unwritten : List ℕ
  pub unsubmitted : List ℕ
  pub written : List Event
  pub accepted_count : ℕ

abbrev pub new_system : ℕ → ℕ → System
new_system num_workers job_buffer_size = record {
  pool = new_event_pool;
  workers = new_worker_pool num_workers job_buffer_size;
  unwritten = [];
  unsubmitted = [];
  written = [];
  accepted_count = 0;
}

-- `Ingest` up to the call of the WAL.
unfoldable pub begin : ℕ → Event → System → System
unfolding acquire set_fields
begin k fields s =
    let (e, p) = acquire k s.pool in
    record s { pool = set_fields e fields p; unwritten = e ∷ s.unwritten }

-- The answer of `WriteEvent` for one of the calls: after an error the object goes back.
unfoldable pub write : Bool → ℕ → System → System
unfolding pick release
write ok k s = elim (pick k s.unwritten) [
  | none ↦ s
  | some (e, rest) ↦
      if ok
      then record s {
        unwritten = rest;
        unsubmitted = e ∷ s.unsubmitted;
        written = s.pool.heap e ∷ s.written;
      }
      else record s { unwritten = rest; pool = release e s.pool }
]

-- After a panic the object is lost to the garbage collector.
abbrev pub submitted : ℕ → List ℕ → System → WorkerPool × Submitted → System
submitted e rest s (w, accepted) = record s {
  unsubmitted = rest;
  workers = w;
  accepted_count = suc s.accepted_count;
}
submitted e rest s (w, full) = record s { unsubmitted = rest; pool = release e s.pool }
submitted e rest s (w, panics) = record s { unsubmitted = rest }

-- One of the calls submits its object; where the channel is full the object goes back.
unfoldable pub hand_over : ℕ → System → System
unfolding pick submit
hand_over k s = elim (pick k s.unsubmitted) [
  | none ↦ s
  | some (e, rest) ↦ submitted e rest s (submit e s.workers)
]

abbrev pub released : System → WorkerPool × Option ℕ → System
released s (w, none) = s
released s (w, some e) = record s { workers = w; pool = release e s.pool }

-- A panic leaves everything as it is.
abbrev pub after_shutdown : System → Option WorkerPool → System
after_shutdown s none = s
after_shutdown s (some w) = record s { workers = w }

pub data Action : Type 0 where
  begins : ℕ → Event → Action
  writes : Bool → ℕ → Action
  submits finishes collects : ℕ → Action
  receives leaves shuts_down : Action

pub step : Action → System → System
unfolding begin write hand_over receive finish leave shutdown collect
step (begins k fields) s = begin k fields s
step (writes ok k) s = write ok k s
step (submits k) s = hand_over k s
step receives s = record s { workers = receive s.workers }
step (finishes k) s = released s (finish k s.pool.heap s.workers)
step leaves s = record s { workers = leave s.workers }
step shuts_down s = after_shutdown s (shutdown s.workers)
step (collects k) s = record s { pool = collect k s.pool }

-- Any interleaving.
pub run : List Action → System → System
unfolding step
run [] s = s
run (a ∷ actions) s = run actions (step a s)

-- ===== src/Ingest/Service/Sound.antt =====
-- What holds of every interleaving of calls of `Ingest` and steps of the workers.
use go_core_x.Prelude.{ℕ, refl, arith, List, [], ◌∷◌}
use go_core_x.Ingest.Service.{System, new_system, Action, step, run}
use go_core_x.Ingest.Service.Exclusive.{IsExclusive, step-IsExclusive}
use go_core_x.Ingest.Service.Logged.{IsLogged, step-IsLogged}
use go_core_x.Ingest.Service.Counted.{IsTally, step-IsTally}

pub record IsSound (num size : ℕ) (s : System) : Type 0 where
  pub exclusive : IsExclusive s
  pub logged : IsLogged s
  pub counted : IsTally num size s

step-IsSound :
    (num size : ℕ) (a : Action) (s : System) → IsSound num size s → IsSound num size (step a s)
step-IsSound num size a s x = record {
  exclusive = step-IsExclusive a s x.exclusive;
  logged = step-IsLogged a s x.exclusive x.logged;
  counted = step-IsTally num size a s x.counted;
}

pub run_keeps :
    (num size : ℕ) (actions : List Action) (s : System)
    → IsSound num size s
    → IsSound num size (run actions s)
unfolding run
run_keeps num size [] s x = x
run_keeps num size (a ∷ actions) s x =
    run_keeps num size actions (step a s) (step-IsSound num size a s x)

-- After any interleaving of calls of `Ingest`, of the workers' steps and of a shutdown, from a new service on: no
-- object is in two hands, and those in the pool are blank; whatever is on its way to a worker or was processed has
-- been written to the WAL before; every event that was accepted has been processed, waits in the channel or is in
-- work; the channel has no more than it has room for, and no worker is lost.
pub run-IsSound :
    (num size : ℕ) (actions : List Action) → IsSound num size (run actions (new_system num size))
run-IsSound num size actions = run_keeps num size actions (new_system num size) (record {
  exclusive = record { once = λ e. omega arith; known = λ e h. refl; blank = λ e h. refl };
  logged = record { flying = λ e h. absurd (omega (arith, h)); processed = λ v h. h };
  counted = record {
    events = refl;
    calls = refl;
    workers = omega arith;
    room = omega arith;
    capacity = refl;
    ended = λ h. absurd (omega (arith, h));
  };
})

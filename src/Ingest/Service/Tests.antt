-- ===== src/Ingest/Service/Tests.antt =====
-- Two calls of `Ingest`, of which the second meets a full channel, and a shutdown behind them.
use go_core_x.Prelude.{◌≡◌, ◌<◌, ◌≤◌, ◌⊎◌, refl, arith, true, List, [], ◌∷◌, length}
use go_core_x.Storage.Events.{Event}
use go_core_x.Ingest.Service.{
  new_system, Action, begins, writes, submits, receives, finishes, shuts_down, step, run,
}
use go_core_x.Ingest.Service.Sound.{IsSound, run-IsSound}
use go_core_x.Ingest.Service.Drains.{IsWork, AreWork, work_left, IsShutDown, shuts_down-IsShutDown}

abbrev hello : Event
hello = record { source = 97 ∷ []; payload = 1 ∷ []; received_at = 5 }

abbrev two_calls : List Action
two_calls =
    begins 0 hello
    ∷ begins 0 hello
    ∷ writes true 0
    ∷ submits 0
    ∷ writes true 0
    ∷ submits 0
    ∷ receives
    ∷ finishes 0
    ∷ begins 0 hello
    ∷ writes true 0
    ∷ submits 0
    ∷ shuts_down
    ∷ []

run-IsSound_example : IsSound 2 1 (run two_calls (new_system 2 1))
run-IsSound_example = run-IsSound 2 1 two_calls

shut : (run two_calls (new_system 2 1)).workers.closed ≡ true
unfolding run step
shut = refl

shuts_down-IsShutDown_example :
    let s = run two_calls (new_system 2 1) in
    ((a : Action) → IsWork a → (step a s ≡ s) ⊎ (work_left (step a s) < work_left s))
    × (more : List Action) × AreWork more
    × (length more ≤ work_left s)
    × IsShutDown 2 (run more s)
    × ((run more s).accepted_count ≡ s.accepted_count)
shuts_down-IsShutDown_example = shuts_down-IsShutDown 2 1 two_calls (omega arith) shut

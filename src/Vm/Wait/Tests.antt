-- ===== src/Vm/Wait/Tests.antt =====
-- The theorems about `wait_until_stopped` at concrete inputs.
use docker_vm_runner.Base.{true, false, ◌||◌, some, List, [], ◌∷◌, ◌≡◌}
use docker_vm_runner.Vm.Wait.{sigint, sigterm, Event, signal, poll, Answers, fresh, run}
use docker_vm_runner.Vm.Wait.Laws.{live, has_sigterm, presses, close_pair, shutdown_requested_iff}
use docker_vm_runner.Vm.Wait.Phases.{Moves, waiting, phase, run_refines_moves}

-- Two interrupts, four seconds apart, and a third one two seconds later; then the domain is gone.
abbrev events : List Event
events =
    signal sigint 1000
    ∷ poll (some true)
    ∷ signal sigint 5000
    ∷ signal sigint 7000
    ∷ poll (some false)
    ∷ signal sigterm 9000
    ∷ []

abbrev stubborn : Answers
stubborn = record { shutdown_ok = false; destroy_ok = true }

shutdown_requested_iff_example :
    (run stubborn fresh events).shutdown_requested
    ≡ (has_sigterm (live events) || close_pair (presses (live events)))
shutdown_requested_iff_example = shutdown_requested_iff stubborn events

run_refines_moves_example :
    Moves waiting (run stubborn fresh events).calls (phase (run stubborn fresh events))
run_refines_moves_example = run_refines_moves stubborn events

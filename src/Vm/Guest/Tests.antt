-- ===== src/Vm/Guest/Tests.antt =====
-- The theorem about the wait for the guest agent at a concrete input.
use docker_vm_runner.Base.{arith, refl, ◌≡◌, Bool, true, Text, text, pos, ok}
use docker_vm_runner.Effects.{capture}
use docker_vm_runner.Effects.Outcomes.{Answered}
use docker_vm_runner.Effects.Sample.{calm}
use docker_vm_runner.Effects.Polling.{IsOver}
use docker_vm_runner.Services.Tests.{calm-HasClock}
use docker_vm_runner.Vm.Lifecycle.Tests.{world}
use docker_vm_runner.Vm.Guest.{ping_command, wait_for_guest_agent}
use docker_vm_runner.Vm.Guest.Answers.{wait_for_guest_agent-Answers}

abbrev uri : Text
uri = text "qemu:///system"

-- After two pauses of three seconds.
calm-IsOver : IsOver calm 2 (capture (ping_command uri world.self)) 6000 3000 world.log
calm-IsOver = (0, 6000, refl, refl, omega arith)

wait_for_guest_agent-Answers_example :
    (there : Bool) × ((wait_for_guest_agent 3 uri 6000 3000 calm world).0 ≡ ok there)
    × (there ≡ true
        → (out : Text) × Answered calm
            (capture (ping_command uri world.self))
            (ok (pos 0, out))
            (wait_for_guest_agent 3 uri 6000 3000 calm world).1.log)
wait_for_guest_agent-Answers_example =
    wait_for_guest_agent-Answers 2 6000 3000 uri calm world calm-HasClock (λ log e. cc) calm-IsOver

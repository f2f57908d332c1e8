-- ===== src/Vm/Guest.antt =====
-- app/vm.py: `wait_for_guest_agent`.
pub mod Answers
pub mod Tests
use docker_vm_runner.Base.{
  ℕ, zero, suc, ◌+◌, ltb, Text, text, Bool, true, false, List, [], ◌∷◌, ℤ, pos, negsuc, Result, ok,
  err, Error, ◌≡◌, refl, sym, ap, ◌∙◌, subst, if◌then◌else◌,
}
use docker_vm_runner.Effects.{
  capture, now, sleep, Outside, World, Eff, pure, throw, ◌>>=◌, ◌>>◌, and_then, or_else, try_except,
  perform, get,
}
use docker_vm_runner.Effects.Outcomes.{Answered, latest, seq-eq-ok}
use docker_vm_runner.Effects.Polling.{poll_for}
use docker_vm_runner.Vm.Manager.{Manager}

-- `["virsh", "-c", LIBVIRT_URI, "qemu-agent-command", self.cfg.vm_name, '{"execute":"guest-ping"}']`
abbrev pub ping_command : Text → Manager → List Text
ping_command uri self =
    text "virsh"
    ∷ text "-c"
    ∷ uri
    ∷ text "qemu-agent-command"
    ∷ self.machine.cfg.vm_name
    ∷ text "{\"execute\":\"guest-ping\"}"
    ∷ []

-- `result.returncode == 0`
abbrev pub is_success : ℤ × Text → Bool
is_success (pos zero, out) = true
is_success _ = false

-- `except Exception: pass`
abbrev pub no_answer : {S : Type 0} → Error → Eff S Bool
no_answer Error.interrupted = throw Error.interrupted
no_answer x = pure false

-- An error of the call counts as no answer.
unfoldable pub ping : {S : Type 0} → List Text → Eff S Bool
ping command =
    try_except (perform (capture command) >>= λ result. pure (is_success result)) no_answer

unfoldable pub wait_for_guest_agent : ℕ → Text → ℕ → ℕ → Eff Manager Bool
wait_for_guest_agent rounds uri timeout interval = do
  self ← get
  poll_for rounds (ping (ping_command uri self)) timeout interval

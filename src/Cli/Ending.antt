-- ===== src/Cli/Ending.antt =====
-- However the session goes, it ends with the outcome of the phases, with everything undone.
use docker_vm_runner.Base.{
  ℕ, Text, Bool, true, false, ℤ, none, ◌≡◌, All, ◌⊎◌, Result, ok, err, Error,
}
use docker_vm_runner.Models.{VmConfig}
use docker_vm_runner.Effects.{write_text, close_libvirt, Done, Outside, World, Eff, ◌>>◌}
use docker_vm_runner.Effects.Outcomes.{Answered}
use docker_vm_runner.Effects.Calls.{AllCalled}
use docker_vm_runner.Services.{Services}
use docker_vm_runner.Services.Session.{stop}
use docker_vm_runner.Services.Session.Laws.{Asked, Ended}
use docker_vm_runner.Vm.Manager.{Manager, on_services}
use docker_vm_runner.Vm.Lifecycle.{close}
use docker_vm_runner.Vm.Lifecycle.Cleanup.{cleanup, marker}
use docker_vm_runner.Vm.Lifecycle.Duties.{duties}
use docker_vm_runner.Cli.Session.{Session, Phases, on_manager}
use docker_vm_runner.Cli.Closing.{EndsWell}

-- The services' part of the world.
abbrev pub services_of : World Session → World Services
services_of v = record { self = v.self.manager.services; log = v.log }

-- The connection is closed, the calls of the cleanup were made, the services are shut down, and, if
-- they were not before, every process had ended or was told to end, and ended in time or was killed.
abbrev pub Settled : Outside → Manager → World Session → Type 0
Settled o m v =
    (v.self.manager.conn ≡ none)
    × AllCalled (duties m) v.log
    × (v.self.manager.services.shutdown ≡ true)
    × (m.services.shutdown ≡ false
        → All (λ p. Asked p o (services_of v)) m.services.processes
          × All (λ p. Ended p o (services_of v)) m.services.processes)

-- The `finally` clause comes to its end, or one of the two calls in it fails that nothing guards.
pub data Ending {A : Type 0} (o : Outside) (m : Manager) (good : Result A)
    (r : Result A × World Session) : Type 0 where
  settled : r.0 ≡ good → Settled o m r.1 → Ending o m good r
  unmarked :
      (content : Text) (x : Error)
      → r.0 ≡ err x
      → Answered o (write_text (marker m) content) (err x) r.1.log
      → Ending o m good r
  unclosed :
      (conn : ℕ) (x : Error)
      → r.0 ≡ err x
      → Answered o (close_libvirt conn) (err x) r.1.log
      → AllCalled (duties m) r.1.log
      → Ending o m good r

-- The manager's part of the world.
abbrev inner : World Session → World Manager
inner v = record { self = v.self.manager; log = v.log }

HasServices : Services → Outside → World Manager → Type 0
HasServices s o w = w.self.services ≡ s

module _ (o : Outside) (h : EndsWell o) where
  close_part : Eff Session Done
  close_part = on_manager close >> on_manager (on_services stop)

  tail_part : Eff Session Done
  unfolding close_part
  tail_part = on_manager cleanup >> close_part

module _ (o : Outside) (h : EndsWell o) (phases : Phases) (stamp : ℕ → Text) (console : Bool)
    (cfg : VmConfig) where
  -- The marker is written, or not.
  MarkStep : World Session → Result Done × World Session → Type 0
  MarkStep v r =
      ((r.0 ≡ ok tt) × (r.1.self.manager ≡ v.self.manager))
      ⊎ ((content : Text) × (x : Error) × (r.0 ≡ err x)
          × Answered o (write_text (marker v.self.manager) content) (err x) r.1.log)

  -- What the phases come to: a code, or an interrupt.
  IsOutcome : Result ℤ → Type 0
  IsOutcome r = ((code : ℤ) × (r ≡ ok code)) ⊎ (r ≡ err Error.interrupted)

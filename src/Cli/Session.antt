-- ===== src/Cli/Session.antt =====
-- app/cli.py: the part of `main` between `connect` and the end. The phases that are not at issue
-- here are parameters, and may be any programs.
use docker_vm_runner.Base.{ℕ, Text, Error, Bool, true, not, ◌&&◌, ℤ, pos, if◌then◌else◌}
use docker_vm_runner.Models.{VmConfig}
use docker_vm_runner.Effects.{
  Done, Eff, pure, throw, ◌>>=◌, ◌>>◌, try_except, try_finally, get, modify, within,
}
use docker_vm_runner.Services.Session.{stop}
use docker_vm_runner.Vm.Manager.{Manager, on_services}
use docker_vm_runner.Vm.Lifecycle.{start, close}
use docker_vm_runner.Vm.Lifecycle.Cleanup.{cleanup, mark_installed}

-- The manager, and the variable `vm_started`.
pub record Session : Type 0 where
  pub manager : Manager
  pub vm_started : Bool

pub record Phases : Type 0 where
  pub prepare : Eff Manager Done
  pub wait_for_guest_ready : Eff Manager Done
  pub wait_until_stopped : Eff Manager Done
  pub run_console : Eff Manager ℤ

abbrev put_manager : Manager → Session → Session
put_manager manager self = record self { manager = manager }

unfoldable pub on_manager : {A : Type 0} → Eff Manager A → Eff Session A
on_manager run = within (λ self. self.manager) put_manager run

abbrev set_started : Session → Session
set_started self = record self { vm_started = true }

module _ (phases : Phases) (stamp : ℕ → Text) (console : Bool) (cfg : VmConfig) where
  unfoldable pub work : Eff Session ℤ
  work = do
    on_manager phases.prepare
    on_manager start
    modify set_started
    if not console && cfg.cloud_init_enabled
        then on_manager phases.wait_for_guest_ready
        else pure tt
    if not console
        then (on_manager phases.wait_until_stopped >> pure (pos 0))
        else on_manager phases.run_console

  -- Both `except` clauses end in `return 1`; an interrupt is caught by neither.
  abbrev pub code_one : Error → Eff Session ℤ
  code_one Error.interrupted = throw Error.interrupted
  code_one x = pure (pos 1)

  unfoldable pub guarded : Eff Session ℤ
  guarded = try_except work code_one

  unfoldable pub mark_if_started : Eff Session Done
  mark_if_started = do
    self ← get
    if self.vm_started && cfg.persist then on_manager (mark_installed stamp) else pure tt

  -- The `finally` clause.
  unfoldable pub finish : Eff Session Done
  finish = do mark_if_started; on_manager cleanup; on_manager close; on_manager (on_services stop)

  unfoldable pub session : Eff Session ℤ
  session = try_finally guarded finish

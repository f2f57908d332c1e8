-- ===== src/Cli.antt =====
-- app/cli.py: `main`, from the arguments to the exit code.
pub mod Session
pub mod Tests
pub mod Console
pub mod Passive
pub mod Preview
pub mod Launch
pub mod Ending
pub mod Closing
use docker_vm_runner.Base.{
  Text, text, starts_with, Bool, true, false, not, ◌&&◌, ◌||◌, Option, none, some, Result, ok, err,
  Error, ℤ, pos, if◌then◌else◌,
}
use docker_vm_runner.Models.{VmConfig}
use docker_vm_runner.Utils.Names.{is_url}
use docker_vm_runner.Effects.{
  show, exists, Done, Eff, pure, throw, ◌>>=◌, ◌>>◌, try_except, perform,
}
use docker_vm_runner.Runtime.{RuntimeInfo}
use docker_vm_runner.Vm.Machine.{Surroundings}
use docker_vm_runner.Vm.Manager.{from_result}
use docker_vm_runner.Cli.Session.{Phases}
use docker_vm_runner.Cli.Console.{console_requested}
use docker_vm_runner.Cli.Preview.{preview_xml}
use docker_vm_runner.Cli.Launch.{Setup, launch}

-- The arguments; `list_distros` is `none` where the option is not given.
pub record Arguments : Type 0 where
  pub no_console : Bool
  pub list_distros : Option Text
  pub show_config : Bool
  pub show_xml : Bool
  pub dry_run : Bool

-- Whether a local boot source is there, asked for the status and for the level of the line; an
-- address is not looked up.
abbrev check_boot_source : Option Text → Eff Done Done
check_boot_source none = pure tt
check_boot_source (some source) =
    if is_url source
    then pure tt
    else (perform (exists source) >> (perform (exists source) >> pure tt))

-- What `main` asks of the other modules before it starts anything: `parse_env`, `kvm_available`,
-- `detect_runtime`, and what the rendering of the domain reads of the host. They are parameters
-- here, and may be any programs.
pub record Readings : Type 0 where
  pub parse_env : Eff Done VmConfig
  pub kvm_available : Eff Done Bool
  pub detect_runtime : Eff Done RuntimeInfo
  pub surroundings : VmConfig → Eff Done Surroundings

-- Whether KVM is there decides the level of a line alone.
unfoldable pub dry_run : Readings → VmConfig → Eff Done ℤ
dry_run readings cfg = do
  runtime ← readings.detect_runtime
  perform (show (text "config"))
  kvm ← readings.kvm_available
  check_boot_source cfg.boot_from
  perform (show (text "checks"))
  pure (pos 0)

unfoldable pub show_xml : Readings → VmConfig → Eff Done ℤ
show_xml readings cfg = do
  kvm ← readings.kvm_available
  host ← readings.surroundings cfg
  xml ← from_result (preview_xml host kvm cfg)
  perform (show (text "xml"))
  pure (pos 0)

-- A `ManagerError` of `parse_env`; another exception is not caught.
abbrev no_config : Error → Eff Done (Option VmConfig)
no_config (Error.manager reason) = pure none
no_config x = throw x

module _ (readings : Readings) (phases : Phases) (setup : Setup) (has_tty : Bool) where
  -- With a configuration, the options are looked at in this order.
  unfoldable pub run_mode : Arguments → VmConfig → Eff Done ℤ
  run_mode args cfg =
      if args.show_config
      then (perform (show (text "config")) >> pure (pos 0))
      else if args.show_xml
      then show_xml readings cfg
      else if args.dry_run
      then dry_run readings cfg
      else launch phases setup (console_requested args.no_console setup.env has_tty) cfg

  abbrev with_config : Arguments → Option VmConfig → Eff Done ℤ
  with_config args (some cfg) = run_mode args cfg
  with_config args none = pure (pos 1)

  unfoldable pub list_or_run : Arguments → Option Text → Eff Done ℤ
  list_or_run args (some arch) = perform (show (text "distros")) >> pure (pos 0)
  list_or_run args none = do
    parsed ← try_except (readings.parse_env >>= λ cfg. pure (some cfg)) no_config
    with_config args parsed

  unfoldable pub main : Arguments → Eff Done ℤ
  main args = list_or_run args args.list_distros

-- ===== src/Cli/Tests.antt =====
-- The theorems about `main` at concrete inputs.
use docker_vm_runner.Base.{
  ℕ, Text, text, true, false, none, some, List, [], ◌∷◌, All, ◌≡◌, refl, ok, err, pos, Bool, ◌||◌,
  Result,
}
use docker_vm_runner.Models
use docker_vm_runner.Constants.Places.{default_places}
use docker_vm_runner.Config.Sample.{sample}
use docker_vm_runner.Vm.Machine.{Surroundings}
use docker_vm_runner.Effects.{Action, Done, Outside, exists, throw, pure, perform, World}
use docker_vm_runner.Effects.Keep.{Keeps, Keeps-pure, Keeps-throw}
use docker_vm_runner.Vm.Manager.{from_result}
use docker_vm_runner.Effects.Sample.{calm}
use docker_vm_runner.Vm.Lifecycle.Tests.{running}
use docker_vm_runner.Cli.{Arguments, Readings, main}
use docker_vm_runner.Cli.Launch.{Setup}
use docker_vm_runner.Cli.Session.{Session, Phases}
use docker_vm_runner.Cli.Ending.{Ending}
use docker_vm_runner.Cli.Passive.{IsAllowed, ReadsOnly, main-IsPassive}

-- A preparation that fails.
abbrev failing : Phases
failing = record {
  prepare = throw docker_vm_runner.Base.Error.other_error;
  wait_for_guest_ready = pure tt;
  wait_until_stopped = pure tt;
  run_console = pure (pos 0);
}

abbrev stamp : ℕ → Text
stamp t = text "2024-01-01T00:00:00Z"

abbrev begun : World Session
begun = record { self = record { manager = running; vm_started = false }; log = [] }

abbrev surroundings : Surroundings
surroundings = record {
  cpu_vendor = text "GenuineIntel";
  cpu_flags = text "vmx" ∷ [];
  filesystem_type = text "ext4";
  sector_size = λ path. none;
  has_ipv6 = false;
  has_render_node = false;
  random_mac = λ index. text "52:54:00:00:00:01";
}

abbrev setup : Setup
setup = record {
  env = [];
  places = default_places;
  uri = text "qemu:///system";
  runtime = record { engine = text "docker"; rootless = false; privileged = true };
  kvm_available = true;
  stamp = stamp;
  rounds = 151;
}

abbrev dry : Arguments
dry = record {
  no_console = false;
  list_distros = none;
  show_config = false;
  show_xml = false;
  dry_run = true;
}

-- The configuration of the sample, on a host with KVM.
abbrev readings : Readings
readings = record {
  parse_env = from_result sample.0;
  kvm_available = perform (exists (text "/dev/kvm"));
  detect_runtime = pure (record { engine = text "docker"; rootless = false; privileged = true });
  surroundings = λ cfg. pure surroundings;
}

abbrev LooksForKvm : Action → Type 0
LooksForKvm a = a ≡ exists (text "/dev/kvm")

abbrev AreLooks : Outside → World Done → Type 0
AreLooks o w = All (IsAllowed LooksForKvm) w.log

parse-Quiet : (r : Result docker_vm_runner.Models.VmConfig) → Keeps AreLooks (from_result r)
parse-Quiet (ok cfg) = Keeps-pure AreLooks cfg
parse-Quiet (err x) = Keeps-throw AreLooks _ x

kvm-Quiet : Keeps AreLooks (perform (exists (text "/dev/kvm")))
unfolding Keeps perform
kvm-Quiet o w h = (IsAllowed.read refl, h)

readings-ReadsOnly : ReadsOnly LooksForKvm readings
readings-ReadsOnly = record {
  parsing = parse-Quiet sample.0;
  kvm = kvm-Quiet;
  runtime = Keeps-pure AreLooks _;
  host = λ cfg. Keeps-pure AreLooks surroundings;
}

main-IsPassive_example :
    All
      (IsAllowed LooksForKvm)
      (main readings failing setup true dry calm (record { self = tt; log = [] })).1.log
main-IsPassive_example =
    main-IsPassive LooksForKvm readings readings-ReadsOnly failing setup true dry calm refl

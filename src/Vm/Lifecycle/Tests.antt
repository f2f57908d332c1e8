-- ===== src/Vm/Lifecycle/Tests.antt =====
-- The theorems about the start and the end of the machine at concrete inputs.
use docker_vm_runner.Base.{ℕ, text, true, false, none, some, [], ◌≡◌, refl, ok, ◌⊎◌}
use docker_vm_runner.Constants.{x86_64_profile}
use docker_vm_runner.Config.Sample.{config}
use docker_vm_runner.Effects.{is_active, create, World, ◌>>=◌, ◌>>◌, pure, get, perform}
use docker_vm_runner.Effects.Outcomes.{Answered}
use docker_vm_runner.Effects.Calls.{AllCalled}
use docker_vm_runner.Effects.Sample.{calm}
use docker_vm_runner.Services.Tests.{two_started}
use docker_vm_runner.Vm.Manager.{Manager}
use docker_vm_runner.Vm.Lifecycle.{start, ensure_running, novnc_if_enabled}
use docker_vm_runner.Vm.Lifecycle.Cleanup.{cleanup}
use docker_vm_runner.Vm.Lifecycle.Laws.{IsDocumented, cleanup_returns}
use docker_vm_runner.Vm.Lifecycle.Duties.{duties, cleanup-duties}
use docker_vm_runner.Vm.Lifecycle.Running.{start_runs}

abbrev pub running : Manager
running = record {
  machine = record {
    cfg = record config { novnc_enabled = false; persist = true };
    kvm_available = true;
    effective_cpu_model = text "host";
    arch_profile = x86_64_profile;
    firmware_loader_path = none;
    firmware_vars_path = some (text "/vars.fd");
    vm_dir = text "/images/vms/vm";
    work_image = text "/images/vms/vm/disk.qcow2";
    boot_iso = none;
    seed_iso = none;
    ipxe_rom_path = none;
    network_macs = [];
  };
  services = two_started.self;
  base_image = text "/images/base/vm.qcow2";
  disk_reused = false;
  conn = some 1;
  domain = some 2;
  tpm_process = some 7;
}

abbrev pub world : World Manager
world = record { self = running; log = [] }

pub calm-IsDocumented : IsDocumented calm
calm-IsDocumented = record {
  active = λ d log. tt;
  destroyed = λ d log. tt;
  undefined = λ d log. tt;
  undefined_nvram = λ d log. tt;
  terminated = λ p log. tt;
  waited = λ p log. tt;
  killed = λ p log. tt;
  listed = λ log. tt;
  signalled = λ pid log. tt;
  tested = λ path log. tt;
  removed = λ path log. tt;
}

cleanup-duties_example : AllCalled (duties running) (cleanup calm world).1.log
cleanup-duties_example = cleanup-duties calm world (cleanup_returns calm calm-IsDocumented world)

starts : (start calm world).0 ≡ ok tt
unfolding start ensure_running novnc_if_enabled ◌>>=◌ ◌>>◌ pure get perform
starts = refl

start_runs_example :
    (d : ℕ) × (Answered calm (is_active d) (ok true) (start calm world).1.log
      ⊎ Answered calm (create d) (ok tt) (start calm world).1.log)
start_runs_example = start_runs calm world starts

-- ===== src/Cli/Launch.antt =====
-- app/services.py and app/vm.py: the constructors, and how `main` of app/cli.py brings the parts
-- up before the session.
use docker_vm_runner.Base.{
  ℕ, ◌∷◌, Text, text, ◌++◌, lookup, text_eq, Bool, false, not, Option, none, some, [], ℤ, Result,
  ok, err, Error, if◌then◌else◌, is_empty, ◌&&◌,
}
use docker_vm_runner.Base.Dict.{Dict}
use docker_vm_runner.Constants.{ArchProfile, supported_arches}
use docker_vm_runner.Constants.Places.{Places, ◌/◌}
use docker_vm_runner.Models.{VmConfig}
use docker_vm_runner.Runtime.{RuntimeInfo}
use docker_vm_runner.Effects.{
  World, exists, remove_tree, Done, Eff, pure, throw, ◌>>=◌, ◌>>◌, try_except, perform,
}
use docker_vm_runner.Services.{Services, ensure_directory}
use docker_vm_runner.Services.Libvirt.{ignore_os_error}
use docker_vm_runner.Services.Session
use docker_vm_runner.Vm.Machine.{Machine}
use docker_vm_runner.Vm.Manager.{Manager}
use docker_vm_runner.Vm.Lifecycle.{connect}
use docker_vm_runner.Cli.Session.{Phases, session}

-- What the program reads of its surroundings before it starts, and the bound on the rounds of the
-- waits for a socket.
pub record Setup : Type 0 where
  pub env : Dict Text
  pub places : Places
  pub uri : Text
  pub runtime : RuntimeInfo
  pub kvm_available : Bool
  pub stamp : ℕ → Text
  pub rounds : ℕ

abbrev or_default : Option Text → Text → Text
or_default none default = default
or_default (some raw) default = raw

-- `ServiceManager.__init__`
unfoldable pub new_services : {S : Type 0} → Setup → VmConfig → Eff S Services
new_services setup cfg = do
  ensure_directory (setup.places.state_dir / text "certs")
  ensure_directory (setup.places.state_dir / text "sushy")
  pure (record {
    vm_config = cfg;
    processes = [];
    shutdown = false;
    cert_dir = setup.places.state_dir / text "certs";
    config_dir = setup.places.state_dir / text "sushy";
    novnc_started = false;
    storage_pool_name =
        or_default (lookup (text "REDFISH_STORAGE_POOL") setup.env) (text "default");
    storage_pool_path =
        or_default (lookup (text "REDFISH_STORAGE_PATH") setup.env)
          (text "/var/lib/libvirt/images");
    runtime = setup.runtime;
  })

-- The directory of the machine: kept, or made anew.
unfoldable pub prepare_directory : {S : Type 0} → Bool → Text → Eff S Done
prepare_directory persist dir = if persist then ensure_directory dir else (do
  there ← perform (exists dir)
  if there then try_except (perform (remove_tree dir)) ignore_os_error else pure tt
  ensure_directory dir)

abbrev rom_path : VmConfig → Option Text → Option Text
rom_path cfg none = none
rom_path cfg (some path) = if cfg.ipxe_enabled && not (is_empty path) then some path else none

abbrev machine_of : Setup → VmConfig → ArchProfile → Machine
machine_of setup cfg profile =
    let dir = setup.places.vm_images_dir / cfg.vm_name in
    record {
      cfg = cfg;
      kvm_available = setup.kvm_available;
      effective_cpu_model = cfg.cpu_model;
      arch_profile = profile;
      firmware_loader_path = none;
      firmware_vars_path = none;
      vm_dir = dir;
      work_image = dir / (text "disk." ++ cfg.image_format);
      boot_iso = none;
      seed_iso = (if cfg.cloud_init_enabled then some (dir / text "seed.iso") else none);
      ipxe_rom_path = rom_path cfg cfg.ipxe_rom_path;
      network_macs = [];
    }

-- `SUPPORTED_ARCHES[arch]`
abbrev profile_of : {S : Type 0} → Text → Option ArchProfile → Eff S ArchProfile
profile_of arch none = throw (Error.key_error arch)
profile_of arch (some profile) = pure profile

-- `VMManager.__init__`
unfoldable pub new_machine : {S : Type 0} → Setup → VmConfig → Eff S Machine
new_machine setup cfg = do
  profile ← profile_of cfg.arch (lookup cfg.arch supported_arches)
  ensure_directory setup.places.images_dir
  ensure_directory setup.places.base_images_dir
  ensure_directory setup.places.vm_images_dir
  prepare_directory cfg.persist (setup.places.vm_images_dir / cfg.vm_name)
  pure (machine_of setup cfg profile)

-- Runs the methods of an object that was just made; gives the object back as they leave it.
abbrev with_state : {S T A : Type 0} → Result A × World T → World S → Result (A × T) × World S
with_state (ok a, v) w = (ok (a, v.self), record w { log = v.log })
with_state (err x, v) w = (err x, record w { log = v.log })

unfoldable pub on_new : {S T A : Type 0} → T → Eff T A → Eff S (A × T)
on_new self run o w = with_state (run o (record { self = self; log = w.log })) w

abbrev new_manager : Setup → Machine → Services → Manager
new_manager setup machine services = record {
  machine = machine;
  services = services;
  base_image =
      setup.places.base_images_dir / (machine.cfg.distro ++ (b'.' ∷ machine.cfg.image_format));
  disk_reused = false;
  conn = none;
  domain = none;
  tpm_process = none;
}

-- From the configuration to the exit code.
unfoldable pub launch : Phases → Setup → Bool → VmConfig → Eff Done ℤ
launch phases setup console cfg = do
  services ← new_services setup cfg
  ensure_directory setup.places.state_dir
  started ← on_new services (docker_vm_runner.Services.Session.start setup.rounds setup.uri)
  machine ← new_machine setup cfg
  connected ← on_new (new_manager setup machine started.1) (connect setup.uri)
  ended ←
      on_new (record { manager = connected.1; vm_started = false })
        (session phases setup.stamp console cfg)
  pure ended.0

-- ===== src/Config/Parse.antt =====
-- app/config.py: `load_distro_config`, and `parse_env` as a whole.
pub mod Laws
use docker_vm_runner.Base.{
  ℕ, Text, text, strip, length, Bool, true, false, Option, none, some, List, [], ◌∷◌, ◌==◌, ◌||◌,
  text_eq, if◌then◌else◌, lookup, Result, ok, err, raise, or_raise, guard, Reason, Error, ◌>>=◌,
  ◌>>◌,
}
use docker_vm_runner.Base.Dict.{Dict}
use docker_vm_runner.Models.{PortForward, NicConfig, FilesystemConfig, VmConfig}
use docker_vm_runner.Host.{FileSystem, Host, Distro}
use docker_vm_runner.Utils.Env.{Env, get_env, get_env_or, get_env_bool, parse_int_env}
use docker_vm_runner.Utils.Names.{derive_vm_name}
use docker_vm_runner.Config.Resources.{parse_memory, parse_cpus, parse_disk_size}
use docker_vm_runner.Config.Choices.{
  env_text, parse_boot_mode, parse_disk_controller, parse_disk_io, parse_disk_cache, parse_gpu,
  parse_tpm, parse_machine, Graphics, parse_graphics, check_graphics,
}
use docker_vm_runner.Config.Boot.{BootSource, parse_boot, parse_user_data}
use docker_vm_runner.Config.Arch.{parse_arch}
use docker_vm_runner.Config.Nics.{build_nics}
use docker_vm_runner.Config.Filesystems.{build_shares}
use docker_vm_runner.Config.Ipxe.{NetworkBoot, rom_override, apply_ipxe}
use docker_vm_runner.Config.Ports.{Services, parse_port_forwards, active_ports, check_ports}
use docker_vm_runner.Config.Disks.{parse_extra_disks, parse_block_devices}

unfoldable pub load_distro_config : Host → Text → Result Distro
load_distro_config host distro = do
  distros ← or_raise host.distributions Reason.config_missing
  or_raise (lookup distro distros) (Reason.unknown_distro distro)

-- `distro_info[key]`
abbrev item : Option Text → Text → Result Text
item none key = err (Error.key_error key)
item (some value) key = ok value

-- `get(key, default)`
abbrev item_or : Option Text → Text → Text
item_or none default = default
item_or (some value) default = value

-- A variable for a port.
unfoldable pub parse_port : Env → Text → Text → Result ℕ
parse_port env name default = parse_int_env env name default 1 (some 65535)

-- What is read before the shares.
pub record Early : Type 0 where
  pub distro : Text
  pub info : Distro
  pub memory_mb : ℕ
  pub cpus : ℕ
  pub disk_size : Text
  pub graphics : Graphics
  pub vnc_port : ℕ
  pub novnc_port : ℕ
  pub boot : BootSource
  pub user_data : Option Text
  pub arch : Text
  pub ssh_port : ℕ
  pub vm_name : Text
  pub primary : NicConfig
  pub others : List NicConfig

module _ (F : FileSystem) (host : Host) (env : Env) where
  unfoldable pub parse_early : F.State → Result Early
  parse_early s = do
    let distro = get_env_or env (text "DISTRO") (text "ubuntu-2404")
    info ← load_distro_config host distro
    memory_mb ← parse_memory env host
    cpus ← parse_cpus env host
    disk_size ← parse_disk_size env host
    graphics ← parse_graphics env
    vnc_port ← parse_port env (text "VNC_PORT") (text "5900")
    novnc_port ← parse_port env (text "NOVNC_PORT") (text "6080")
    check_graphics graphics
    boot ← parse_boot env
    user_data ← parse_user_data F host s env
    arch ← parse_arch env distro info.arch
    ssh_port ← parse_port env (text "SSH_PORT") (text "2222")
    let vm_name = derive_vm_name env distro boot.iso_requested
    nics ← build_nics env host vm_name
    ok (record {
      distro = distro;
      info = info;
      memory_mb = memory_mb;
      cpus = cpus;
      disk_size = disk_size;
      graphics = graphics;
      vnc_port = vnc_port;
      novnc_port = novnc_port;
      boot = boot;
      user_data = user_data;
      arch = arch;
      ssh_port = ssh_port;
      vm_name = vm_name;
      primary = nics.0;
      others = nics.1;
    })

  -- The services of the configuration, with their ports.
  unfoldable pub services_of : Early → ℕ → Services
  services_of e redfish_port = record {
    ssh_port = e.ssh_port;
    vnc_port = e.vnc_port;
    novnc_port = e.novnc_port;
    redfish_port = redfish_port;
    vnc = e.graphics.graphics_type == text "vnc";
    novnc = e.graphics.novnc_enabled;
    redfish = get_env_bool env (text "REDFISH_ENABLE") false;
  }

  -- The rest of the body, after the shares.
  unfoldable pub parse_late : Early → List FilesystemConfig → F.State → Result VmConfig
  parse_late e shares s = do
    let ipxe_enabled = get_env_bool env (text "IPXE_ENABLE") false
    nb ← apply_ipxe F s ipxe_enabled (rom_override env) e.arch e.boot.boot_order e.primary
    redfish_port ← parse_port env (text "REDFISH_PORT") (text "8443")
    port_forwards ← parse_port_forwards env
    boot_mode ← parse_boot_mode env
    machine_type ← parse_machine env e.arch
    disk_controller ← parse_disk_controller env
    extra_disks ← parse_extra_disks env disk_controller
    block_devices ← parse_block_devices F s env
    disk_io ← parse_disk_io env
    disk_cache ← parse_disk_cache env
    gpu ← parse_gpu env
    retries ← parse_int_env env (text "DOWNLOAD_RETRIES") (text "3") 1 (some 10)
    check_ports [] (active_ports (services_of e redfish_port) port_forwards)
    image_url ← item e.info.url (text "url")
    distro_name ←
        (if e.boot.iso_requested then ok (text "Custom ISO") else item e.info.name (text "name"))
    ok (record {
      distro = e.distro;
      image_url = image_url;
      login_user = item_or e.info.user (text "user");
      image_format = text "qcow2";
      distro_name = distro_name;
      memory_mb = e.memory_mb;
      cpus = e.cpus;
      disk_size = e.disk_size;
      display = e.graphics.display;
      graphics_type = e.graphics.graphics_type;
      arch = e.arch;
      cpu_model = get_env_or env (text "CPU_MODEL") (text "host");
      extra_args = get_env_or env (text "EXTRA_ARGS") [];
      novnc_enabled = e.graphics.novnc_enabled;
      vnc_port = e.vnc_port;
      vnc_keymap = strip (env_text env (text "VNC_KEYMAP") []);
      novnc_port = e.novnc_port;
      boot_from = e.boot.boot_from;
      blank_work_disk = e.boot.blank_work_disk;
      boot_order = nb.boot_order;
      cloud_init_enabled = e.boot.cloud_init_enabled;
      cloud_init_user_data_path = e.user_data;
      password = get_env_or env (text "GUEST_PASSWORD") (text "password");
      ssh_port = e.ssh_port;
      vm_name = e.vm_name;
      persist = get_env_bool env (text "PERSIST") host.has_data_dir;
      force_iso = get_env_bool env (text "FORCE_ISO") false;
      ssh_pubkey = get_env env (text "SSH_PUBKEY");
      redfish_user = get_env_or env (text "REDFISH_USERNAME") (text "admin");
      redfish_password = get_env_or env (text "REDFISH_PASSWORD") (text "password");
      redfish_port = redfish_port;
      redfish_system_id = get_env_or env (text "REDFISH_SYSTEM_ID") e.vm_name;
      redfish_enabled = get_env_bool env (text "REDFISH_ENABLE") false;
      nics = nb.primary ∷ e.others;
      ipxe_enabled = ipxe_enabled;
      ipxe_rom_path = nb.rom_path;
      filesystems = shares;
      port_forwards = port_forwards;
      boot_mode = boot_mode;
      tpm_enabled = parse_tpm env boot_mode;
      machine_type = machine_type;
      extra_disks = extra_disks;
      block_devices = block_devices;
      disk_controller = disk_controller;
      disk_preallocate = get_env_bool env (text "ALLOCATE") false;
      disk_io = disk_io;
      disk_cache = disk_cache;
      io_thread = get_env_bool env (text "IO_THREAD") true;
      balloon_enabled = get_env_bool env (text "BALLOON") true;
      rng_enabled = get_env_bool env (text "RNG") true;
      usb_controller = get_env_bool env (text "USB") true;
      hyperv_enabled = get_env_bool env (text "HYPERV") false;
      gpu_passthrough = gpu;
      download_retries = retries;
    })

  -- The shares, which may be created, and the rest of the body.
  unfoldable pub and_late : F.State → Result Early → Result VmConfig × F.State
  and_late s (err x) = (err x, s)
  and_late s (ok e) =
      let (shares, t) = build_shares F host env s in ((shares >>= λ found. parse_late e found t), t)

  -- `parse_env`, with the state of the file system that it leaves.
  unfoldable pub parse_env : F.State → Result VmConfig × F.State
  unfolding and_late
  parse_env s = and_late s (parse_early s)

-- ===== src/Config/Parse/Laws.antt =====
-- What holds of every configuration that `parse_env` returns.
use docker_vm_runner.Base.{
  ℕ, ◌≤◌, Text, text, is_empty, keys, Bool, true, false, contains, ◌==◌, text_eq, List, ◌∷◌, All,
  ◌≡◌,
}
use docker_vm_runner.Constants.{disk_controllers, disk_io_modes, disk_cache_modes}
use docker_vm_runner.Models.{VmConfig}
use docker_vm_runner.Host.{FileSystem, IsLawful, Host}
use docker_vm_runner.Utils.Env.{Env}
use docker_vm_runner.Config.Arch.{is_supported}
use docker_vm_runner.Config.Boot.Laws.{IsBootOrder}
use docker_vm_runner.Config.Choices.{boot_modes, gpu_modes}
use docker_vm_runner.Config.Disks.Laws.{AreRising, disk_indices, IsDisk, IsBlockDevice}
use docker_vm_runner.Config.Filesystems.Laws.{IsMounted}
use docker_vm_runner.Config.Nics.Laws.{IsNic}
use docker_vm_runner.Config.Parse.{Early}
use docker_vm_runner.Config.Ports.{Services}
use docker_vm_runner.Config.Ports.Uses.{PortUse, Listens}
use docker_vm_runner.Config.Ports.Laws.{IsForward}

abbrev pub IsPort : ℕ → Type 0
IsPort port = (1 ≤ port) × (port ≤ 65535)

-- noVNC is only on with the VNC backend.
abbrev pub IsDisplay : Text → Bool → Type 0
IsDisplay graphics_type novnc = novnc ≡ true → (graphics_type == text "vnc") ≡ true

-- The services of a configuration, with their ports.
abbrev pub services : VmConfig → Services
services cfg = record {
  ssh_port = cfg.ssh_port;
  vnc_port = cfg.vnc_port;
  novnc_port = cfg.novnc_port;
  redfish_port = cfg.redfish_port;
  vnc = cfg.graphics_type == text "vnc";
  novnc = cfg.novnc_enabled;
  redfish = cfg.redfish_enabled;
}

-- What the first half of the configuration promises to the second.
record IsEarly (early : Early) : Type 0 where
  memory : 1 ≤ early.memory_mb
  cpus : 1 ≤ early.cpus
  vnc_port : IsPort early.vnc_port
  novnc_port : IsPort early.novnc_port
  ssh_port : IsPort early.ssh_port
  display : IsDisplay early.graphics.graphics_type early.graphics.novnc_enabled
  order : IsBootOrder early.boot.boot_order
  arch : is_supported early.arch ≡ true
  primary : IsNic early.primary
  others : All IsNic early.others

-- A configuration that the rest of the program can work with, in a state of the file system.
pub record IsWellFormed (F : FileSystem) (L : IsLawful F) (host : Host) (t : F.State)
    (cfg : VmConfig) : Type 0 where
  pub memory : 1 ≤ cfg.memory_mb
  pub cpus : 1 ≤ cfg.cpus
  pub arch : is_supported cfg.arch ≡ true
  pub order : IsBootOrder cfg.boot_order
  pub network_first :
      cfg.ipxe_enabled ≡ true → (rest : List Text) × (cfg.boot_order ≡ text "network" ∷ rest)
  pub has_nic : is_empty cfg.nics ≡ false
  pub nics : All IsNic cfg.nics
  pub display : IsDisplay cfg.graphics_type cfg.novnc_enabled
  pub ports :
      IsPort cfg.ssh_port × IsPort cfg.vnc_port × IsPort cfg.novnc_port × IsPort cfg.redfish_port
  pub forwards : All IsForward cfg.port_forwards
  -- No two services have one port; a forward that is given twice counts once.
  pub distinct :
      (u v : PortUse) (port : ℕ)
      → Listens (services cfg) cfg.port_forwards u port
      → Listens (services cfg) cfg.port_forwards v port
      → u ≡ v
  pub boot_mode : contains boot_modes cfg.boot_mode ≡ true
  pub controller : contains (keys disk_controllers) cfg.disk_controller ≡ true
  pub disks : All (IsDisk cfg.disk_controller) cfg.extra_disks
  pub disk_order : AreRising 2 (disk_indices cfg.extra_disks)
  pub devices : All (IsBlockDevice F t) cfg.block_devices
  pub disk_io : contains disk_io_modes cfg.disk_io ≡ true
  pub disk_cache : contains disk_cache_modes cfg.disk_cache ≡ true
  pub gpu : contains gpu_modes cfg.gpu_passthrough ≡ true
  pub shares : All (IsMounted F L host t) cfg.filesystems
  pub retries : (1 ≤ cfg.download_retries) × (cfg.download_retries ≤ 10)

-- ===== src/Vm/Machine.antt =====
-- app/vm.py: the state of a `VMManager`, and what its methods read from outside.
use docker_vm_runner.Base.{ℕ, Text, Option, List, Bool}
use docker_vm_runner.Constants.{ArchProfile}
use docker_vm_runner.Models.{VmConfig}

-- The attributes of a `VMManager` that the domain is rendered from. `network_macs` is the dict
-- `_network_macs`; a path is the text that it is made of.
pub record Machine : Type 0 where
  pub cfg : VmConfig
  pub kvm_available : Bool
  pub effective_cpu_model : Text
  pub arch_profile : ArchProfile
  pub firmware_loader_path : Option Text
  pub firmware_vars_path : Option Text
  pub vm_dir : Text
  pub work_image : Text
  pub boot_iso : Option Text
  pub seed_iso : Option Text
  pub ipxe_rom_path : Option Text
  pub network_macs : List (ℕ × Text)

-- What the rendering reads from the host: `/proc/cpuinfo`, the file system below the disk, the
-- sector size that `blockdev --getss` prints (`none` if it fails), `/proc/net/if_inet6`, the render
-- node, and the address that `random_mac` would draw for each interface.
pub record Surroundings : Type 0 where
  pub cpu_vendor : Text
  pub cpu_flags : List Text
  pub filesystem_type : Text
  pub sector_size : Text → Option Text
  pub has_ipv6 : Bool
  pub has_render_node : Bool
  pub random_mac : ℕ → Text

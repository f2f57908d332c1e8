-- ===== src/Models.antt =====
-- app/models.py: the configuration records. A `Path` is the text that it is made of.
use docker_vm_runner.Base.{ℕ, ℤ, Text, Bool, Option, List}

pub record PortForward : Type 0 where
  pub host_port : ℕ
  pub guest_port : ℕ

pub record DiskConfig : Type 0 where
  pub size : Text
  pub index : ℕ
  pub controller : Text

pub record BlockDevice : Type 0 where
  pub path : Text
  pub index : ℕ

pub record NicConfig : Type 0 where
  pub mode : Text
  pub bridge_name : Option Text
  pub direct_device : Option Text
  pub mac_address : Option Text
  pub model : Text
  pub boot : Bool
  pub mtu : Option ℤ

pub record FilesystemConfig : Type 0 where
  pub source : Text
  pub target : Text
  pub driver : Text
  pub accessmode : Text
  pub readonly : Bool

pub record VmConfig : Type 0 where
  pub distro : Text
  pub image_url : Text
  pub login_user : Text
  pub image_format : Text
  pub distro_name : Text
  pub memory_mb : ℕ
  pub cpus : ℕ
  pub disk_size : Text
  pub display : Text
  pub graphics_type : Text
  pub arch : Text
  pub cpu_model : Text
  pub extra_args : Text
  pub novnc_enabled : Bool
  pub vnc_port : ℕ
  pub vnc_keymap : Text
  pub novnc_port : ℕ
  pub boot_from : Option Text
  pub blank_work_disk : Bool
  pub boot_order : List Text
  pub cloud_init_enabled : Bool
  pub cloud_init_user_data_path : Option Text
  pub password : Text
  pub ssh_port : ℕ
  pub vm_name : Text
  pub persist : Bool
  pub force_iso : Bool
  pub ssh_pubkey : Option Text
  pub redfish_user : Text
  pub redfish_password : Text
  pub redfish_port : ℕ
  pub redfish_system_id : Text
  pub redfish_enabled : Bool
  pub nics : List NicConfig
  pub ipxe_enabled : Bool
  pub ipxe_rom_path : Option Text
  pub filesystems : List FilesystemConfig
  pub port_forwards : List PortForward
  pub boot_mode : Text
  pub tpm_enabled : Bool
  pub machine_type : Text
  pub extra_disks : List DiskConfig
  pub block_devices : List BlockDevice
  pub disk_controller : Text
  pub disk_preallocate : Bool
  pub disk_io : Text
  pub disk_cache : Text
  pub io_thread : Bool
  pub balloon_enabled : Bool
  pub rng_enabled : Bool
  pub usb_controller : Bool
  pub hyperv_enabled : Bool
  pub gpu_passthrough : Text
  pub download_retries : ℕ

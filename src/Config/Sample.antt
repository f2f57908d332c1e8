-- ===== src/Config/Sample.antt =====
-- A concrete host, file system and environment, and the configuration that they give.
use docker_vm_runner.Base.{
  list_beq, contains, text, is_space, lower_char, upper_char, lower, drop_while, strip_class, strip,
  starts_with, ends_with, has_infix, before, has_char, split_on, join_with, lookup, insert,
  show_nat, show_int, parse_int, Text, Bool, true, false, ◌||◌, none, some, List, [], ◌∷◌, ◌≡◌,
  refl, ◌%◌, ℕ, ◌<◌, arith, list_beq_iff, ◌==◌, text_eq, Result, ok, err,
}
use docker_vm_runner.Models.{VmConfig}
use docker_vm_runner.Host.{FileSystem, IsLawful, Host, Distro, YamlKind}
use docker_vm_runner.Utils.Env.{Env}
use docker_vm_runner.Utils.Env.{get_env, get_env_or, get_env_bool, check_int, parse_int_env}
use docker_vm_runner.Utils.Names.{
  is_container_id, derive_vm_name, sanitize_mount_target, is_url, is_oci_reference,
}
use docker_vm_runner.Utils.Size.{
  matches_size, validate_disk_size, multiplier, parse_size_to_bytes, parse_resource_size,
}
use docker_vm_runner.Utils.Mac.{
  hex_digit, hex_byte, show_mac, random_mac, mac_octets, deterministic_mac, matches_mac,
}
use docker_vm_runner.Config.Resources.{parse_memory, parse_cpus, parse_disk_size}
use docker_vm_runner.Config.Choices.{
  env_text, choice, parse_boot_mode, parse_disk_controller, parse_disk_io, parse_disk_cache,
  parse_gpu, parse_tpm, parse_machine, parse_graphics,
}
use docker_vm_runner.Config.Boot.{
  order_items, check_devices, complete_order, boot_source, parse_boot, parse_user_data,
}
use docker_vm_runner.Config.Arch.{canonical, is_supported, parse_arch}
use docker_vm_runner.Config.Indexed.{behind, suffix, indexed_name, get_env_indexed}
use docker_vm_runner.Config.Nics.{
  nic_mode, nic_bridge, nic_direct, nic_mac, nic_model, detected_mtu, nic_mtu, nic_boot,
  configured_nic, is_absent, build_nic, collect_nics, build_nics,
}
use docker_vm_runner.Config.Filesystems.{
  path_name, share_target, share_options, share_variables, has_value, share_source, must_be_dir,
  ensure_source, with_texts, and_target, and_source, configured_share, and_shares, unless_done,
  collect_shares, build_shares,
}
use docker_vm_runner.Config.Ports.{
  forward_of, forward_of_parts, forwards_of, parse_port_forwards, forward_label, add_forwards,
  active_ports, check_ports,
}
use docker_vm_runner.Config.Ipxe.{
  without, network_first, default_rom, rom_override, choose_rom, apply_ipxe,
}
use docker_vm_runner.Config.Disks.{
  and_disk, disks_from, parse_extra_disks, and_device, devices_from, parse_block_devices,
}
use docker_vm_runner.Config.Parse.{
  load_distro_config, parse_port, parse_early, services_of, parse_late, and_late, parse_env,
}

-- The state holds the directories; there is one ROM file and one block device.
abbrev pub disk : FileSystem
disk = record {
  State = List Text;
  exists =
      λ s p. contains s p || (p == text "/usr/share/qemu/pxe-virtio.rom" || p == text "/dev/sdz");
  is_file = λ s p. p == text "/usr/share/qemu/pxe-virtio.rom";
  is_dir = λ s p. contains s p;
  is_block_device = λ s p. p == text "/dev/sdz";
  read_text = λ s p. none;
  make_dirs = λ s p. some (p ∷ s);
}

pub disk-IsLawful : IsLawful disk
unfolding contains
disk-IsLawful = record {
  made = λ s t p e. ground (arith, list_beq_iff p p);
  dir_stays = λ s t p q e h. ground (arith, list_beq_iff q p);
  exists_of_dir = λ s p h. ground arith;
}

abbrev ubuntu : Distro
ubuntu = record {
  name = some (text "Ubuntu 24.04");
  url = some (text "https://example.org/u.img");
  user = some (text "ubuntu");
  arch = none;
}

abbrev pub host : Host
host = record {
  distributions = some ((text "ubuntu-2404", ubuntu) ∷ []);
  capacity = record { available_memory = 8589934592; cpu_count = 8 };
  free_bytes = 107374182400;
  nine_tenths = λ n. n;
  expanduser = λ p. p;
  sha256 = λ s i. (i) % 256;
  host_mtu = 1500;
  yaml_kind = λ t. YamlKind.mapping;
  has_data_dir = false;
}

pub host-bytes : (s : Text) (i : ℕ) → host.sha256 s i < 256
host-bytes s i = omega arith

-- Two forwarded ports, a network boot, a share whose directory is missing, a second disk and a
-- block device.
abbrev pub env : Env
env =
    (text "MEMORY", text "half")
    ∷ (text "CPUS", text "4")
    ∷ (text "GRAPHICS", text "novnc")
    ∷ (text "PORT_FWD", text "8080:80,8081:81")
    ∷ (text "IPXE_ENABLE", text "1")
    ∷ (text "FILESYSTEM_SOURCE", text "/srv/data")
    ∷ (text "DISK2_SIZE", text "10G")
    ∷ (text "DEVICE", text "/dev/sdz")
    ∷ (text "NETWORK2_MODE", text "bridge")
    ∷ (text "NETWORK2_BRIDGE", text "br0")
    ∷ []

unfoldable pub is_ok {ℓ} : {A : Type ℓ} → Result A → Bool
is_ok (ok a) = true
is_ok (err x) = false

pub parsed : is_ok (parse_env disk host env []).0 ≡ true
unfolding is_ok list_beq contains text is_space lower_char upper_char lower drop_while strip_class
    strip starts_with ends_with has_infix before has_char split_on join_with lookup insert show_nat
    show_int parse_int get_env get_env_or get_env_bool check_int parse_int_env is_container_id
    derive_vm_name sanitize_mount_target is_url is_oci_reference matches_size validate_disk_size
    multiplier parse_size_to_bytes parse_resource_size hex_digit hex_byte show_mac random_mac
    mac_octets deterministic_mac matches_mac parse_memory parse_cpus parse_disk_size env_text choice
    parse_boot_mode parse_disk_controller parse_disk_io parse_disk_cache parse_gpu parse_tpm
    parse_machine parse_graphics order_items check_devices complete_order boot_source parse_boot
    parse_user_data canonical is_supported parse_arch behind suffix indexed_name get_env_indexed
    nic_mode nic_bridge nic_direct nic_mac nic_model detected_mtu nic_mtu nic_boot configured_nic
    is_absent build_nic collect_nics build_nics path_name share_target share_options share_variables
    has_value share_source must_be_dir ensure_source with_texts and_target and_source
    configured_share and_shares unless_done collect_shares build_shares forward_of forward_of_parts
    forwards_of parse_port_forwards forward_label add_forwards active_ports check_ports without
    network_first default_rom rom_override choose_rom apply_ipxe and_disk disks_from
    parse_extra_disks and_device devices_from parse_block_devices load_distro_config parse_port
    parse_early services_of parse_late and_late parse_env
parsed = refl

abbrev pub sample : Result VmConfig × List Text
sample = parse_env disk host env []

-- The value of a computation that succeeds.
pub the {ℓ} : {A : Type ℓ} (m : Result A) → is_ok m ≡ true → A
unfolding is_ok
the (ok a) h = a
the (err x) h = absurd (cc)

pub the-eq {ℓ} : {A : Type ℓ} (m : Result A) (h : is_ok m ≡ true) → m ≡ ok (the m h)
unfolding the is_ok
the-eq (ok a) h = refl
the-eq (err x) h = absurd (cc)

abbrev pub config : VmConfig
config = the sample.0 parsed

-- ===== src/Config/Tests.antt =====
-- The theorems about app/config.py at concrete inputs.
use docker_vm_runner.Base.{
  list_beq, contains, text, is_space, lower_char, upper_char, lower, drop_while, strip_class, strip,
  starts_with, ends_with, has_infix, before, has_char, split_on, join_with, lookup, insert,
  show_nat, show_int, parse_int, ℕ, ◌≡◌, refl, ◌≢◌, ◌↔◌, arith, true, false, none, some, List, [],
  ◌∷◌, map, Result, ok, err, raise, Error, Reason, is_empty, text_eq,
}
use docker_vm_runner.Models.{NicConfig, PortForward, DiskConfig, BlockDevice}
use docker_vm_runner.Utils.Env.{Env}
use docker_vm_runner.Config.Sample.{disk, disk-IsLawful, host, env, is_ok, the, the-eq}
use docker_vm_runner.Config.Ports.Conflicts.{AreDistinct, check_ports-eq-ok_iff}
use docker_vm_runner.Config.Ports.Laws.{IsForward, show_forward, parse_port_forwards-show_forward}
use docker_vm_runner.Config.Filesystems.Laws.{IsMakingAll, build_shares-IsMakingAll}
use docker_vm_runner.Config.Filesystems.Rounds.{build_shares-ends}
use docker_vm_runner.Config.Nics.Rounds.{build_nics-ends}
use docker_vm_runner.Config.Boot.{boot_devices}
use docker_vm_runner.Config.Boot.Laws.{IsBootOrder, IsBootSettings, parse_boot-IsBootSettings}
use docker_vm_runner.Config.Ipxe.{NetworkBoot}
use docker_vm_runner.Config.Ipxe.Laws.{IsNetworkBoot, apply_ipxe-IsNetworkBoot}
use docker_vm_runner.Config.Resources.Laws.{parse_memory_empty}
use docker_vm_runner.Config.Choices.{Graphics}
use docker_vm_runner.Config.Indexed.Laws.{indexed_name-inj}
use docker_vm_runner.Utils.Env.{get_env, get_env_or, get_env_bool, check_int, parse_int_env}
use docker_vm_runner.Utils.Names.{
  is_container_id, derive_vm_name, sanitize_mount_target, is_url, is_oci_reference,
}
use docker_vm_runner.Utils.Size.{
  matches_size, validate_disk_size, multiplier, parse_size_to_bytes, parse_resource_size,
}
use docker_vm_runner.Utils.Mac.{
  hex_digit, hex_byte, show_mac, random_mac, mac_octets, deterministic_mac, matches_mac,
}
use docker_vm_runner.Config.Resources.{parse_memory, parse_cpus, parse_disk_size}
use docker_vm_runner.Config.Choices.{
  env_text, choice, parse_boot_mode, parse_disk_controller, parse_disk_io, parse_disk_cache,
  parse_gpu, parse_tpm, parse_machine, parse_graphics,
}
use docker_vm_runner.Config.Boot.{
  order_items, check_devices, complete_order, boot_source, parse_boot, parse_user_data,
}
use docker_vm_runner.Config.Arch.{canonical, is_supported, parse_arch}
use docker_vm_runner.Config.Indexed.{behind, suffix, indexed_name, get_env_indexed}
use docker_vm_runner.Config.Nics.{
  nic_mode, nic_bridge, nic_direct, nic_mac, nic_model, detected_mtu, nic_mtu, nic_boot,
  configured_nic, is_absent, build_nic, collect_nics, build_nics,
}
use docker_vm_runner.Config.Filesystems.{
  path_name, share_target, share_options, share_variables, has_value, share_source, must_be_dir,
  ensure_source, with_texts, and_target, and_source, configured_share, and_shares, unless_done,
  collect_shares, build_shares,
}
use docker_vm_runner.Config.Ports.{
  forward_of, forward_of_parts, forwards_of, parse_port_forwards, forward_label, add_forwards,
  active_ports, check_ports,
}
use docker_vm_runner.Config.Ipxe.{
  without, network_first, default_rom, rom_override, choose_rom, apply_ipxe,
}
use docker_vm_runner.Config.Disks.{
  and_disk, disks_from, parse_extra_disks, and_device, devices_from, parse_block_devices,
}
use docker_vm_runner.Config.Parse.{
  load_distro_config, parse_port, parse_early, services_of, parse_late, and_late, parse_env,
}

abbrev web : PortForward
web = record { host_port = 8080; guest_port = 80 }

abbrev api : PortForward
api = record { host_port = 8081; guest_port = 81 }

abbrev plain_nic : NicConfig
plain_nic = record {
  mode = text "user";
  bridge_name = none;
  direct_device = none;
  mac_address = none;
  model = text "virtio";
  boot = false;
  mtu = none;
}

abbrev network_boot : Result NetworkBoot
network_boot = apply_ipxe disk [] true none (text "x86_64") (text "hd" ∷ []) plain_nic

abbrev arm_env : Env
arm_env =
    (text "ARCH", text "arm64") ∷ (text "MEMORY", []) ∷ (text "BOOT_MODE", text " Secure ") ∷ []

-- What the runs of the code at these inputs give.
record Facts : Type 0 where
  forwards_parsed : parse_port_forwards env ≡ ok (web ∷ api ∷ [])
  forwards_set :
      get_env env (text "PORT_FWD") ≡ some (join_with b',' (map show_forward (web ∷ api ∷ [])))
  nics_parsed : is_ok (build_nics env host (text "box")) ≡ true
  boot_parsed : is_ok (parse_boot env) ≡ true
  booted : is_ok network_boot ≡ true
  disks_parsed : is_ok (parse_extra_disks env (text "scsi")) ≡ true
  devices_parsed : is_ok (parse_block_devices disk [] env) ≡ true
  arm_set : get_env arm_env (text "ARCH") ≡ some (text "arm64")
  arm_parsed : parse_arch arm_env (text "debian-12") none ≡ ok (text "aarch64")
  memory_empty : get_env arm_env (text "MEMORY") ≡ some []
  graphics_parsed : is_ok (parse_graphics env) ≡ true
  underscored : has_char b'_' (text "NETWORK_MODE") ≡ true
  hd_nonempty : is_empty (text "hd" ∷ []) ≡ false
  hd_known : contains boot_devices (text "hd") ≡ true

facts : Facts
unfolding is_ok show_forward list_beq contains text is_space lower_char upper_char lower drop_while
    strip_class strip starts_with ends_with has_infix before has_char split_on join_with lookup
    insert show_nat show_int parse_int get_env get_env_or get_env_bool check_int parse_int_env
    is_container_id derive_vm_name sanitize_mount_target is_url is_oci_reference matches_size
    validate_disk_size multiplier parse_size_to_bytes parse_resource_size hex_digit hex_byte
    show_mac random_mac mac_octets deterministic_mac matches_mac parse_memory parse_cpus
    parse_disk_size env_text choice parse_boot_mode parse_disk_controller parse_disk_io
    parse_disk_cache parse_gpu parse_tpm parse_machine parse_graphics order_items check_devices
    complete_order boot_source parse_boot parse_user_data canonical is_supported parse_arch behind
    suffix indexed_name get_env_indexed nic_mode nic_bridge nic_direct nic_mac nic_model
    detected_mtu nic_mtu nic_boot configured_nic is_absent build_nic collect_nics build_nics
    path_name share_target share_options share_variables has_value share_source must_be_dir
    ensure_source with_texts and_target and_source configured_share and_shares unless_done
    collect_shares build_shares forward_of forward_of_parts forwards_of parse_port_forwards
    forward_label add_forwards active_ports check_ports without network_first default_rom
    rom_override choose_rom apply_ipxe and_disk disks_from parse_extra_disks and_device devices_from
    parse_block_devices load_distro_config parse_port parse_early services_of parse_late and_late
    parse_env
facts = record {
  forwards_parsed = refl;
  forwards_set = refl;
  nics_parsed = refl;
  boot_parsed = refl;
  booted = refl;
  disks_parsed = refl;
  devices_parsed = refl;
  arm_set = refl;
  arm_parsed = refl;
  memory_empty = refl;
  graphics_parsed = refl;
  underscored = refl;
  hd_nonempty = refl;
  hd_known = refl;
}

check_ports-eq-ok_iff_example :
    (check_ports [] ((text "SSH_PORT", 2222) ∷ (text "VNC_PORT", 5900) ∷ []) ≡ ok tt)
    ↔ AreDistinct (2222 ∷ 5900 ∷ [])
check_ports-eq-ok_iff_example =
    check_ports-eq-ok_iff ((text "SSH_PORT", 2222) ∷ (text "VNC_PORT", 5900) ∷ [])

web-IsForward : IsForward web
web-IsForward = (omega arith, omega arith, omega arith, omega arith)

api-IsForward : IsForward api
api-IsForward = (omega arith, omega arith, omega arith, omega arith)

parse_port_forwards-show_forward_example : parse_port_forwards env ≡ ok (web ∷ api ∷ [])
parse_port_forwards-show_forward_example =
    parse_port_forwards-show_forward web (api ∷ []) env (web-IsForward, (api-IsForward, tt))
      facts.forwards_set

build_shares-IsMakingAll_example :
    IsMakingAll disk disk-IsLawful host [] (build_shares disk host env [])
build_shares-IsMakingAll_example = build_shares-IsMakingAll disk disk-IsLawful host env []

build_shares-ends_example : (build_shares disk host env []).0 ≢ err Error.out_of_fuel
build_shares-ends_example = build_shares-ends disk host env []

build_nics-ends_example : build_nics env host (text "box") ≢ err Error.out_of_fuel
build_nics-ends_example = build_nics-ends env host (text "box")

abbrev nics : NicConfig × List NicConfig
nics = the (build_nics env host (text "box")) facts.nics_parsed

parse_boot-IsBootSettings_example : IsBootSettings env (the (parse_boot env) facts.boot_parsed)
parse_boot-IsBootSettings_example =
    parse_boot-IsBootSettings env (the (parse_boot env) facts.boot_parsed)
      (the-eq (parse_boot env) facts.boot_parsed)

hd_order : IsBootOrder (text "hd" ∷ [])
hd_order = record { nonempty = facts.hd_nonempty; devices = (facts.hd_known, tt) }

apply_ipxe-IsNetworkBoot_example :
    IsNetworkBoot disk [] true (text "hd" ∷ []) (the network_boot facts.booted)
apply_ipxe-IsNetworkBoot_example =
    apply_ipxe-IsNetworkBoot disk [] true none (text "x86_64") (text "hd" ∷ []) plain_nic
      (the network_boot facts.booted) hd_order (the-eq network_boot facts.booted)

abbrev disks : List DiskConfig
disks = the (parse_extra_disks env (text "scsi")) facts.disks_parsed

abbrev devices : List BlockDevice
devices = the (parse_block_devices disk [] env) facts.devices_parsed

parse_memory_empty_example :
    parse_memory arm_env host ≡ raise (Reason.not_an_integer (text "MEMORY") [])
parse_memory_empty_example = parse_memory_empty arm_env host facts.memory_empty

abbrev graphics : Graphics
graphics = the (parse_graphics env) facts.graphics_parsed

abbrev two : ℕ
two = 2

indexed_name-inj_example : two ≡ two
indexed_name-inj_example = indexed_name-inj (text "NETWORK_MODE") facts.underscored two two refl

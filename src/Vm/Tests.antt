-- ===== src/Vm/Tests.antt =====
-- The theorems about app/vm.py and app/network.py at concrete inputs.
use docker_vm_runner.Base.{
  ℕ, Text, text, list_beq, contains, lower, lower_char, is_empty, lookup, true, false, Option, none,
  some, List, [], ◌∷◌, ◌≡◌, refl, text_eq, inl, inr, Result, ok,
}
use docker_vm_runner.Constants.{x86_64_profile}
use docker_vm_runner.Models.{VmConfig, NicConfig}
use docker_vm_runner.Host.{FileSystem}
use docker_vm_runner.Xml.{Element}
use docker_vm_runner.Network.{InterfaceOptions, render_network_xml, render_interface}
use docker_vm_runner.Network.Laws.{IsRendered, render_network_xml-IsRendered}
use docker_vm_runner.Config.Sample.{disk, config, the, the-eq, is_ok}
use docker_vm_runner.Config.Boot.Laws.{IsBootOrder}
use docker_vm_runner.Vm.Machine.{Machine, Surroundings}
use docker_vm_runner.Vm.Domain.{render_domain_xml}
use docker_vm_runner.Vm.Domain.System.{is_host_model, need_firmware}
use docker_vm_runner.Vm.Domain.Laws.{HasFirmware, render_domain_xml-total}
use docker_vm_runner.Vm.Prepare.{
  BootPlan, Prepared, skip_installed_iso, prepare_cpu_model, prepare_firmware, install_firmware,
  fetch_firmware, copy_vars, choose_firmware,
}
use docker_vm_runner.Vm.Prepare.Laws.{
  IsInstalledOrder, skip_installed_iso_sound, prepare_firmware-need, IsReady, IsCopying,
}

abbrev bridged : NicConfig
bridged = record {
  mode = text "bridge";
  bridge_name = some (text "br0");
  direct_device = none;
  mac_address = some (text "52:54:00:00:00:01");
  model = text "virtio";
  boot = true;
  mtu = none;
}

abbrev user_nic : NicConfig
user_nic = record bridged { mode = text "user"; bridge_name = none }

-- A configuration with one interface, for UEFI on x86_64.
abbrev cfg : VmConfig
cfg = record config {
  nics = bridged ∷ [];
  arch = text "x86_64";
  boot_mode = text "uefi";
  cpu_model = text "host";
  vm_name = text "box";
}

abbrev machine : Machine
machine = record {
  cfg = cfg;
  kvm_available = true;
  effective_cpu_model = text "host";
  arch_profile = x86_64_profile;
  firmware_loader_path = some (text "/usr/share/OVMF/OVMF_CODE_4M.fd");
  firmware_vars_path = some (text "/var/lib/box-vars.fd");
  vm_dir = text "/images/box";
  work_image = text "/images/box/disk.qcow2";
  boot_iso = none;
  seed_iso = some (text "/images/box/seed.iso");
  ipxe_rom_path = none;
  network_macs = [];
}

abbrev surroundings : Surroundings
surroundings = record {
  cpu_vendor = text "amd";
  cpu_flags = text "avic" ∷ [];
  filesystem_type = text "ext4";
  sector_size = λ path. none;
  has_ipv6 = true;
  has_render_node = false;
  random_mac = λ i. text "52:54:00:00:00:02";
}

abbrev options : InterfaceOptions
options = record {
  ssh_port = some 2222;
  mac_address = none;
  boot_order = some 1;
  rom_file = none;
  port_forwards = record { host_port = 8080; guest_port = 80 } ∷ [];
  ipv6_enabled = true;
}

abbrev drawn : Text
drawn = text "52:54:00:00:00:02"

-- A file system whose files are all there, and where a copy changes nothing.
abbrev full : FileSystem
full = record disk { exists = λ s p. true }

abbrev keep : List Text → Text → Text → Option (List Text)
keep s from to = some s

abbrev firmware : Result (Option Prepared × List Text)
firmware = prepare_firmware full ok keep (text "/state") [] cfg x86_64_profile

-- What the runs of the code at these inputs give.
record Facts : Type 0 where
  bridge_nonempty : is_empty (text "br0") ≡ false
  rendered : is_ok (render_network_xml user_nic options drawn) ≡ true
  hd_known : contains docker_vm_runner.Config.Boot.boot_devices (text "hd") ≡ true
  cdrom_known : contains docker_vm_runner.Config.Boot.boot_devices (text "cdrom") ≡ true
  needed : need_firmware cfg x86_64_profile ≡ true
  prepared : is_ok firmware ≡ true
  fallback : is_host_model x86_64_profile.tcg_fallback ≡ false
  emulated : prepare_cpu_model false false cfg x86_64_profile ≡ ok (text "qemu64")

facts : Facts
unfolding is_ok text list_beq contains lookup lower lower_char render_network_xml render_interface
    need_firmware prepare_firmware install_firmware fetch_firmware copy_vars choose_firmware
    prepare_cpu_model
facts = record {
  bridge_nonempty = refl;
  rendered = refl;
  hd_known = refl;
  cdrom_known = refl;
  needed = refl;
  prepared = refl;
  fallback = refl;
  emulated = refl;
}

machine-HasFirmware : HasFirmware machine
machine-HasFirmware q =
    ((text "/usr/share/OVMF/OVMF_CODE_4M.fd", refl), (text "/var/lib/box-vars.fd", refl))

render_domain_xml-total_example :
    (out : Element × List (ℕ × Text)) × (render_domain_xml machine surroundings ≡ ok out)
render_domain_xml-total_example =
    render_domain_xml-total machine surroundings machine-HasFirmware
      (inr (inl (refl, (text "br0", refl, facts.bridge_nonempty))), tt)

abbrev rendered : Element × Text
rendered = the (render_network_xml user_nic options drawn) facts.rendered

render_network_xml-IsRendered_example : IsRendered user_nic options drawn rendered.0 rendered.1
render_network_xml-IsRendered_example =
    render_network_xml-IsRendered user_nic options drawn rendered.0 rendered.1
      (the-eq (render_network_xml user_nic options drawn) facts.rendered)

abbrev drive_first : List Text
drive_first = text "cdrom" ∷ text "hd" ∷ []

drive_first-IsBootOrder : IsBootOrder drive_first
drive_first-IsBootOrder = record {
  nonempty = refl;
  devices = (facts.cdrom_known, (facts.hd_known, tt));
}

abbrev plan : BootPlan
plan =
    skip_installed_iso true true false
      (record { iso = some (text "/boot.iso"); boot_order = drive_first })

skip_installed_iso_sound_example :
    (true ≡ true → (plan.iso ≡ none) × IsInstalledOrder plan.boot_order)
    × (true ≡ false → plan ≡ record { iso = some (text "/boot.iso"); boot_order = drive_first })
skip_installed_iso_sound_example =
    skip_installed_iso_sound true true false (text "/boot.iso") drive_first drive_first-IsBootOrder

abbrev left : Option Prepared × List Text
left = the firmware facts.prepared

keep-IsCopying : IsCopying full keep
keep-IsCopying = record { copied = λ s t p q e. refl; stays = λ s t p q r e h. refl }

prepare_firmware-need_example :
    (f : Prepared) × (left.0 ≡ some f)
    × IsReady full ok keep keep-IsCopying (text "/state") cfg x86_64_profile left.1 f
prepare_firmware-need_example =
    prepare_firmware-need full ok keep keep-IsCopying (text "/state") [] left.1 cfg x86_64_profile
      left.0 facts.needed (the-eq firmware facts.prepared)

-- ===== src/Cli/Preview.antt =====
-- app/cli.py: the modes of `main` that print and start nothing.
use docker_vm_runner.Base.{
  Text, text, lookup, ◌++◌, is_empty, Bool, Option, none, some, [], ◌==◌, text_eq, Result, ok, err,
  Error, if◌then◌else◌, ◌>>=◌,
}
use docker_vm_runner.Constants.{
  ArchProfile, Firmware, no_firmware, by_mode, flat, FirmwarePaths, supported_arches,
}
use docker_vm_runner.Models.{VmConfig}
use docker_vm_runner.Xml.{Element}
use docker_vm_runner.Vm.Machine.{Machine, Surroundings}
use docker_vm_runner.Vm.Domain.{render_domain_xml}
use docker_vm_runner.Vm.Domain.System.{os_element}

-- The firmware's paths, without a file being looked at. The table has modes for x86_64 alone.
abbrev preview_firmware : VmConfig → Firmware → Option FirmwarePaths
preview_firmware cfg no_firmware = none
preview_firmware cfg (by_mode modes) =
    if cfg.arch == text "x86_64" then lookup cfg.boot_mode modes else none
preview_firmware cfg (flat paths) = if cfg.arch == text "x86_64" then none else some paths

abbrev loader_of : Option FirmwarePaths → Option Text
loader_of none = none
loader_of (some paths) = some paths.loader

abbrev vars_of : Option FirmwarePaths → Option Text
vars_of none = none
vars_of (some paths) = some paths.vars_template

abbrev preview_dir : VmConfig → Text
preview_dir cfg = text "/images/vms/" ++ cfg.vm_name

-- `Path(s) if s else None`
abbrev path_or_none : Option Text → Option Text
path_or_none none = none
path_or_none (some path) = if is_empty path then none else some path

-- The manager that is made without its constructor. It has no `vm_dir`: see `preview_xml`.
unfoldable pub preview_machine : Bool → VmConfig → ArchProfile → Machine
preview_machine kvm cfg profile =
    let firmware = preview_firmware cfg profile.firmware in
    record {
      cfg = cfg;
      kvm_available = kvm;
      effective_cpu_model = cfg.cpu_model;
      arch_profile = profile;
      firmware_loader_path = loader_of firmware;
      firmware_vars_path = vars_of firmware;
      vm_dir = [];
      work_image = preview_dir cfg ++ (text "/disk." ++ cfg.image_format);
      boot_iso = none;
      seed_iso =
          (if cfg.cloud_init_enabled then some (preview_dir cfg ++ text "/seed.iso") else none);
      ipxe_rom_path = path_or_none cfg.ipxe_rom_path;
      network_macs = [];
    }

-- `SUPPORTED_ARCHES[arch]`
abbrev profile_or_error : Text → Option ArchProfile → Result ArchProfile
profile_or_error arch none = err (Error.key_error arch)
profile_or_error arch (some profile) = ok profile

-- The document. The drives of further disks need `vm_dir`, which is missing: an `AttributeError`,
-- after the part of the document that comes before the drives.
unfoldable pub preview_xml : Surroundings → Bool → VmConfig → Result Element
preview_xml host kvm cfg =
    profile_or_error cfg.arch (lookup cfg.arch supported_arches) >>= λ profile.
    os_element (preview_machine kvm cfg profile) >>= λ os.
    if is_empty cfg.extra_disks
    then (render_domain_xml (preview_machine kvm cfg profile) host >>= λ rendered. ok rendered.0)
    else err Error.other_error

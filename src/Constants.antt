-- ===== src/Constants.antt =====
-- app/constants.py: the tables of choices, architectures, controllers and boot ROMs.
-- The directories are in Places.
pub mod Places
use docker_vm_runner.Base.{Text, text, List, [], ◌∷◌}
use docker_vm_runner.Base.Dict.{Dict}

abbrev pub truthy : List Text
truthy = text "1" ∷ text "true" ∷ text "yes" ∷ text "on" ∷ []

pub record FirmwarePaths : Type 0 where
  pub loader : Text
  pub vars_template : Text

-- The "firmware" entry of an architecture: absent, by boot mode, or one pair of files.
pub data Firmware : Type 0 where
  no_firmware : Firmware
  by_mode : Dict FirmwarePaths → Firmware
  flat : FirmwarePaths → Firmware

pub record ArchProfile : Type 0 where
  pub machine : Text
  pub features : List Text
  pub tcg_fallback : Text
  pub firmware : Firmware

abbrev pub ovmf_uefi : FirmwarePaths
ovmf_uefi = record {
  loader = text "/usr/share/OVMF/OVMF_CODE_4M.fd";
  vars_template = text "/usr/share/OVMF/OVMF_VARS_4M.fd";
}

abbrev pub ovmf_secure : FirmwarePaths
ovmf_secure = record {
  loader = text "/usr/share/OVMF/OVMF_CODE_4M.ms.fd";
  vars_template = text "/usr/share/OVMF/OVMF_VARS_4M.ms.fd";
}

abbrev pub aavmf : FirmwarePaths
aavmf = record {
  loader = text "/usr/share/AAVMF/AAVMF_CODE.fd";
  vars_template = text "/usr/share/AAVMF/AAVMF_VARS.fd";
}

abbrev pub x86_64_profile : ArchProfile
x86_64_profile = record {
  machine = text "q35";
  features = text "acpi" ∷ text "apic" ∷ text "pae" ∷ [];
  tcg_fallback = text "qemu64";
  firmware = by_mode ((text "uefi", ovmf_uefi) ∷ (text "secure", ovmf_secure) ∷ []);
}

abbrev pub aarch64_profile : ArchProfile
aarch64_profile = record {
  machine = text "virt";
  features = text "acpi" ∷ [];
  tcg_fallback = text "cortex-a72";
  firmware = flat aavmf;
}

abbrev pub plain_profile : Text → Text → ArchProfile
plain_profile machine tcg_fallback = record {
  machine = machine;
  features = [];
  tcg_fallback = tcg_fallback;
  firmware = no_firmware;
}

abbrev pub supported_arches : Dict ArchProfile
supported_arches =
    (text "x86_64", x86_64_profile)
    ∷ (text "aarch64", aarch64_profile)
    ∷ (text "ppc64", plain_profile (text "pseries") (text "power8"))
    ∷ (text "s390x", plain_profile (text "s390-ccw-virtio") (text "qemu"))
    ∷ (text "riscv64", plain_profile (text "virt") (text "rv64"))
    ∷ []

abbrev pub arch_aliases : Dict Text
arch_aliases =
    (text "amd64", text "x86_64")
    ∷ (text "arm64", text "aarch64")
    ∷ (text "ppc64le", text "ppc64")
    ∷ (text "ppc64el", text "ppc64")
    ∷ (text "powerpc64", text "ppc64")
    ∷ (text "riscv", text "riscv64")
    ∷ []

abbrev pub supported_network_models : List Text
supported_network_models =
    text "virtio"
    ∷ text "e1000"
    ∷ text "e1000e"
    ∷ text "rtl8139"
    ∷ text "ne2k_pci"
    ∷ text "pcnet"
    ∷ text "vmxnet3"
    ∷ []

abbrev pub ipxe_default_roms : Dict (Dict Text)
ipxe_default_roms =
    (
      text "x86_64",
      (text "virtio", text "/usr/share/qemu/pxe-virtio.rom")
          ∷ (text "e1000", text "/usr/share/qemu/pxe-e1000.rom")
          ∷ (text "e1000e", text "/usr/share/qemu/pxe-e1000e.rom")
          ∷ (text "rtl8139", text "/usr/share/qemu/pxe-rtl8139.rom")
          ∷ (text "ne2k_pci", text "/usr/share/qemu/pxe-ne2k_pci.rom")
          ∷ (text "pcnet", text "/usr/share/qemu/pxe-pcnet.rom")
          ∷ (text "vmxnet3", text "/usr/share/qemu/pxe-vmxnet3.rom")
          ∷ [],
    )
    ∷ (
      text "aarch64",
      (text "virtio", text "/usr/share/qemu/efi-virtio.rom")
          ∷ (text "e1000", text "/usr/share/qemu/efi-e1000.rom")
          ∷ (text "e1000e", text "/usr/share/qemu/efi-e1000e.rom")
          ∷ (text "rtl8139", text "/usr/share/qemu/efi-rtl8139.rom")
          ∷ (text "ne2k_pci", text "/usr/share/qemu/efi-ne2k_pci.rom")
          ∷ (text "pcnet", text "/usr/share/qemu/efi-pcnet.rom")
          ∷ (text "vmxnet3", text "/usr/share/qemu/efi-vmxnet3.rom")
          ∷ [],
    )
    ∷ []

pub record Controller : Type 0 where
  pub bus : Text
  pub dev_prefix : Text

abbrev pub disk_controllers : Dict Controller
disk_controllers =
    (text "virtio", record { bus = text "virtio"; dev_prefix = text "vd" })
    ∷ (text "scsi", record { bus = text "scsi"; dev_prefix = text "sd" })
    ∷ (text "nvme", record { bus = text "nvme"; dev_prefix = text "nvme" })
    ∷ (text "ide", record { bus = text "ide"; dev_prefix = text "hd" })
    ∷ (text "usb", record { bus = text "usb"; dev_prefix = text "sd" })
    ∷ []

abbrev pub disk_io_modes : List Text
disk_io_modes = text "native" ∷ text "threads" ∷ text "io_uring" ∷ []

abbrev pub disk_cache_modes : List Text
disk_cache_modes =
    text "none" ∷ text "writeback" ∷ text "writethrough" ∷ text "directsync" ∷ text "unsafe" ∷ []

abbrev pub convertible_formats : List Text
convertible_formats = text "vhd" ∷ text "vhdx" ∷ text "vmdk" ∷ text "vdi" ∷ []

abbrev pub compressed_extensions : List Text
compressed_extensions =
    text ".gz"
    ∷ text ".xz"
    ∷ text ".7z"
    ∷ text ".zip"
    ∷ text ".bz2"
    ∷ text ".rar"
    ∷ text ".tar"
    ∷ text ".ova"
    ∷ []

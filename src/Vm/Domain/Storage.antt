-- ===== src/Vm/Domain/Storage.antt =====
-- app/vm.py, `_render_domain_xml`: the disks, the block devices and the two CD-ROM drives.
use docker_vm_runner.Base.{
  ℕ, ◌+◌, ◌-◌, Text, text, lower, is_empty, has_infix, length, not, ◌&&◌, ◌||◌, Option, none, some,
  List, [], ◌∷◌, ◌++◌, ◌==◌, text_eq, if◌then◌else◌, lookup, insert, show_nat,
}
use docker_vm_runner.Base.Dict.{Dict}
use docker_vm_runner.Constants.{Controller, disk_controllers}
use docker_vm_runner.Models.{VmConfig, DiskConfig, BlockDevice}
use docker_vm_runner.Xml.{Element, node, leaf, element_if}
use docker_vm_runner.Vm.Machine.{Machine, Surroundings}

-- `{dev: idx + 1 for idx, dev in enumerate(boot_order)}`
unfoldable pub priorities_from : ℕ → List Text → Dict ℕ → Dict ℕ
priorities_from n [] d = d
priorities_from n (dev ∷ devs) d = priorities_from (n + 1) devs (insert dev n d)

abbrev pub boot_order_priority : List Text → Dict ℕ
boot_order_priority order = priorities_from 1 order []

abbrev pub order_elements : Option ℕ → List Element
order_elements none = []
order_elements (some order) = leaf (text "boot") ((text "order", show_nat order) ∷ []) ∷ []

abbrev virtio_controller : Controller
virtio_controller = record { bus = text "virtio"; dev_prefix = text "vd" }

abbrev controller_or : Option Controller → Controller
controller_or none = virtio_controller
controller_or (some c) = c

-- `DISK_CONTROLLERS.get(name, DISK_CONTROLLERS["virtio"])`
unfoldable pub controller_of : Text → Controller
controller_of name = controller_or (lookup name disk_controllers)

-- The mode of the driver: asynchronous input and output does not work on two file systems.
pub record DiskMode : Type 0 where
  pub io : Text
  pub cache : Text

unfoldable pub disk_mode : VmConfig → Surroundings → DiskMode
disk_mode cfg host =
    let fs_type = lower host.filesystem_type in
    if not (cfg.disk_io == text "threads")
      && (has_infix fs_type (text "ecryptfs") || has_infix fs_type (text "tmpfs"))
    then record { io = text "threads"; cache = text "writeback" }
    else record { io = cfg.disk_io; cache = cfg.disk_cache }

-- `chr(ord("a") + offset)`
abbrev pub letter : ℕ → ℕ
letter offset = b'a' + offset

abbrev pub device_name : Text → ℕ → Text
device_name prefix offset = prefix ++ (letter offset ∷ [])

abbrev target_element : Text → Text → Element
target_element dev bus = leaf (text "target") ((text "dev", dev) ∷ (text "bus", bus) ∷ [])

abbrev disk_attributes : Text → Text → Dict Text
disk_attributes type device = (text "type", type) ∷ (text "device", device) ∷ []

module _ (cfg : VmConfig) (host : Surroundings) where
  abbrev controller : Controller
  controller = controller_of cfg.disk_controller

  iothread_attribute : Dict Text
  iothread_attribute =
      if cfg.io_thread && controller.bus == text "virtio"
      then (text "iothread", text "1") ∷ []
      else []

  unfoldable pub disk_driver : Element
  unfolding iothread_attribute
  disk_driver =
      let mode = disk_mode cfg host in
      leaf (text "driver") (
        (text "name", text "qemu")
        ∷ (text "type", cfg.image_format)
        ∷ (text "cache", mode.cache)
        ∷ (text "io", mode.io)
        ∷ iothread_attribute)

  unfoldable pub primary_disk : Text → Element
  primary_disk work_image = node (text "disk") (disk_attributes (text "file") (text "disk")) (
      disk_driver
      ∷ leaf (text "source") ((text "file", work_image) ∷ [])
      ∷ target_element (device_name controller.dev_prefix 0) controller.bus
      ∷ order_elements (lookup (text "hd") (boot_order_priority cfg.boot_order)))

  abbrev pub extra_disk_path : Text → DiskConfig → Text
  extra_disk_path vm_dir disk =
      vm_dir ++ (text "/disk" ++ (show_nat disk.index ++ (b'.' ∷ cfg.image_format)))

  -- Where the target letters of the disks count from; an index is at least 2, a device's at least 1.
  abbrev pub extra_disk_offset : DiskConfig → ℕ
  extra_disk_offset disk = disk.index - 1

  abbrev pub block_device_offset : BlockDevice → ℕ
  block_device_offset device = length cfg.extra_disks + device.index

  unfoldable pub extra_disk_element : Text → DiskConfig → Element
  extra_disk_element vm_dir disk =
      node (text "disk") (disk_attributes (text "file") (text "disk")) (
        disk_driver
        ∷ leaf (text "source") ((text "file", extra_disk_path vm_dir disk) ∷ [])
        ∷ target_element (device_name controller.dev_prefix (extra_disk_offset disk)) controller.bus
        ∷ [])

  abbrev sector_elements : Option Text → List Element
  sector_elements none = []
  sector_elements (some size) = element_if (not (is_empty size) && not (size == text "512")) (
      leaf (text "blockio")
        ((text "logical_block_size", size) ∷ (text "physical_block_size", size) ∷ []))

  unfoldable pub block_device_element : BlockDevice → Element
  block_device_element device = node (text "disk") (disk_attributes (text "block") (text "disk")) (
      leaf (text "driver")
        ((text "name", text "qemu") ∷ (text "type", text "raw") ∷ (text "cache", text "none") ∷ [])
      ∷ leaf (text "source") ((text "dev", device.path) ∷ [])
      ∷ target_element (device_name controller.dev_prefix (block_device_offset device))
          controller.bus
      ∷ sector_elements (host.sector_size device.path))

  abbrev extra_disks_of : Text → List DiskConfig → List Element
  extra_disks_of vm_dir [] = []
  extra_disks_of vm_dir (d ∷ ds) = extra_disk_element vm_dir d ∷ extra_disks_of vm_dir ds

  abbrev block_devices_of : List BlockDevice → List Element
  block_devices_of [] = []
  block_devices_of (d ∷ ds) = block_device_element d ∷ block_devices_of ds

  cdrom_element : Text → Text → List Element → Element
  cdrom_element path dev more = node (text "disk") (disk_attributes (text "file") (text "cdrom")) (
      leaf (text "driver") ((text "name", text "qemu") ∷ (text "type", text "raw") ∷ [])
      ∷ leaf (text "source") ((text "file", path) ∷ [])
      ∷ target_element dev (text "sata")
      ∷ leaf (text "readonly") []
      ∷ more)

  unfoldable pub seed_elements : Option Text → List Element
  unfolding cdrom_element
  seed_elements none = []
  seed_elements (some iso) = cdrom_element iso (text "sda") [] ∷ []

  unfoldable pub boot_iso_elements : Option Text → List Element
  unfolding cdrom_element
  boot_iso_elements none = []
  boot_iso_elements (some iso) =
      cdrom_element iso (text "sdb")
        (order_elements (lookup (text "cdrom") (boot_order_priority cfg.boot_order)))
      ∷ []

-- The devices from the controller to the boot ISO, in the order of the document.
unfoldable pub storage_elements : Machine → Surroundings → List Element
storage_elements m host =
    element_if (m.cfg.disk_controller == text "scsi") (
      leaf (text "controller")
        ((text "type", text "scsi") ∷ (text "model", text "virtio-scsi-pci") ∷ []))
    ++ (primary_disk m.cfg host m.work_image
        ∷ (extra_disks_of m.cfg host m.vm_dir m.cfg.extra_disks
            ++ (block_devices_of m.cfg host m.cfg.block_devices
                ++ (seed_elements m.cfg host m.seed_iso
                    ++ boot_iso_elements m.cfg host m.boot_iso))))

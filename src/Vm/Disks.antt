-- ===== src/Vm/Disks.antt =====
-- app/vm.py: the disks of the machine, with the checks of app/utils.py that come before.
pub mod Retained
pub mod Tests
use docker_vm_runner.Base.{
  ℕ, ltb, Text, text, lower, strip, ends_with, has_infix, show_nat, is_empty, length, ◌++◌, Bool,
  true, false, not, ◌&&◌, List, [], ◌∷◌, ℤ, int_is, int_le_nat, ◌==◌, text_eq, Result, Error,
  Reason, if◌then◌else◌,
}
use docker_vm_runner.Models.{VmConfig, DiskConfig}
use docker_vm_runner.Utils.Size.{parse_size_to_bytes}
use docker_vm_runner.Config.Filesystems.{path_name}
use docker_vm_runner.Effects.{
  exists, unlink, copy_file, file_size, free_space, run_command, query, capture, Done, Eff, pure,
  throw, ◌>>=◌, ◌>>◌, try_except, perform, get, modify, for_each,
}
use docker_vm_runner.Services.Libvirt.{is_os_error}
use docker_vm_runner.Vm.Machine.{Machine}
use docker_vm_runner.Vm.Manager.{Manager, from_result}

-- `except (CalledProcessError, FileNotFoundError)`, with the value to go on with.
abbrev pub on_command_error : {S A : Type 0} → A → Error → Eff S A
on_command_error value Error.called_process_error = pure value
on_command_error value Error.not_found_error = pure value
on_command_error value x = throw x

unfoldable pub detect_filesystem : {S : Type 0} → Text → Eff S Text
detect_filesystem path =
    try_except
      (perform (query (text "stat" ∷ text "-f" ∷ text "-c" ∷ text "%T" ∷ path ∷ [])) >>= λ found.
        pure (strip found))
      (on_command_error (text "unknown"))

-- What `lsattr` says is only logged.
unfoldable pub disable_cow : {S : Type 0} → Text → Eff S Done
disable_cow path = do
  changed ←
      try_except (perform (query (text "chattr" ∷ text "+C" ∷ path ∷ [])) >> pure true)
        (on_command_error false)
  if changed
      then try_except (perform (query (text "lsattr" ∷ text "-d" ∷ path ∷ [])) >> pure tt)
          (on_command_error tt)
      else pure tt

unfoldable pub check_filesystem_compatibility : {S : Type 0} → Text → Eff S Done
check_filesystem_compatibility path = do
  found ← detect_filesystem path
  if has_infix (lower found) (text "btrfs") then disable_cow path else pure tt

abbrev pub no_space_known : {S : Type 0} → Error → Eff S ℕ
no_space_known x = if is_os_error x then pure 0 else throw x

-- The space is compared for a warning alone.
unfoldable pub check_disk_space : {S : Type 0} → Text → Eff S Done
check_disk_space path = try_except (perform (free_space path)) no_space_known >> pure tt

-- `self.cfg.disk_size and self.cfg.disk_size != "0"`
abbrev pub has_disk_size : VmConfig → Bool
has_disk_size cfg = not (is_empty cfg.disk_size) && not (cfg.disk_size == text "0")

-- 100 MiB
abbrev pub smallest_disk : ℕ
smallest_disk = 104857600

abbrev pub set_reused : Bool → Manager → Manager
set_reused reused self = record self { disk_reused = reused }

abbrev pub info_command : Text → List Text
info_command image = text "qemu-img" ∷ text "info" ∷ text "--output=json" ∷ image ∷ []

abbrev pub resize_command : Text → Text → List Text
resize_command image size = text "qemu-img" ∷ text "resize" ∷ image ∷ size ∷ []

abbrev pub create_command : VmConfig → Text → Text → List Text
create_command cfg image size =
    text "qemu-img"
    ∷ text "create"
    ∷ text "-f"
    ∷ cfg.image_format
    ∷ ((if cfg.disk_preallocate then text "-o" ∷ text "preallocation=falloc" ∷ [] else [])
        ++ (image ∷ size ∷ []))

-- `unlink(missing_ok=True)`
abbrev pub ignore_missing_file : {S : Type 0} → Error → Eff S Done
ignore_missing_file Error.not_found_error = pure tt
ignore_missing_file x = throw x

abbrev pub is_iso_file : Text → Bool
is_iso_file path =
    ends_with (lower (path_name path)) (text ".iso") && ltb 4 (length (path_name path))

-- The parameter is the value of "virtual-size" in a JSON text, or 0 without it.
module _ (virtual_size : Text → Result ℕ) where
  -- Only to a larger size.
  unfoldable pub resize_to : Text → VmConfig → ℕ → Eff Manager Done
  resize_to image cfg current = do
    requested ← from_result (parse_size_to_bytes cfg.disk_size)
    if int_le_nat requested current
        then pure tt
        else perform (run_command (resize_command image cfg.disk_size))

  abbrev pub expand_by : Text → VmConfig → ℤ × Text → Eff Manager Done
  expand_by image cfg (status, output) =
      if int_is status 0
      then (from_result (virtual_size output) >>= λ current. resize_to image cfg current)
      else pure tt

  -- The disk of a former run.
  unfoldable pub expand_reused : Text → VmConfig → Eff Manager Done
  expand_reused image cfg =
      if has_disk_size cfg
      then (perform (capture (info_command image)) >>= expand_by image cfg)
      else pure tt

  unfoldable pub keep_or_remove : Text → VmConfig → Eff Manager Done
  keep_or_remove image cfg = do
    size ← perform (file_size image)
    if ltb smallest_disk size
        then (modify (set_reused true) >> expand_reused image cfg)
        else try_except (perform (unlink image)) ignore_missing_file

  unfoldable pub look_for_disk : Eff Manager Done
  look_for_disk = do
    modify (set_reused false)
    self ← get
    there ←
        (if self.machine.cfg.persist then perform (exists self.machine.work_image) else pure false)
    if there then keep_or_remove self.machine.work_image self.machine.cfg else pure tt

  abbrev pub grow_by : Text → VmConfig → ℤ × Text → Eff Manager Done
  grow_by image cfg (status, output) =
      if int_is status 0
      then (from_result (virtual_size output) >>= λ current. resize_to image cfg current)
      else resize_to image cfg 0

  unfoldable pub copy_base : Manager → Eff Manager Done
  copy_base self =
      if is_iso_file self.base_image
      then throw (Error.manager (Reason.base_is_iso self.base_image))
      else (do
        perform (copy_file self.base_image self.machine.work_image)
        if has_disk_size self.machine.cfg
            then (perform (capture (info_command self.machine.work_image))
                >>= grow_by self.machine.work_image self.machine.cfg)
            else pure tt)

  unfoldable pub create_disk : Manager → Eff Manager Done
  create_disk self =
      if self.machine.cfg.blank_work_disk
      then perform (
          run_command
            (create_command self.machine.cfg self.machine.work_image self.machine.cfg.disk_size))
      else copy_base self

  -- From the search for a former disk to the disk that is used.
  unfoldable pub settle_work_disk : Eff Manager Done
  settle_work_disk = do
    look_for_disk
    self ← get
    if self.disk_reused then pure tt else create_disk self

  abbrev extra_path : Manager → DiskConfig → Text
  extra_path self disk =
      self.machine.vm_dir
      ++ (text "/disk" ++ (show_nat disk.index ++ (b'.' ∷ self.machine.cfg.image_format)))

  unfoldable pub prepare_extra_disk : Manager → DiskConfig → Eff Manager Done
  prepare_extra_disk self disk = do
    there ← perform (exists (extra_path self disk))
    if there && self.machine.cfg.persist
        then pure tt
        else perform
            (run_command (create_command self.machine.cfg (extra_path self disk) disk.size))

  unfoldable pub prepare_extra_disks : Eff Manager Done
  prepare_extra_disks =
      get >>= λ self. for_each self.machine.cfg.extra_disks (prepare_extra_disk self)

  unfoldable pub prepare_work_image : Eff Manager Done
  prepare_work_image = do
    self ← get
    check_filesystem_compatibility self.machine.vm_dir
    if has_disk_size self.machine.cfg
        then (from_result (parse_size_to_bytes self.machine.cfg.disk_size) >>= λ required.
            check_disk_space self.machine.vm_dir)
        else pure tt
    settle_work_disk
    prepare_extra_disks

-- ===== src/Vm/Prepare.antt =====
-- app/vm.py: the decisions of `prepare` and `_prepare_firmware` before the domain is defined.
pub mod Laws
use docker_vm_runner.Base.{
  Text, text, is_empty, lookup, Bool, true, false, not, ◌&&◌, ◌||◌, Option, none, some, List, [],
  ◌∷◌, ◌++◌, contains, ◌==◌, text_eq, if◌then◌else◌, Result, ok, err, raise, or_raise, guard,
  Reason, Error, ◌>>=◌, ◌>>◌,
}
use docker_vm_runner.Constants.{Firmware, no_firmware, by_mode, flat, FirmwarePaths, ArchProfile}
use docker_vm_runner.Models.{VmConfig}
use docker_vm_runner.Host.{FileSystem}
use docker_vm_runner.Config.Ipxe.{without}
use docker_vm_runner.Vm.Domain.System.{is_host_model}

-- The processor model without KVM; the model that the host has becomes the profile's fallback.
unfoldable pub prepare_cpu_model : Bool → Bool → VmConfig → ArchProfile → Result Text
prepare_cpu_model kvm require cfg profile =
    if kvm
    then ok cfg.cpu_model
    else if require
    then raise (Reason.kvm_required [])
    else if is_host_model cfg.cpu_model
    then (if is_empty profile.tcg_fallback
        then raise (Reason.kvm_required cfg.cpu_model)
        else ok profile.tcg_fallback)
    else ok cfg.cpu_model

-- The boot order without the drive, and with the hard disk.
unfoldable pub installed_order : List Text → List Text
installed_order order =
    let devs = (if contains order (text "cdrom") then without (text "cdrom") order else order) in
    if contains devs (text "hd") then devs else text "hd" ∷ devs

-- What is booted: the ISO, if any, and the order.
pub record BootPlan : Type 0 where
  pub iso : Option Text
  pub boot_order : List Text

-- A disk that was installed before makes the ISO unnecessary.
unfoldable pub skip_installed_iso : Bool → Bool → Bool → BootPlan → BootPlan
skip_installed_iso reused installed force plan = elim plan.iso [
  | none ↦ plan
  | some iso ↦
      if reused && installed && not force
      then record { iso = none; boot_order = installed_order plan.boot_order }
      else plan
]

-- The firmware files of a machine: none for legacy boot, and by boot mode on x86_64.
unfoldable pub choose_firmware : VmConfig → ArchProfile → Result (Option FirmwarePaths)
choose_firmware cfg profile =
    if cfg.arch == text "x86_64"
    then (if cfg.boot_mode == text "legacy" then ok none else elim profile.firmware [
      | by_mode modes ↦
          or_raise (lookup cfg.boot_mode modes) (Reason.unknown_boot_mode cfg.boot_mode)
          >>= λ paths. ok (some paths)
      | _ ↦ raise (Reason.unknown_boot_mode cfg.boot_mode)
    ])
    else elim profile.firmware [
      | flat paths ↦ ok (some paths)
      | by_mode modes ↦ if is_empty modes then ok none else err (Error.key_error (text "loader"))
      | no_firmware ↦ ok none
    ]

-- The two paths that the domain refers to.
pub record Prepared : Type 0 where
  pub loader : Text
  pub vars : Text

abbrev pub vars_path : Text → VmConfig → Text
vars_path state_dir cfg = state_dir ++ (text "/firmware/" ++ (cfg.vm_name ++ text "-vars.fd"))

-- `extract` is `_extract_aavmf_deb`, and `copy` is `shutil.copy2` with the directory made before;
-- `none` stands for an error of the operating system or of the command.
module _ (F : FileSystem) (extract : F.State → Result F.State)
    (copy : F.State → Text → Text → Option F.State) (state_dir : Text) where
  -- The files of another architecture are extracted if one of them is missing.
  unfoldable pub fetch_firmware : F.State → VmConfig → FirmwarePaths → Result F.State
  fetch_firmware s cfg paths =
      if not (cfg.arch == text "x86_64")
        && (not (F.exists s paths.loader) || not (F.exists s paths.vars_template))
      then extract s
      else ok s

  -- The template is copied the first time.
  unfoldable pub copy_vars : F.State → VmConfig → FirmwarePaths → Result F.State
  copy_vars s cfg paths =
      if F.exists s (vars_path state_dir cfg)
      then ok s
      else elim (copy s paths.vars_template (vars_path state_dir cfg)) [
        | none ↦ err Error.os_error
        | some t ↦ ok t
      ]

  unfoldable pub install_firmware :
      F.State → VmConfig → Option FirmwarePaths → Result (Option Prepared × F.State)
  install_firmware s cfg none = ok (none, s)
  install_firmware s cfg (some paths) = do
    t ← fetch_firmware s cfg paths
    guard (F.exists t paths.loader) (Reason.path_missing paths.loader)
    guard (F.exists t paths.vars_template) (Reason.path_missing paths.vars_template)
    u ← copy_vars t cfg paths
    ok (some (record { loader = paths.loader; vars = vars_path state_dir cfg }), u)

  unfoldable pub prepare_firmware :
      F.State → VmConfig → ArchProfile → Result (Option Prepared × F.State)
  prepare_firmware s cfg profile = do
    chosen ← choose_firmware cfg profile
    install_firmware s cfg chosen

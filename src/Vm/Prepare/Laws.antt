-- ===== src/Vm/Prepare/Laws.antt =====
-- What the preparation leaves for the domain.
use docker_vm_runner.Base.{
  Text, text, list_beq, list_beq_iff, Bool, true, false, not, ◌&&◌, Option, none, some, List, [],
  ◌∷◌, ◌++◌, contains, All, ◌≡◌, refl, arith, ◌==◌, text_eq, eq_refl, inl, inr, Bool-cases, Result,
  ok, Reason, guard, guard-eq-ok, sym, subst, lookup, ◌≢◌, Option-cases, >>=-eq-ok, ok-inj,
  if◌then◌else◌, ap,
}
use docker_vm_runner.Base.Dict.{Dict}
use docker_vm_runner.Constants.{FirmwarePaths, ArchProfile, Firmware, no_firmware, by_mode, flat}
use docker_vm_runner.Models.{VmConfig}
use docker_vm_runner.Host.{FileSystem}
use docker_vm_runner.Config.Boot.Laws.{IsBootDevice, IsBootOrder, hd-IsBootDevice}
use docker_vm_runner.Config.Ipxe.{without}
use docker_vm_runner.Config.Ipxe.Laws.{without-valid}
use docker_vm_runner.Vm.Domain.System.{is_host_model, need_firmware}
use docker_vm_runner.Vm.Prepare.{
  prepare_cpu_model, installed_order, skip_installed_iso, choose_firmware, Prepared, fetch_firmware,
  copy_vars, vars_path, install_firmware, prepare_firmware,
}

-- Without KVM the model of the host is never kept: the model that results is another one, if the
-- fallback of the architecture is. With KVM the model is the configuration's.
pub prepare_cpu_model_sound :
    (kvm require : Bool) (cfg : VmConfig) (profile : ArchProfile) (model : Text)
    → is_host_model profile.tcg_fallback ≡ false
    → prepare_cpu_model kvm require cfg profile ≡ ok model
    → (kvm ≡ true → model ≡ cfg.cpu_model)
      × (kvm ≡ false → (require ≡ false) × (is_host_model model ≡ false))
unfolding prepare_cpu_model
prepare_cpu_model_sound kvm require cfg profile model h e = ground arith

without-contains : (name : Text) (devs : List Text) → contains (without name devs) name ≡ false
unfolding without contains
without-contains name [] = refl
without-contains name (dev ∷ devs) =
    ground (arith, without-contains name devs, list_beq_iff name dev, list_beq_iff dev name)

-- What the order is for a machine that was installed before: sound, with the disk and without the
-- drive.
pub record IsInstalledOrder (order : List Text) : Type 0 where
  pub sound : IsBootOrder order
  pub disk : contains order (text "hd") ≡ true
  pub no_drive : contains order (text "cdrom") ≡ false

hd-ne-cdrom : (text "cdrom" == text "hd") ≡ false
unfolding text list_beq
hd-ne-cdrom = refl

with_disk :
    (devs : List Text)
    → All IsBootDevice devs
    → contains devs (text "cdrom") ≡ false
    → IsInstalledOrder (if contains devs (text "hd") then devs else text "hd" ∷ devs)
unfolding contains
with_disk [] h c = record {
  sound = record { nonempty = refl; devices = (hd-IsBootDevice, tt) };
  disk = rw (eq_refl (text "hd")) refl;
  no_drive = rw hd-ne-cdrom refl;
}
with_disk (d ∷ devs) h c = elim (Bool-cases (contains (d ∷ devs) (text "hd"))) [
  | inl q ↦
      rw q (record { sound = record { nonempty = refl; devices = h }; disk = q; no_drive = c })
  | inr q ↦ rw q (record {
    sound = record { nonempty = refl; devices = (hd-IsBootDevice, h) };
    disk = rw (eq_refl (text "hd")) refl;
    no_drive = rw hd-ne-cdrom c;
  })
]

installed_order-IsInstalledOrder :
    (order : List Text) → IsBootOrder order → IsInstalledOrder (installed_order order)
unfolding installed_order
installed_order-IsInstalledOrder order h = elim (Bool-cases (contains order (text "cdrom"))) [
  | inl q ↦ rw q (
      with_disk (without (text "cdrom") order) (without-valid (text "cdrom") order h.devices)
        (without-contains (text "cdrom") order))
  | inr q ↦ rw q (with_disk order h.devices q)
]

-- Where an ISO is to be booted: skipping it for a machine that was installed before leaves a sound order with the hard disk
-- and without the drive; in every other case nothing changes.
pub skip_installed_iso_sound :
    (reused installed force : Bool) (iso : Text) (order : List Text)
    → IsBootOrder order
    → let plan =
        skip_installed_iso reused installed force (record { iso = some iso; boot_order = order }) in
      ((reused && installed && not force) ≡ true
        → (plan.iso ≡ none) × IsInstalledOrder plan.boot_order)
      × ((reused && installed && not force) ≡ false
          → plan ≡ record { iso = some iso; boot_order = order })
unfolding skip_installed_iso
skip_installed_iso_sound reused installed force iso order h =
    (λ q. rw q (refl, installed_order-IsInstalledOrder order h), λ q. rw q refl)

-- Whether firmware is chosen agrees with whether the domain needs it.
choose_firmware-need :
    (cfg : VmConfig) (profile : ArchProfile)
    → choose_firmware cfg profile ≡ ok none
    → need_firmware cfg profile ≡ false
unfolding choose_firmware need_firmware
choose_firmware-need cfg profile e = ground arith

-- The files that the tables give for the machine: by boot mode on x86_64, and by architecture
-- elsewhere.
pub data IsFirmwareOf (cfg : VmConfig) (profile : ArchProfile) (paths : FirmwarePaths)
    : Type 0 where
  of_mode :
      (modes : Dict FirmwarePaths)
      → cfg.arch ≡ text "x86_64"
      → profile.firmware ≡ by_mode modes
      → lookup cfg.boot_mode modes ≡ some paths
      → IsFirmwareOf cfg profile paths
  of_arch :
      cfg.arch ≢ text "x86_64" → profile.firmware ≡ flat paths → IsFirmwareOf cfg profile paths

x86_64_mode :
    (cfg : VmConfig) (profile : ArchProfile) (paths : FirmwarePaths) (firmware : Firmware)
    → profile.firmware ≡ firmware
    → cfg.arch ≡ text "x86_64"
    → choose_firmware cfg profile ≡ ok (some paths)
    → IsFirmwareOf cfg profile paths
unfolding choose_firmware
x86_64_mode cfg profile paths (by_mode modes) q a e =
    of_mode modes a q (ground (arith, list_beq_iff cfg.arch (text "x86_64"), eq_refl cfg.arch))
x86_64_mode cfg profile paths (flat other) q a e =
    absurd (ground (arith, list_beq_iff cfg.arch (text "x86_64"), eq_refl cfg.arch))
x86_64_mode cfg profile paths no_firmware q a e =
    absurd (ground (arith, list_beq_iff cfg.arch (text "x86_64"), eq_refl cfg.arch))

other_arch :
    (cfg : VmConfig) (profile : ArchProfile) (paths : FirmwarePaths) (firmware : Firmware)
    → profile.firmware ≡ firmware
    → (cfg.arch == text "x86_64") ≡ false
    → choose_firmware cfg profile ≡ ok (some paths)
    → IsFirmwareOf cfg profile paths
unfolding choose_firmware
other_arch cfg profile paths (by_mode modes) q a e = absurd (ground arith)
other_arch cfg profile paths (flat other) q a e =
    of_arch (λ b. cc (a, (list_beq_iff cfg.arch (text "x86_64")).1 b)) (ground arith)
other_arch cfg profile paths no_firmware q a e = absurd (ground arith)

choose_firmware-IsFirmwareOf :
    (cfg : VmConfig) (profile : ArchProfile) (paths : FirmwarePaths)
    → choose_firmware cfg profile ≡ ok (some paths)
    → IsFirmwareOf cfg profile paths
choose_firmware-IsFirmwareOf cfg profile paths e = elim (Bool-cases (cfg.arch == text "x86_64")) [
  | inl a ↦
      x86_64_mode cfg profile paths profile.firmware refl
        ((list_beq_iff cfg.arch (text "x86_64")).0 a) e
  | inr a ↦ other_arch cfg profile paths profile.firmware refl a e
]

-- What is documented of `shutil.copy2`: the destination is there afterwards, and so is all else that
-- was there.
pub record IsCopying (F : FileSystem) (copy : F.State → Text → Text → Option F.State) : Type 0 where
  pub copied : (s t : F.State) (p q : Text) → copy s p q ≡ some t → F.exists t q ≡ true
  pub stays :
      (s t : F.State) (p q r : Text)
      → copy s p q ≡ some t
      → F.exists s r ≡ true
      → F.exists t r ≡ true

module _ (F : FileSystem) (extract : F.State → Result F.State)
    (copy : F.State → Text → Text → Option F.State) (lawful : IsCopying F copy)
    (state_dir : Text) where
  -- The files of the machine: the loader of the tables and its own variables, both there.
  pub IsReady : VmConfig → ArchProfile → F.State → Prepared → Type 0
  IsReady cfg profile t f =
      (paths : FirmwarePaths) × IsFirmwareOf cfg profile paths
      × (f.loader ≡ paths.loader)
      × (f.vars ≡ state_dir ++ (text "/firmware/" ++ (cfg.vm_name ++ text "-vars.fd")))
      × (F.exists t f.loader ≡ true)
      × (F.exists t f.vars ≡ true)

  copy_vars-there :
      (s t : F.State) (cfg : VmConfig) (paths : FirmwarePaths)
      → copy_vars F extract copy state_dir s cfg paths ≡ ok t
      → F.exists s paths.loader ≡ true
      → (F.exists t paths.loader ≡ true) × (F.exists t (vars_path state_dir cfg) ≡ true)
  unfolding copy_vars
  copy_vars-there s t cfg paths e h = elim (Bool-cases (F.exists s (vars_path state_dir cfg))) [
    | inl there ↦
        let same : s ≡ t = ground (arith, there) in
        subst
          (λ u. (F.exists u paths.loader ≡ true) × (F.exists u (vars_path state_dir cfg) ≡ true))
          same (h, there)
    | inr absent ↦ elim (Option-cases (copy s paths.vars_template (vars_path state_dir cfg))) [
      | inl q ↦ absurd (ground (arith, absent, q))
      | inr (u, q) ↦
          let q2 : copy s paths.vars_template (vars_path state_dir cfg) ≡ some t =
            ground (arith, absent, q) in
          (
            lawful.stays s t paths.vars_template (vars_path state_dir cfg) paths.loader q2 h,
            lawful.copied s t paths.vars_template (vars_path state_dir cfg) q2,
          )
    ]
  ]

  install_firmware-some :
      (s t : F.State) (cfg : VmConfig) (profile : ArchProfile) (files : Option Prepared)
      (paths : FirmwarePaths)
      → IsFirmwareOf cfg profile paths
      → install_firmware F extract copy state_dir s cfg (some paths) ≡ ok (files, t)
      → (f : Prepared) × (files ≡ some f) × IsReady cfg profile t f
  unfolding install_firmware IsReady
  install_firmware-some s t cfg profile files paths known e =
      let (u, e1, r1) = >>=-eq-ok (fetch_firmware F extract copy state_dir s cfg paths) _ e in
      let (v, e2, r2) =
        >>=-eq-ok (guard (F.exists u paths.loader) (Reason.path_missing paths.loader)) _ r1 in
      let (w, e3, r3) =
        >>=-eq-ok (guard (F.exists u paths.vars_template) (Reason.path_missing paths.vars_template))
          _ r2 in
      let (x, e4, r4) = >>=-eq-ok (copy_vars F extract copy state_dir u cfg paths) _ r3 in
      let same = ap (λ o. o.1) (ok-inj r4) in
      let (loader, vars) = copy_vars-there u x cfg paths e4 (guard-eq-ok _ _ e2) in
      (
        record { loader = paths.loader; vars = vars_path state_dir cfg },
        sym (ap (λ o. o.0) (ok-inj r4)),
        (
          paths,
          known,
          refl,
          refl,
          subst (λ y. F.exists y paths.loader ≡ true) same loader,
          subst (λ y. F.exists y (vars_path state_dir cfg) ≡ true) same vars,
        ),
      )

  install_firmware-Ready :
      (s t : F.State) (cfg : VmConfig) (profile : ArchProfile) (files : Option Prepared)
      (chosen : Option FirmwarePaths)
      → need_firmware cfg profile ≡ true
      → choose_firmware cfg profile ≡ ok chosen
      → install_firmware F extract copy state_dir s cfg chosen ≡ ok (files, t)
      → (f : Prepared) × (files ≡ some f) × IsReady cfg profile t f
  install_firmware-Ready s t cfg profile files none n c e =
      absurd (cc (n, choose_firmware-need cfg profile c))
  install_firmware-Ready s t cfg profile files (some paths) n c e =
      install_firmware-some s t cfg profile files paths
        (choose_firmware-IsFirmwareOf cfg profile paths c) e

  -- If the domain needs firmware and its preparation succeeds, the manager has the loader that the
  -- tables give for the machine's architecture and boot mode and the machine's own variables below
  -- the directory of the state, and both are there afterwards, for a copy that behaves as documented.
  pub prepare_firmware-need :
      (s t : F.State) (cfg : VmConfig) (profile : ArchProfile) (files : Option Prepared)
      → need_firmware cfg profile ≡ true
      → prepare_firmware F extract copy state_dir s cfg profile ≡ ok (files, t)
      → (f : Prepared) × (files ≡ some f) × IsReady cfg profile t f
  unfolding prepare_firmware
  prepare_firmware-need s t cfg profile files n e =
      let (chosen, c, r) = >>=-eq-ok (choose_firmware cfg profile) _ e in
      install_firmware-Ready s t cfg profile files chosen n c r

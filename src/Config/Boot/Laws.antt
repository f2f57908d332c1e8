-- ===== src/Config/Boot/Laws.antt =====
-- The boot order that results, and when cloud-init is on.
use mathlib.Core.Path.{subst}
use docker_vm_runner.Base.{
  Text, text, list_beq, is_empty, Bool, true, false, not, ◌&&◌, none, List, [], ◌∷◌, contains, ◌≡◌,
  refl, arith, text_eq, eq_refl, All, Bool-cases, inl, inr, ok, Result-cases, >>=-eq-ok, ok-inj,
}
use docker_vm_runner.Utils.Env.{Env, get_env}
use docker_vm_runner.Config.Boot.{
  BootSource, boot_devices, boot_source, or_hard_disk, add_drive, check_devices, complete_order,
  cloud_init_of, parse_boot,
}

abbrev pub IsBootDevice : Text → Type 0
IsBootDevice dev = contains boot_devices dev ≡ true

check_devices_sound :
    (devs order : List Text) → check_devices devs ≡ ok order → All IsBootDevice order
unfolding check_devices
check_devices_sound [] [] e = tt
check_devices_sound [] (d ∷ order) e = cc
check_devices_sound (dev ∷ devs) order e = elim (Result-cases (check_devices devs)) [
  | inl (rest, r) ↦
      let both : (contains boot_devices dev ≡ true) × (order ≡ dev ∷ rest) = ground (arith, r) in
      rw both.1 (both.0, check_devices_sound devs rest r)
  | inr (x, r) ↦ absurd (ground (arith, r))
]

pub hd-IsBootDevice : IsBootDevice (text "hd")
unfolding text list_beq contains
hd-IsBootDevice = refl

cdrom-IsBootDevice : IsBootDevice (text "cdrom")
unfolding text list_beq contains
cdrom-IsBootDevice = refl

or_hard_disk-valid :
    (devs : List Text) → All IsBootDevice devs → All IsBootDevice (or_hard_disk devs)
unfolding or_hard_disk
or_hard_disk-valid [] h = (hd-IsBootDevice, tt)
or_hard_disk-valid (d ∷ devs) h = h

or_hard_disk-nonempty : (devs : List Text) → is_empty (or_hard_disk devs) ≡ false
unfolding or_hard_disk
or_hard_disk-nonempty [] = refl
or_hard_disk-nonempty (d ∷ devs) = refl

module _ (iso : Bool) (order : List Text) where
  add_drive-valid : All IsBootDevice order → All IsBootDevice (add_drive iso order)
  unfolding add_drive
  add_drive-valid h = elim (Bool-cases (iso && not (contains order (text "cdrom")))) [
    | inl e ↦ rw e (cdrom-IsBootDevice, h)
    | inr e ↦ rw e h
  ]

  add_drive-nonempty : is_empty order ≡ false → is_empty (add_drive iso order) ≡ false
  unfolding add_drive
  add_drive-nonempty h = ground arith

  add_drive-contains : iso ≡ true → contains (add_drive iso order) (text "cdrom") ≡ true
  unfolding add_drive contains
  add_drive-contains h = elim (Bool-cases (contains order (text "cdrom"))) [
    | inl e ↦ rw (h, e) e
    | inr e ↦ rw (h, e) (rw (eq_refl (text "cdrom")))
  ]

-- What a boot order has to be: not empty, and of known devices.
pub record IsBootOrder (order : List Text) : Type 0 where
  pub nonempty : is_empty order ≡ false
  pub devices : All IsBootDevice order

complete_order-IsBootOrder :
    (iso : Bool) (devs : List Text) → All IsBootDevice devs → IsBootOrder (complete_order iso devs)
unfolding complete_order
complete_order-IsBootOrder iso devs h = record {
  nonempty = add_drive-nonempty iso (or_hard_disk devs) (or_hard_disk-nonempty devs);
  devices = add_drive-valid iso (or_hard_disk devs) (or_hard_disk-valid devs h);
}

complete_order-cdrom :
    (iso : Bool) (devs : List Text)
    → iso ≡ true
    → contains (complete_order iso devs) (text "cdrom") ≡ true
unfolding complete_order
complete_order-cdrom iso devs h = add_drive-contains iso (or_hard_disk devs) h

boot_source-order :
    (env : Env) (devs : List Text)
    → (boot_source env devs).boot_order ≡ complete_order (boot_source env devs).iso_requested devs
unfolding boot_source
boot_source-order env devs = refl

-- What the boot settings promise.
pub record IsBootSettings (env : Env) (b : BootSource) : Type 0 where
  pub order : IsBootOrder b.boot_order
  pub drive : b.iso_requested ≡ true → contains b.boot_order (text "cdrom") ≡ true
  pub cloud_init :
      get_env env (text "CLOUD_INIT") ≡ none → b.cloud_init_enabled ≡ not b.iso_requested

boot_source-IsBootSettings :
    (env : Env) (devs : List Text)
    → All IsBootDevice devs
    → IsBootSettings env (boot_source env devs)
unfolding boot_source cloud_init_of
boot_source-IsBootSettings env devs h = record {
  order = complete_order-IsBootOrder _ devs h;
  drive = λ e. complete_order-cdrom _ devs e;
  cloud_init = λ e. rw e;
}

-- The boot settings that are read have an order that is not empty and names known devices only;
-- for an ISO the drive is in the order; and where CLOUD_INIT is not set, cloud-init is on exactly
-- if no ISO is booted.
pub parse_boot-IsBootSettings :
    (env : Env) (b : BootSource) → parse_boot env ≡ ok b → IsBootSettings env b
unfolding parse_boot
parse_boot-IsBootSettings env b e =
    let (devs, r, q) = >>=-eq-ok (check_devices _) (λ devs. ok (boot_source env devs)) e in
    subst (IsBootSettings env) (ok-inj q)
      (boot_source-IsBootSettings env devs (check_devices_sound _ devs r))

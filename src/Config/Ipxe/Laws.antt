-- ===== src/Config/Ipxe/Laws.antt =====
-- The boot order for a network boot: the network first, and the other devices as they were.
use docker_vm_runner.Base.{
  Text, text, Bool, true, false, contains, ◌==◌, text_eq, list_beq_iff, Option, some, List, [], ◌∷◌,
  All, ◌≡◌, refl, ap, arith, inl, inr, Bool-cases, ok, >>=-eq-ok, ok-inj, guard, guard-eq-ok,
  Reason, list_beq,
}
use docker_vm_runner.Models.{NicConfig}
use docker_vm_runner.Host.{FileSystem}
use docker_vm_runner.Config.Boot.Laws.{IsBootDevice, IsBootOrder}
use docker_vm_runner.Config.Ipxe.{without, network_first, NetworkBoot, choose_rom, apply_ipxe}

without_idem :
    (name : Text) (devs : List Text) → without name (without name devs) ≡ without name devs
unfolding without
without_idem name [] = refl
without_idem name (dev ∷ devs) = elim (Bool-cases (dev == name)) [
  | inl e ↦ rw e (without_idem name devs)
  | inr e ↦ rw e (rw e (ap (λ t. dev ∷ t) (without_idem name devs)))
]

without-absent :
    (name : Text) (devs : List Text) → contains devs name ≡ false → without name devs ≡ devs
unfolding without contains
without-absent name [] h = refl
without-absent name (dev ∷ devs) h =
    ground (arith, without-absent name devs, list_beq_iff name dev, list_beq_iff dev name)

-- The network is the first device, and the other devices keep their order.
pub network_first-shape :
    (order : List Text) → network_first order ≡ text "network" ∷ without (text "network") order
unfolding network_first
network_first-shape order = elim (Bool-cases (contains order (text "network"))) [
  | inl e ↦ rw e refl
  | inr e ↦ rw e (ap (λ t. text "network" ∷ t) (mathlib.Core.Path.sym (without-absent _ order e)))
]

pub without-valid :
    (name : Text) (devs : List Text) → All IsBootDevice devs → All IsBootDevice (without name devs)
unfolding without
without-valid name [] h = tt
without-valid name (dev ∷ devs) (p, h) = elim (Bool-cases (dev == name)) [
  | inl e ↦ rw e (without-valid name devs h)
  | inr e ↦ rw e (p, without-valid name devs h)
]

network-IsBootDevice : IsBootDevice (text "network")
unfolding text list_beq contains
network-IsBootDevice = refl

network_first-IsBootOrder :
    (order : List Text) → IsBootOrder order → IsBootOrder (network_first order)
network_first-IsBootOrder order h = rw (network_first-shape order) (record {
  nonempty = refl;
  devices = (network-IsBootDevice, without-valid (text "network") order h.devices);
})

-- What the settings for a network boot promise of an order that was sound before.
pub record IsNetworkBoot (F : FileSystem) (s : F.State) (enabled : Bool) (order : List Text)
    (nb : NetworkBoot) : Type 0 where
  pub order_sound : IsBootOrder nb.boot_order
  pub disabled : enabled ≡ false → nb.boot_order ≡ order
  pub network : enabled ≡ true → nb.boot_order ≡ text "network" ∷ without (text "network") order
  pub primary : enabled ≡ true → nb.primary.boot ≡ true
  pub rom : enabled ≡ true → (path : Text) × (nb.rom_path ≡ some path) × (F.exists s path ≡ true)

-- After the settings for a network boot an order that was sound is sound. If no such boot is asked
-- for, the order stays; if it is, the network comes first and the other devices keep their order, the primary interface boots, and the ROM exists.
pub apply_ipxe-IsNetworkBoot :
    (F : FileSystem) (s : F.State) (enabled : Bool) (override : Option Text) (arch : Text)
    (order : List Text) (nic : NicConfig) (nb : NetworkBoot)
    → IsBootOrder order
    → apply_ipxe F s enabled override arch order nic ≡ ok nb
    → IsNetworkBoot F s enabled order nb
unfolding apply_ipxe
apply_ipxe-IsNetworkBoot F s false override arch order nic nb h e =
    mathlib.Core.Path.subst (IsNetworkBoot F s false order) (ok-inj e) (record {
      order_sound = h;
      disabled = λ q. refl;
      network = λ q. absurd (cc);
      primary = λ q. absurd (cc);
      rom = λ q. absurd (cc);
    })
apply_ipxe-IsNetworkBoot F s true override arch order nic nb h e =
    let (rom, e1, r1) = >>=-eq-ok (choose_rom override arch nic.model) _ e in
    let (u, e2, r2) = >>=-eq-ok (guard (F.exists s rom) (Reason.path_missing rom)) _ r1 in
    mathlib.Core.Path.subst (IsNetworkBoot F s true order) (ok-inj r2) (record {
      order_sound = network_first-IsBootOrder order h;
      disabled = λ q. absurd (cc);
      network = λ q. network_first-shape order;
      primary = λ q. refl;
      rom = λ q. (rom, refl, guard-eq-ok _ _ e2);
    })

-- ===== src/Vm/Domain/Laws.antt =====
-- When the domain can be rendered, and that its interfaces keep their addresses.
use docker_vm_runner.Base.{
  ℕ, ◌+◌, Text, text, is_empty, lookup, insert, true, false, Option, some, List, [], ◌∷◌, All, ◌≡◌,
  refl, text_eq, nat_eq, Result-cases, list_beq, arith, inl, inr, ◌⊎◌, Bool-cases, Result, ok,
  ◌>>=◌,
}
use docker_vm_runner.Models.{NicConfig}
use docker_vm_runner.Xml.{Element}
use docker_vm_runner.Network.{
  InterfaceOptions, interface_mac, render_interface, render_network_xml, with_name, interface,
  user_children, host_children, bridge_interface, direct_interface,
}
use docker_vm_runner.Vm.Machine.{Machine, Surroundings}
use docker_vm_runner.Vm.Domain.{render_domain_xml}
use docker_vm_runner.Vm.Domain.Devices.{interface_options, interface_elements}
use docker_vm_runner.Vm.Domain.System.{need_firmware, os_element}

-- The name that a mode needs is neither missing nor empty.
abbrev HasName : Option Text → Type 0
HasName name = (n : Text) × (name ≡ some n) × (is_empty n ≡ false)

abbrev pub IsRenderable : NicConfig → Type 0
IsRenderable nic =
    (nic.mode ≡ text "user")
    ⊎ (((nic.mode ≡ text "bridge") × HasName nic.bridge_name)
        ⊎ ((nic.mode ≡ text "direct") × HasName nic.direct_device))

-- A domain that needs firmware has it prepared.
abbrev pub HasFirmware : Machine → Type 0
HasFirmware m =
    need_firmware m.cfg m.arch_profile ≡ true
    → ((l : Text) × (m.firmware_loader_path ≡ some l))
      × ((v : Text) × (m.firmware_vars_path ≡ some v))

with_name-ok :
    (name : Option Text) (variable : Text) (f : Text → Element)
    → HasName name
    → (el : Element) × (with_name name variable f ≡ ok el)
with_name-ok name variable f (n, e, h) = (f n, rw e (rw h refl))

module _ (nic : NicConfig) (o : InterfaceOptions) (mac : Text) where
  render_interface-ok : IsRenderable nic → (el : Element) × (render_interface nic o mac ≡ ok el)
  unfolding render_interface text list_beq host_children
  render_interface-ok (inl q) = (interface (text "user") (user_children nic o mac), rw q refl)
  render_interface-ok (inr (inl (q, h))) =
      let (el, k) =
        with_name-ok nic.bridge_name (text "NETWORK_BRIDGE") (bridge_interface nic o mac) h in
      (el, rw q k)
  render_interface-ok (inr (inr (q, h))) =
      let (el, k) =
        with_name-ok nic.direct_device (text "NETWORK_DIRECT_DEV") (direct_interface nic o mac) h in
      (el, rw q k)

os_element-ok : (m : Machine) → HasFirmware m → (el : Element) × (os_element m ≡ ok el)
unfolding os_element
os_element-ok m h = elim (Result-cases (os_element m)) [
  | inl found ↦ found
  | inr (x, r) ↦ elim (Bool-cases (need_firmware m.cfg m.arch_profile)) [
    | inl q ↦ let ((l, e), (v, k)) = h q in absurd (ground (arith, r, q, e, k))
    | inr q ↦ absurd (ground (arith, r, q))
  ]
]

bind-ok {ℓ κ} :
    {A : Type ℓ} {B : Type κ} (m : Result A) (f : A → Result B)
    → ((a : A) × (m ≡ ok a))
    → ((a : A) → (b : B) × (f a ≡ ok b))
    → (b : B) × ((m >>= f) ≡ ok b)
bind-ok m f (a, e) h = let (b, k) = h a in (b, rw e k)

module _ (m : Machine) (host : Surroundings) where
  interface_elements-ok :
      (idx : ℕ) (nics : List NicConfig) (macs : List (ℕ × Text))
      → All IsRenderable nics
      → (out : List Element × List (ℕ × Text)) × (interface_elements m host idx nics macs ≡ ok out)
  unfolding interface_elements render_network_xml
  interface_elements-ok idx [] macs h = (([], macs), refl)
  interface_elements-ok idx (nic ∷ nics) macs (p, h) =
      let o = interface_options m host idx nic (lookup idx macs) in
      let mac = interface_mac nic o (host.random_mac idx) in
      bind-ok (render_network_xml nic o (host.random_mac idx)) _
        (bind-ok (render_interface nic o mac) _ (render_interface-ok nic o mac p)
          (λ el. ((el, mac), refl)))
        (λ found.
          bind-ok (interface_elements m host (idx + 1) nics (insert idx found.1 macs)) _
            (interface_elements-ok (idx + 1) nics (insert idx found.1 macs) h) (λ rest. (_, refl)))

  -- The description of a machine is rendered whenever the firmware that it needs is prepared and
  -- each interface in bridge or direct mode has the name that its mode needs.
  pub render_domain_xml-total :
      HasFirmware m
      → All IsRenderable m.cfg.nics
      → (out : Element × List (ℕ × Text)) × (render_domain_xml m host ≡ ok out)
  unfolding render_domain_xml
  render_domain_xml-total f h = bind-ok (os_element m) _ (os_element-ok m f) λ os.
      bind-ok (interface_elements m host 0 m.cfg.nics m.network_macs) _
        (interface_elements-ok 0 m.cfg.nics m.network_macs h) λ found. (_, refl)

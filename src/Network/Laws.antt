-- ===== src/Network/Laws.antt =====
-- What stands in the description of an interface.
use mathlib.Core.Path.{subst}
use docker_vm_runner.Base.{
  ℕ, ℤ, Text, text, list_beq, is_empty, lookup, show_nat, Bool, false, Option, none, some, List, [],
  ◌∷◌, ◌++◌, ◌≡◌, refl, ap, ◌∙◌, ◌==◌, text_eq, arith, inl, inr, Bool-cases, ok, >>=-eq-ok, ok-inj,
  list_beq_iff,
}
use docker_vm_runner.Models.{PortForward, NicConfig}
use docker_vm_runner.Xml.{
  Element, element_if, tag_of, children_of, attribute, tagged, children-node,
}
use docker_vm_runner.Network.{
  InterfaceOptions, interface_mac, interface, mac_element, mtu_elements, boot_elements,
  rom_elements, ssh_elements, forward_element, forward_elements, user_children, host_children,
  with_name, render_interface, render_network_xml,
}

-- The host and the guest side of a forwarded range.
abbrev first_range : List Element → Option Text × Option Text
first_range [] = (none, none)
first_range (r ∷ rest) = (attribute (text "start") r, attribute (text "to") r)

abbrev ranges : List Element → List (Option Text × Option Text)
ranges [] = []
ranges (e ∷ es) = first_range (children_of e) ∷ ranges es

abbrev attributes : Text → List Element → List (Option Text)
attributes name [] = []
attributes name (e ∷ es) = attribute name e ∷ attributes name es

-- What is read off a description: its forwards, addresses and boot orders.
abbrev pub forwarded : Element → List (Option Text × Option Text)
forwarded e = ranges (tagged (text "portForward") (children_of e))

abbrev pub addresses : Element → List (Option Text)
addresses e = attributes (text "address") (tagged (text "mac") (children_of e))

abbrev pub boot_orders : Element → List (Option Text)
boot_orders e = attributes (text "order") (tagged (text "boot") (children_of e))

-- What the options ask for: port 22 for SSH first, then each forward in turn.
abbrev pub asked_forwards : List PortForward → List (Option Text × Option Text)
asked_forwards [] = []
asked_forwards (pf ∷ pfs) =
    (some (show_nat pf.host_port), some (show_nat pf.guest_port)) ∷ asked_forwards pfs

abbrev pub asked_ranges : Option ℕ → List PortForward → List (Option Text × Option Text)
asked_ranges none pfs = asked_forwards pfs
asked_ranges (some ssh) pfs = (some (show_nat ssh), some (text "22")) ∷ asked_forwards pfs

abbrev pub asked_order : Option ℕ → List (Option Text)
asked_order none = []
asked_order (some n) = some (show_nat n) ∷ []

module _ (tag : Text) where
  tagged-append : (es fs : List Element) → tagged tag (es ++ fs) ≡ tagged tag es ++ tagged tag fs
  unfolding tagged
  tagged-append [] fs = refl
  tagged-append (e ∷ es) fs = elim (Bool-cases (tag_of e == tag)) [
    | inl q ↦ rw q (ap (λ t. e ∷ t) (tagged-append es fs))
    | inr q ↦ rw q (tagged-append es fs)
  ]

  -- Elements with other tags are passed over.
  skip : (es fs : List Element) → tagged tag es ≡ [] → tagged tag (es ++ fs) ≡ tagged tag fs
  skip es fs h = tagged-append es fs ∙ ap (λ t. t ++ tagged tag fs) h

module _ (o : InterfaceOptions) (b : Bool) (e : Element) where
  if_none : (tag : Text) → (tag_of e == tag) ≡ false → tagged tag (element_if b e) ≡ []
  unfolding tagged
  if_none tag h = elim (Bool-cases b) [ inl q ↦ rw (q, h) refl | inr q ↦ rw q refl ]

mtu_none :
    (tag : Text) (mtu : Option ℤ) → (text "mtu" == tag) ≡ false → tagged tag (mtu_elements mtu) ≡ []
unfolding mtu_elements tagged
mtu_none tag none h = refl
mtu_none tag (some m) h = ground (arith, h)

rom_none :
    (tag : Text) (rom : Option Text)
    → (text "rom" == tag) ≡ false
    → tagged tag (rom_elements rom) ≡ []
unfolding rom_elements tagged
rom_none tag none h = refl
rom_none tag (some m) h = ground (arith, h)

boot_none :
    (tag : Text) (order : Option ℕ)
    → (text "boot" == tag) ≡ false
    → tagged tag (boot_elements order) ≡ []
unfolding boot_elements tagged
boot_none tag none h = refl
boot_none tag (some n) h = ground (arith, h)

forwards_ranges :
    (pfs : List PortForward)
    → ranges (tagged (text "portForward") (forward_elements pfs)) ≡ asked_forwards pfs
unfolding tagged forward_elements forward_element text list_beq lookup
forwards_ranges [] = refl
forwards_ranges (pf ∷ pfs) =
    ap (λ t. (some (show_nat pf.host_port), some (show_nat pf.guest_port)) ∷ t)
      (forwards_ranges pfs)

ssh_ranges :
    (ssh : Option ℕ) (pfs : List PortForward)
    → ranges (tagged (text "portForward") (ssh_elements ssh ++ forward_elements pfs))
      ≡ asked_ranges ssh pfs
unfolding tagged ssh_elements forward_element text list_beq lookup
ssh_ranges none pfs = forwards_ranges pfs
ssh_ranges (some n) pfs = ap (λ t. (some (show_nat n), some (text "22")) ∷ t) (forwards_ranges pfs)

one_none : (tag : Text) (e : Element) → (tag_of e == tag) ≡ false → tagged tag (e ∷ []) ≡ []
unfolding tagged
one_none tag e h = rw h refl

no_mac_forward : (pfs : List PortForward) → tagged (text "mac") (forward_elements pfs) ≡ []
unfolding tagged forward_elements forward_element text list_beq
no_mac_forward [] = refl
no_mac_forward (pf ∷ pfs) = no_mac_forward pfs

no_mac :
    (ssh : Option ℕ) (pfs : List PortForward)
    → tagged (text "mac") (ssh_elements ssh ++ forward_elements pfs) ≡ []
unfolding tagged ssh_elements forward_element text list_beq
no_mac none pfs = no_mac_forward pfs
no_mac (some n) pfs = no_mac_forward pfs

module _ (nic : NicConfig) (o : InterfaceOptions) (mac : Text) where
  user-forwards :
      ranges (tagged (text "portForward") (user_children nic o mac))
      ≡ asked_ranges o.ssh_port o.port_forwards
  unfolding user_children tagged text list_beq
  user-forwards =
      ap ranges (
        skip (text "portForward") (boot_elements o.boot_order) _ (boot_none _ o.boot_order refl)
        ∙ skip (text "portForward") (element_if o.ipv6_enabled _) _
            (if_none o o.ipv6_enabled _ _ refl)
        ∙ skip (text "portForward") (mtu_elements nic.mtu) _ (mtu_none _ nic.mtu refl)
        ∙ skip (text "portForward") (rom_elements o.rom_file) _ (rom_none _ o.rom_file refl))
      ∙ ssh_ranges o.ssh_port o.port_forwards

  host-forwards :
      (source : Element)
      → (tag_of source == text "portForward") ≡ false
      → tagged (text "portForward") (host_children nic o mac source) ≡ []
  unfolding host_children tagged text list_beq
  host-forwards source h =
      skip (text "portForward") (boot_elements o.boot_order) _ (boot_none _ o.boot_order refl)
      ∙ skip (text "portForward") (element_if (nic.model == text "virtio") _) _
          (if_none o (nic.model == text "virtio") _ _ refl)
      ∙ skip (text "portForward") (mtu_elements nic.mtu) _ (mtu_none _ nic.mtu refl)
      ∙ skip (text "portForward") (rom_elements o.rom_file) _ (rom_none _ o.rom_file refl)
      ∙ one_none _ source h

  user-address :
      attributes (text "address") (tagged (text "mac") (user_children nic o mac)) ≡ some mac ∷ []
  unfolding user_children tagged text list_beq lookup
  user-address = ap (attributes (text "address")) (
      skip (text "mac") (boot_elements o.boot_order) _ (boot_none _ o.boot_order refl)
      ∙ ap (λ t. mac_element mac ∷ t)
          (skip (text "mac") (element_if o.ipv6_enabled _) _ (if_none o o.ipv6_enabled _ _ refl)
            ∙ skip (text "mac") (mtu_elements nic.mtu) _ (mtu_none _ nic.mtu refl)
            ∙ skip (text "mac") (rom_elements o.rom_file) _ (rom_none _ o.rom_file refl)
            ∙ no_mac o.ssh_port o.port_forwards))

  host-address :
      (source : Element)
      → (tag_of source == text "mac") ≡ false
      → attributes (text "address") (tagged (text "mac") (host_children nic o mac source))
        ≡ some mac ∷ []
  unfolding host_children tagged text list_beq lookup
  host-address source h = ap (attributes (text "address")) (
      skip (text "mac") (boot_elements o.boot_order) _ (boot_none _ o.boot_order refl)
      ∙ ap (λ t. mac_element mac ∷ t)
          (skip (text "mac") (element_if (nic.model == text "virtio") _) _
              (if_none o (nic.model == text "virtio") _ _ refl)
            ∙ skip (text "mac") (mtu_elements nic.mtu) _ (mtu_none _ nic.mtu refl)
            ∙ skip (text "mac") (rom_elements o.rom_file) _ (rom_none _ o.rom_file refl)
            ∙ one_none _ source h))

-- An interface as it was asked for: forwards in user mode only, and the one address.
pub record IsRendered (nic : NicConfig) (o : InterfaceOptions) (random : Text) (el : Element)
    (mac : Text) : Type 0 where
  pub mac_chosen : mac ≡ interface_mac nic o random
  pub address : addresses el ≡ some mac ∷ []
  pub user : nic.mode ≡ text "user" → forwarded el ≡ asked_ranges o.ssh_port o.port_forwards
  pub other : (nic.mode == text "user") ≡ false → forwarded el ≡ []

-- What a mode needs to be rendered.
abbrev HasName : Option Text → Type 0
HasName name = (n : Text) × (name ≡ some n) × (is_empty n ≡ false)

with_name-eq-ok :
    (name : Option Text) (variable : Text) (f : Text → Element) (el : Element)
    → with_name name variable f ≡ ok el
    → (n : Text) × (el ≡ f n)
with_name-eq-ok none variable f el e = cc
with_name-eq-ok (some n) variable f el e = (n, ground arith)

module _ (nic : NicConfig) (o : InterfaceOptions) (random : Text) where
  user-IsRendered :
      nic.mode ≡ text "user"
      → IsRendered nic o random
          (interface (text "user") (user_children nic o (interface_mac nic o random)))
          (interface_mac nic o random)
  user-IsRendered m =
      let mac = interface_mac nic o random in
      record {
        mac_chosen = refl;
        address = rw (children-node (user_children nic o mac)) (user-address nic o mac);
        user = λ q. rw (children-node (user_children nic o mac)) (user-forwards nic o mac);
        other = λ q. absurd (ground (arith, list_beq_iff nic.mode (text "user")));
      }

  host-IsRendered :
      (type : Text) (source : Element)
      → (nic.mode == text "user") ≡ false
      → (tag_of source == text "portForward") ≡ false
      → (tag_of source == text "mac") ≡ false
      → IsRendered nic o random
          (interface type (host_children nic o (interface_mac nic o random) source))
          (interface_mac nic o random)
  host-IsRendered type source m h k =
      let mac = interface_mac nic o random in
      record {
        mac_chosen = refl;
        address =
            rw (children-node (host_children nic o mac source)) (host-address nic o mac source k);
        user = λ q. absurd (ground (arith, list_beq_iff nic.mode (text "user")));
        other = λ q.
            rw (children-node (host_children nic o mac source))
              (ap ranges (host-forwards nic o mac source h));
      }

  render_interface-IsRendered :
      (el : Element)
      → render_interface nic o (interface_mac nic o random) ≡ ok el
      → IsRendered nic o random el (interface_mac nic o random)
  unfolding render_interface text list_beq
  render_interface-IsRendered el e = elim (Bool-cases (nic.mode == text "user")) [
    | inl q ↦
        subst (λ t. IsRendered nic o random t (interface_mac nic o random)) (ok-inj (rw q at e))
          (user-IsRendered ((list_beq_iff nic.mode (text "user")).0 q))
    | inr q ↦ elim (Bool-cases (nic.mode == text "bridge")) [
      | inl b ↦
          let (n, same) = with_name-eq-ok nic.bridge_name _ _ el (rw (q, b) at e) in
          rw same (host-IsRendered _ _ q refl refl)
      | inr b ↦ elim (Bool-cases (nic.mode == text "direct")) [
        | inl d ↦
            let (n, same) = with_name-eq-ok nic.direct_device _ _ el (rw (q, b, d) at e) in
            rw same (host-IsRendered _ _ q refl refl)
        | inr d ↦ absurd (cc (rw (q, b, d) at e))
      ]
    ]
  ]

  -- A rendered interface has one address, the one that is returned: in lower case, of the machine
  -- or else of the configuration or else drawn. In user mode SSH and the forwards are in it, in
  -- their order, and in no other mode is there any forward.
  pub render_network_xml-IsRendered :
      (el : Element) (mac : Text)
      → render_network_xml nic o random ≡ ok (el, mac)
      → IsRendered nic o random el mac
  unfolding render_network_xml
  render_network_xml-IsRendered el mac e =
      let (iface, e1, r1) = >>=-eq-ok (render_interface nic o (interface_mac nic o random)) _ e in
      subst (λ t. IsRendered nic o random t.0 t.1) (ok-inj r1)
        (render_interface-IsRendered iface e1)

-- ===== src/Network.antt =====
-- app/network.py: the description of an interface for libvirt, as an element tree.
pub mod Laws
use docker_vm_runner.Base.{
  ℕ, ℤ, pos, negsuc, Text, text, lower, is_empty, Bool, true, false, not, Option, none, some, List,
  [], ◌∷◌, ◌++◌, map, ◌==◌, nat_eq, text_eq, if◌then◌else◌, show_nat, show_int, Result, ok, raise,
  Reason, ◌>>=◌,
}
use docker_vm_runner.Models.{PortForward, NicConfig}
use docker_vm_runner.Xml.{Element, node, leaf, element_if}

-- The arguments of `render_network_xml` other than the configuration.
pub record InterfaceOptions : Type 0 where
  pub ssh_port : Option ℕ
  pub mac_address : Option Text
  pub boot_order : Option ℕ
  pub rom_file : Option Text
  pub port_forwards : List PortForward
  pub ipv6_enabled : Bool

-- `a or b`, for texts that may be missing.
abbrev pub first_of : Option Text → Text → Text
first_of none other = other
first_of (some t) other = if is_empty t then other else t

-- `(mac_address or config.mac_address or random_mac()).lower()`
unfoldable pub interface_mac : NicConfig → InterfaceOptions → Text → Text
interface_mac nic o random = lower (first_of o.mac_address (first_of nic.mac_address random))

is_default_mtu : ℤ → Bool
is_default_mtu (pos n) = n == 1500
is_default_mtu (negsuc n) = false

-- `_add_mtu`
unfoldable pub mtu_elements : Option ℤ → List Element
unfolding is_default_mtu
mtu_elements none = []
mtu_elements (some mtu) =
    element_if (not (is_default_mtu mtu)) (leaf (text "mtu") ((text "size", show_int mtu) ∷ []))

unfoldable pub boot_elements : Option ℕ → List Element
boot_elements none = []
boot_elements (some order) = leaf (text "boot") ((text "order", show_nat order) ∷ []) ∷ []

unfoldable pub rom_elements : Option Text → List Element
rom_elements none = []
rom_elements (some rom) =
    element_if (not (is_empty rom)) (leaf (text "rom") ((text "file", rom) ∷ []))

abbrev pub mac_element : Text → Element
mac_element mac = leaf (text "mac") ((text "address", mac) ∷ [])

abbrev pub model_element : Text → Element
model_element model = leaf (text "model") ((text "type", model) ∷ [])

unfoldable pub forward_element : Text → Text → Element
forward_element start to =
    node (text "portForward") ((text "proto", text "tcp") ∷ [])
      (leaf (text "range") ((text "start", start) ∷ (text "to", to) ∷ []) ∷ [])

unfoldable pub ssh_elements : Option ℕ → List Element
ssh_elements none = []
ssh_elements (some port) = forward_element (show_nat port) (text "22") ∷ []

unfoldable pub forward_elements : List PortForward → List Element
forward_elements [] = []
forward_elements (pf ∷ pfs) =
    forward_element (show_nat pf.host_port) (show_nat pf.guest_port) ∷ forward_elements pfs

module _ (nic : NicConfig) (o : InterfaceOptions) (mac : Text) where
  unfoldable pub user_children : List Element
  user_children =
      boot_elements o.boot_order
      ++ (mac_element mac
          ∷ leaf (text "backend") ((text "type", text "passt") ∷ [])
          ∷ leaf (text "ip") (
              (text "family", text "ipv4")
              ∷ (text "address", text "10.0.2.15")
              ∷ (text "prefix", text "24")
              ∷ [])
          ∷ (element_if o.ipv6_enabled (
                leaf (text "ip") (
                  (text "family", text "ipv6")
                  ∷ (text "address", text "fec0::2")
                  ∷ (text "prefix", text "64")
                  ∷ []))
              ++ (model_element nic.model
                  ∷ (mtu_elements nic.mtu
                      ++ (rom_elements o.rom_file
                          ++ (ssh_elements o.ssh_port ++ forward_elements o.port_forwards))))))

  -- Bridge and direct interfaces differ in their source alone.
  unfoldable pub host_children : Element → List Element
  host_children source =
      boot_elements o.boot_order
      ++ (mac_element mac
          ∷ (element_if (nic.model == text "virtio")
                (leaf (text "driver") ((text "name", text "vhost") ∷ []))
              ++ (model_element nic.model
                  ∷ (mtu_elements nic.mtu ++ (rom_elements o.rom_file ++ (source ∷ []))))))

abbrev pub interface : Text → List Element → Element
interface type children = node (text "interface") ((text "type", type) ∷ []) children

module _ (nic : NicConfig) (o : InterfaceOptions) (mac : Text) where
  abbrev pub bridge_interface : Text → Element
  bridge_interface name =
      interface (text "bridge")
        (host_children nic o mac (leaf (text "source") ((text "bridge", name) ∷ [])))

  abbrev pub direct_interface : Text → Element
  direct_interface device = interface (text "direct") (
      host_children nic o mac
        (leaf (text "source") ((text "dev", device) ∷ (text "mode", text "bridge") ∷ [])))

-- The name that a mode needs: neither missing nor empty.
abbrev pub with_name : Option Text → Text → (Text → Element) → Result Element
with_name none variable f = raise (Reason.required variable)
with_name (some name) variable f =
    if is_empty name then raise (Reason.required variable) else ok (f name)

unfoldable pub render_interface : NicConfig → InterfaceOptions → Text → Result Element
render_interface nic o mac =
    if nic.mode == text "user"
    then ok (interface (text "user") (user_children nic o mac))
    else if nic.mode == text "bridge"
    then with_name nic.bridge_name (text "NETWORK_BRIDGE") (bridge_interface nic o mac)
    else if nic.mode == text "direct"
    then with_name nic.direct_device (text "NETWORK_DIRECT_DEV") (direct_interface nic o mac)
    else raise (Reason.unsupported (text "mode") nic.mode)

-- The description, and the address in it; `random` is the address that `random_mac` draws.
unfoldable pub render_network_xml : NicConfig → InterfaceOptions → Text → Result (Element × Text)
render_network_xml nic o random = do
  let mac = interface_mac nic o random
  iface ← render_interface nic o mac
  ok (iface, mac)

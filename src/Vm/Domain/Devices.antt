-- ===== src/Vm/Domain/Devices.antt =====
-- app/vm.py, `_render_domain_xml`: the interfaces, the shares, and the remaining devices.
use docker_vm_runner.Base.{
  ℕ, ◌+◌, Text, text, is_empty, not, ◌&&◌, ◌||◌, Option, none, some, List, [], ◌∷◌, ◌++◌, ◌==◌,
  text_eq, nat_eq, if◌then◌else◌, lookup, insert, show_nat, Result, ok, ◌>>=◌,
}
use docker_vm_runner.Base.Dict.{Dict}
use docker_vm_runner.Models.{VmConfig, NicConfig, FilesystemConfig}
use docker_vm_runner.Network.{InterfaceOptions, render_network_xml}
use docker_vm_runner.Xml.{Element, node, leaf, text_leaf, element_if}
use docker_vm_runner.Vm.Machine.{Machine, Surroundings}
use docker_vm_runner.Vm.Domain.System.{is_virtiofs}
use docker_vm_runner.Vm.Domain.Storage.{boot_order_priority}

module _ (m : Machine) (host : Surroundings) where
  -- SSH and the forwarded ports go to the first interface, in user mode.
  unfoldable pub interface_options : ℕ → NicConfig → Option Text → InterfaceOptions
  interface_options idx nic mac =
      let forwards = nat_eq.equal idx 0 && nic.mode == text "user" in
      record {
        ssh_port = if forwards then some m.cfg.ssh_port else none;
        mac_address = mac;
        boot_order =
            if nic.boot
            then lookup (text "network") (boot_order_priority m.cfg.boot_order)
            else none;
        rom_file = m.ipxe_rom_path;
        port_forwards = if forwards then m.cfg.port_forwards else [];
        ipv6_enabled = host.has_ipv6;
      }

  -- The loop over the interfaces. An address that was used before is used again, and the
  -- addresses in use are kept.
  unfoldable pub interface_elements :
      ℕ → List NicConfig → List (ℕ × Text) → Result (List Element × List (ℕ × Text))
  interface_elements idx [] macs = ok ([], macs)
  interface_elements idx (nic ∷ nics) macs = do
    found ←
        render_network_xml nic (interface_options idx nic (lookup idx macs)) (host.random_mac idx)
    rest ← interface_elements (idx + 1) nics (insert idx found.1 macs)
    ok (found.0 ∷ rest.0, rest.1)

unfoldable pub share_element : FilesystemConfig → Element
share_element fs =
    node (text "filesystem") ((text "type", text "mount") ∷ (text "accessmode", fs.accessmode) ∷ [])
      (leaf (text "driver")
          ((text "type", (if is_virtiofs fs then text "virtiofs" else text "path")) ∷ [])
        ∷ (element_if (is_virtiofs fs)
              (leaf (text "binary") ((text "path", text "/usr/lib/qemu/virtiofsd") ∷ []))
            ++ (leaf (text "source") ((text "dir", fs.source) ∷ [])
                ∷ leaf (text "target") ((text "dir", fs.target) ∷ [])
                ∷ element_if fs.readonly (leaf (text "readonly") []))))

abbrev pub share_elements : List FilesystemConfig → List Element
share_elements [] = []
share_elements (fs ∷ rest) = share_element fs ∷ share_elements rest

-- USB, TPM, balloon, random numbers, the guest agent's channel, serial port and console.
unfoldable pub small_devices : VmConfig → List Element
small_devices cfg =
    (if cfg.usb_controller
      then leaf (text "controller")
          ((text "type", text "usb") ∷ (text "model", text "qemu-xhci") ∷ [])
        ∷ leaf (text "input") ((text "type", text "tablet") ∷ (text "bus", text "usb") ∷ [])
        ∷ []
      else [])
    ++ (element_if cfg.tpm_enabled (
          node (text "tpm") ((text "model", text "tpm-crb") ∷ []) (
            leaf (text "backend")
              ((text "type", text "emulator") ∷ (text "version", text "2.0") ∷ [])
            ∷ []))
        ++ (element_if cfg.balloon_enabled
              (leaf (text "memballoon") ((text "model", text "virtio") ∷ []))
            ++ (element_if cfg.rng_enabled (
                  node (text "rng") ((text "model", text "virtio") ∷ []) (
                    text_leaf (text "backend") ((text "model", text "random") ∷ [])
                      (text "/dev/urandom")
                    ∷ []))
                ++ (node (text "channel") ((text "type", text "unix") ∷ []) (
                      leaf (text "target") (
                        (text "type", text "virtio")
                        ∷ (text "name", text "org.qemu.guest_agent.0")
                        ∷ [])
                      ∷ [])
                    ∷ node (text "serial") ((text "type", text "pty") ∷ [])
                        (leaf (text "target") ((text "port", text "0") ∷ []) ∷ [])
                    ∷ node (text "console") ((text "type", text "pty") ∷ []) (
                        leaf (text "target")
                          ((text "type", text "virtio") ∷ (text "port", text "0") ∷ [])
                        ∷ [])
                    ∷ []))))

graphics_attributes : VmConfig → Dict Text
graphics_attributes cfg =
    (text "type", cfg.graphics_type)
    ∷ (text "listen", text "0.0.0.0")
    ∷ ((if cfg.graphics_type == text "vnc"
          then (text "port", show_nat cfg.vnc_port) ∷ (text "autoport", text "no") ∷ []
          else (text "autoport", text "yes") ∷ [])
        ++ (if is_empty cfg.vnc_keymap then [] else (text "keymap", cfg.vnc_keymap) ∷ []))

video_element : VmConfig → Element
video_element cfg = node (text "video") [] (
    node (text "model")
      ((text "type", text "virtio") ∷ (text "heads", text "1") ∷ (text "primary", text "yes") ∷ [])
      (element_if (not (cfg.gpu_passthrough == text "intel"))
        (leaf (text "resolution") ((text "x", text "1920") ∷ (text "y", text "1080") ∷ [])))
    ∷ [])

agent_element : Element
agent_element = node (text "channel") ((text "type", text "qemu-vdagent") ∷ []) (
    node (text "source") [] (
      leaf (text "clipboard") ((text "copypaste", text "yes") ∷ [])
      ∷ leaf (text "mouse") ((text "mode", text "client") ∷ [])
      ∷ [])
    ∷ leaf (text "target")
        ((text "type", text "virtio") ∷ (text "name", text "com.redhat.spice.0") ∷ [])
    ∷ [])

unfoldable pub graphics_elements : VmConfig → List Element
unfolding graphics_attributes video_element agent_element
graphics_elements cfg =
    if is_empty cfg.graphics_type || cfg.graphics_type == text "none"
    then []
    else leaf (text "graphics") (graphics_attributes cfg) ∷ video_element cfg ∷ agent_element ∷ []

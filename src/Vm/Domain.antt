-- ===== src/Vm/Domain.antt =====
-- app/vm.py: `_render_domain_xml`, the description of the machine for libvirt.
pub mod System
pub mod Storage
pub mod Devices
pub mod Laws
use docker_vm_runner.Base.{
  ℕ, Text, text, is_space, reverse, is_empty, Bool, true, false, not, ◌&&◌, Option, none, some,
  List, [], ◌∷◌, ◌++◌, ◌==◌, text_eq, if◌then◌else◌, show_nat, Result, ok, ◌>>=◌,
}
use docker_vm_runner.Base.Chars.Words.{words}
use docker_vm_runner.Models.{VmConfig}
use docker_vm_runner.Xml.{Element, node, leaf, text_leaf, element_if}
use docker_vm_runner.Vm.Machine.{Machine, Surroundings}
use docker_vm_runner.Vm.Domain.System.{
  os_element, features_elements, clock_elements, memory_backing_elements, cpu_element,
}
use docker_vm_runner.Vm.Domain.Storage.{storage_elements}
use docker_vm_runner.Vm.Domain.Devices.{
  interface_elements, share_elements, small_devices, graphics_elements,
}

-- The arguments that are passed on to QEMU.
unfoldable pub qemu_arguments : VmConfig → Surroundings → List Text
qemu_arguments cfg host =
    words cfg.extra_args
    ++ ((if cfg.gpu_passthrough == text "intel" && host.has_render_node
          then text "-display"
            ∷ text "egl-headless"
            ∷ text "-device"
            ∷ text "virtio-vga-gl,rendernode=/dev/dri/renderD128"
            ∷ []
          else [])
        ++ (if cfg.hyperv_enabled
            then text "-global"
              ∷ text "ICH9-LPC.disable_s3=1"
              ∷ text "-global"
              ∷ text "ICH9-LPC.disable_s4=1"
              ∷ []
            else []))

argument_leaves : List Text → List Element
argument_leaves [] = []
argument_leaves (a ∷ as_) = leaf (text "qemu:arg") ((text "value", a) ∷ []) ∷ argument_leaves as_

unfoldable pub commandline_elements : List Text → List Element
unfolding argument_leaves
commandline_elements arguments =
    element_if (not (is_empty arguments))
      (node (text "qemu:commandline") [] (argument_leaves arguments))

-- The document, and the interfaces' addresses for the next rendering.
unfoldable pub render_domain_xml : Machine → Surroundings → Result (Element × List (ℕ × Text))
render_domain_xml m host = do
  os ← os_element m
  found ← interface_elements m host 0 m.cfg.nics m.network_macs
  ok (
    node (text "domain") ((text "type", (if m.kvm_available then text "kvm" else text "qemu")) ∷ [])
        (text_leaf (text "name") [] m.cfg.vm_name
          ∷ text_leaf (text "memory") ((text "unit", text "MiB") ∷ []) (show_nat m.cfg.memory_mb)
          ∷ text_leaf (text "vcpu") ((text "placement", text "static") ∷ []) (show_nat m.cfg.cpus)
          ∷ (element_if m.cfg.io_thread (text_leaf (text "iothreads") [] (text "1"))
              ++ (os
                  ∷ (features_elements m host
                      ++ (clock_elements m.cfg
                          ++ (memory_backing_elements m.cfg.filesystems
                              ++ (cpu_element m
                                  ∷ node (text "devices") [] (
                                      storage_elements m host
                                      ++ (found.0
                                          ++ (share_elements m.cfg.filesystems
                                              ++ (small_devices m.cfg ++ graphics_elements m.cfg))))
                                  ∷ commandline_elements (qemu_arguments m.cfg host)))))))),
    found.1,
  )

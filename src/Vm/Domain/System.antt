-- ===== src/Vm/Domain/System.antt =====
-- app/vm.py, `_render_domain_xml`: firmware, features, clock, memory and processor.
use docker_vm_runner.Base.{
  Text, text, lower, is_empty, any, Bool, true, false, not, ◌&&◌, ◌||◌, Option, some, List, [], ◌∷◌,
  ◌++◌, contains, ◌==◌, text_eq, if◌then◌else◌, Result, ok, raise, Reason, ◌>>=◌,
}
use docker_vm_runner.Constants.{Firmware, no_firmware, by_mode, flat, ArchProfile}
use docker_vm_runner.Models.{VmConfig, FilesystemConfig}
use docker_vm_runner.Xml.{Element, element, no_element, node, leaf, text_leaf, element_if}
use docker_vm_runner.Vm.Machine.{Machine, Surroundings}

-- `"firmware" in profile`, with a value that is not empty.
abbrev pub has_firmware : Firmware → Bool
has_firmware no_firmware = false
has_firmware (by_mode paths) = not (is_empty paths)
has_firmware (flat paths) = true

unfoldable pub need_firmware : VmConfig → ArchProfile → Bool
need_firmware cfg profile =
    if cfg.arch == text "x86_64"
    then not (cfg.boot_mode == text "legacy")
    else has_firmware profile.firmware

abbrev machine_type_of : Machine → Text
machine_type_of m =
    if m.cfg.arch == text "x86_64" then m.cfg.machine_type else m.arch_profile.machine

abbrev firmware_elements : Text → Option Text → Option Text → Result (List Element)
firmware_elements secure (some loader) (some vars) = ok (
    element (text "loader")
      ((text "readonly", text "yes") ∷ (text "secure", secure) ∷ (text "type", text "pflash") ∷ [])
      loader no_element
    ∷ text_leaf (text "nvram") [] vars
    ∷ [])
firmware_elements secure _ _ = raise Reason.no_firmware_assets

-- `<os>`
unfoldable pub os_element : Machine → Result Element
os_element m = do
  firmware ←
      (if need_firmware m.cfg m.arch_profile
        then firmware_elements (if m.cfg.boot_mode == text "secure" then text "yes" else text "no")
            m.firmware_loader_path m.firmware_vars_path
        else ok [])
  ok (
      node (text "os") [] (
        text_leaf (text "type")
          ((text "arch", m.cfg.arch) ∷ (text "machine", machine_type_of m) ∷ []) (text "hvm")
        ∷ firmware))

abbrev switch : Text → Text → Element
switch name state = leaf name ((text "state", state) ∷ [])

abbrev vendor_switches : Text → List Text → List Element
vendor_switches vendor flags =
    if vendor == text "amd"
    then switch (text "evmcs") (text "off")
      ∷ element_if (not (contains flags (text "avic"))) (switch (text "avic") (text "off"))
    else if vendor == text "intel"
    then element_if (not (contains flags (text "apicv"))) (switch (text "apicv") (text "off"))
      ++ (switch (text "evmcs") (text "off") ∷ [])
    else []

unfoldable pub hyperv_element : Surroundings → Element
hyperv_element host = node (text "hyperv") ((text "mode", text "passthrough") ∷ []) (
    switch (text "relaxed") (text "on")
    ∷ switch (text "vapic") (text "on")
    ∷ leaf (text "spinlocks") ((text "state", text "on") ∷ (text "retries", text "8191") ∷ [])
    ∷ switch (text "vpindex") (text "on")
    ∷ switch (text "runtime") (text "on")
    ∷ switch (text "synic") (text "on")
    ∷ switch (text "stimer") (text "on")
    ∷ switch (text "frequencies") (text "on")
    ∷ vendor_switches host.cpu_vendor host.cpu_flags)

abbrev plain_features : List Text → List Element
plain_features [] = []
plain_features (f ∷ fs) = leaf f [] ∷ plain_features fs

-- `<features>`
unfoldable pub features_elements : Machine → Surroundings → List Element
features_elements m host =
    element_if (not (is_empty m.arch_profile.features) || m.cfg.hyperv_enabled) (
      node (text "features") [] (
        plain_features m.arch_profile.features
        ++ element_if m.cfg.hyperv_enabled (hyperv_element host)))

-- `<clock>`
unfoldable pub clock_elements : VmConfig → List Element
clock_elements cfg = element_if cfg.hyperv_enabled (
    node (text "clock") ((text "offset", text "localtime") ∷ []) (
      leaf (text "timer") ((text "name", text "hypervclock") ∷ (text "present", text "yes") ∷ [])
      ∷ []))

abbrev pub is_virtiofs : FilesystemConfig → Bool
is_virtiofs fs = fs.driver == text "virtiofs"

-- `<memoryBacking>`
unfoldable pub memory_backing_elements : List FilesystemConfig → List Element
memory_backing_elements shares = element_if (any is_virtiofs shares) (
    node (text "memoryBacking") [] (
      leaf (text "source") ((text "type", text "memfd") ∷ [])
      ∷ leaf (text "access") ((text "mode", text "shared") ∷ [])
      ∷ []))

abbrev pub is_host_model : Text → Bool
is_host_model model = let m = lower model in m == text "host" || m == text "host-passthrough"

-- `<cpu>`
unfoldable pub cpu_element : Machine → Element
cpu_element m =
    if m.kvm_available && is_host_model m.effective_cpu_model
    then leaf (text "cpu") ((text "mode", text "host-passthrough") ∷ [])
    else node (text "cpu") ((text "mode", text "custom") ∷ (text "match", text "exact") ∷ [])
        (text_leaf (text "model") ((text "fallback", text "allow") ∷ []) m.effective_cpu_model ∷ [])

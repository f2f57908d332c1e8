-- ===== src/Config/Choices.antt =====
-- app/config.py: the variables with a fixed list of values, and those that depend on one.
pub mod Laws
use docker_vm_runner.Base.{
  ℕ, Text, text, lower, strip, Bool, true, false, not, ◌||◌, Option, none, some, List, [], ◌∷◌, map,
  contains, ◌==◌, text_eq, if◌then◌else◌, lookup, keys, Result, ok, raise, guard, Reason, ◌>>=◌,
  ◌>>◌,
}
use docker_vm_runner.Constants.{
  truthy, disk_controllers, disk_io_modes, disk_cache_modes, supported_arches, ArchProfile,
}
use docker_vm_runner.Utils.Env.{Env, get_env}
use docker_vm_runner.Utils.Names.{or_text}

-- `get_env(name) or default`
unfoldable pub env_text : Env → Text → Text → Text
env_text env name default = elim (get_env env name) [
  | none ↦ default
  | some raw ↦ or_text raw default
]

-- `x in (…)`, with the error that quotes the variable and the value.
abbrev pub one_of : Text → List Text → Text → Result Text
one_of name allowed value = do
  guard (contains allowed value) (Reason.unsupported name value)
  ok value

unfoldable pub choice : Env → Text → Text → List Text → Result Text
choice env name default allowed = one_of name allowed (lower (strip (env_text env name default)))

abbrev pub boot_modes : List Text
boot_modes = text "legacy" ∷ text "uefi" ∷ text "secure" ∷ []

abbrev pub gpu_modes : List Text
gpu_modes = text "off" ∷ text "intel" ∷ []

abbrev pub machine_types : List Text
machine_types = text "q35" ∷ text "pc" ∷ []

abbrev pub graphics_modes : List Text
graphics_modes = text "none" ∷ text "vnc" ∷ text "novnc" ∷ []

unfoldable pub parse_boot_mode : Env → Result Text
parse_boot_mode env = choice env (text "BOOT_MODE") (text "uefi") boot_modes

unfoldable pub parse_disk_controller : Env → Result Text
parse_disk_controller env = choice env (text "DISK_TYPE") (text "virtio") (keys disk_controllers)

unfoldable pub parse_disk_io : Env → Result Text
parse_disk_io env = choice env (text "DISK_IO") (text "native") disk_io_modes

unfoldable pub parse_disk_cache : Env → Result Text
parse_disk_cache env = choice env (text "DISK_CACHE") (text "none") disk_cache_modes

unfoldable pub parse_gpu : Env → Result Text
parse_gpu env = choice env (text "GPU") (text "off") gpu_modes

abbrev pub is_truthy : Text → Bool
is_truthy raw = contains truthy (lower (strip raw))

-- TPM is on by default for secure boot alone.
unfoldable pub parse_tpm : Env → Text → Bool
parse_tpm env boot_mode = elim (get_env env (text "TPM")) [
  | none ↦ boot_mode == text "secure"
  | some raw ↦ is_truthy raw
]

abbrev machine_of : Option ArchProfile → Text
machine_of none = text "q35"
machine_of (some profile) = profile.machine

unfoldable pub parse_machine : Env → Text → Result Text
parse_machine env arch = elim (get_env env (text "MACHINE")) [
  | none ↦ ok (machine_of (lookup arch supported_arches))
  | some raw ↦
      let value = lower (strip raw) in
      guard (contains machine_types value) (Reason.unsupported (text "MACHINE") raw) >> ok value
]

pub record Graphics : Type 0 where
  pub display : Text
  pub graphics_type : Text
  pub novnc_enabled : Bool

graphics_of : Text → Graphics
graphics_of display =
    let novnc_enabled = display == text "novnc" in
    record {
      display = display;
      graphics_type = if novnc_enabled then text "vnc" else display;
      novnc_enabled = novnc_enabled;
    }

unfoldable pub parse_graphics : Env → Result Graphics
unfolding graphics_of
parse_graphics env = do
  let raw = or_text (lower (strip (env_text env (text "GRAPHICS") (text "none")))) (text "none")
  display ← one_of (text "GRAPHICS") graphics_modes raw
  ok (graphics_of display)

-- The second test of the code, after the ports are read.
abbrev pub check_graphics : Graphics → Result (Unit {0})
check_graphics g =
    guard (not g.novnc_enabled || g.graphics_type == text "vnc") Reason.novnc_without_vnc

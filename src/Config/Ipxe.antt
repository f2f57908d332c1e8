-- ===== src/Config/Ipxe.antt =====
-- app/config.py: the settings for a boot over the network.
pub mod Laws
use docker_vm_runner.Base.{
  ℕ, Text, text, strip, is_empty, Bool, true, false, not, Option, none, some, List, [], ◌∷◌,
  contains, ◌==◌, text_eq, if◌then◌else◌, lookup, Result, ok, raise, or_raise, guard, Reason, ◌>>=◌,
  ◌>>◌,
}
use docker_vm_runner.Base.Dict.{Dict}
use docker_vm_runner.Constants.{ipxe_default_roms}
use docker_vm_runner.Models.{NicConfig}
use docker_vm_runner.Host.{FileSystem}
use docker_vm_runner.Utils.Env.{Env, get_env}
use docker_vm_runner.Config.Boot.{nonempty}

-- `[dev for dev in order if dev != name]`
unfoldable pub without : Text → List Text → List Text
without name [] = []
without name (dev ∷ devs) = let rest = without name devs in if dev == name then rest else dev ∷ rest

unfoldable pub network_first : List Text → List Text
network_first order =
    if contains order (text "network")
    then text "network" ∷ without (text "network") order
    else text "network" ∷ order

-- `IPXE_DEFAULT_ROMS.get(arch, {}).get(model)`
unfoldable pub default_rom : Text → Text → Option Text
default_rom arch model = elim (lookup arch ipxe_default_roms) [
  | none ↦ none
  | some roms ↦ lookup model roms
]

-- `(get_env("IPXE_ROM_PATH") or "").strip() or None`
unfoldable pub rom_override : Env → Option Text
rom_override env = elim (get_env env (text "IPXE_ROM_PATH")) [
  | none ↦ none
  | some raw ↦ nonempty (strip raw)
]

unfoldable pub choose_rom : Option Text → Text → Text → Result Text
choose_rom (some rom) arch model = ok rom
choose_rom none arch model = or_raise (default_rom arch model) (Reason.no_default_rom arch model)

pub record NetworkBoot : Type 0 where
  pub boot_order : List Text
  pub primary : NicConfig
  pub rom_path : Option Text

module _ (F : FileSystem) (s : F.State) where
  -- The primary interface is marked for booting in place.
  unfoldable pub apply_ipxe : Bool → Option Text → Text → List Text → NicConfig → Result NetworkBoot
  apply_ipxe false rom arch order primary =
      ok (record { boot_order = order; primary = primary; rom_path = none })
  apply_ipxe true override arch order primary = do
    rom ← choose_rom override arch primary.model
    guard (F.exists s rom) (Reason.path_missing rom)
    ok (record {
      boot_order = network_first order;
      primary = record primary { boot = true };
      rom_path = some rom;
    })

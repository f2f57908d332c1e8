-- ===== src/Config/Arch.antt =====
-- app/config.py: ARCH and the architecture of the distribution.
pub mod Laws
use docker_vm_runner.Base.{
  Text, text, lower, strip, is_empty, Bool, true, false, Option, none, some, contains, ◌==◌,
  text_eq, if◌then◌else◌, lookup, keys, Result, ok, guard, Reason, ◌>>=◌, ◌>>◌,
}
use docker_vm_runner.Constants.{supported_arches, arch_aliases}
use docker_vm_runner.Utils.Env.{Env, get_env, value_or}
use docker_vm_runner.Utils.Names.{or_text}
use docker_vm_runner.Config.Boot.{nonempty}

-- `ARCH_ALIASES.get(s, s)`
unfoldable pub canonical : Text → Text
canonical s = value_or (lookup s arch_aliases) s

unfoldable pub is_supported : Text → Bool
is_supported arch = contains (keys supported_arches) arch

abbrev pub or_x86_64 : Text → Text
or_x86_64 s = or_text (strip s) (text "x86_64")

-- ARCH, else the distribution's, else x86_64.
arch_candidate : Option Text → Option Text → Text
arch_candidate (some given) declared = or_x86_64 given
arch_candidate none (some declared) = or_x86_64 declared
arch_candidate none none = text "x86_64"

-- Only ARCH can differ from what the distribution declares.
abbrev agrees : Option Text → Text → Text → Bool
agrees none declared_key arch_key = true
agrees (some given) declared_key arch_key = declared_key == arch_key

abbrev declared_arch : Text → Text → Option Text → Text → Result Text
declared_arch distro declared given arch_key = do
  let declared_key = canonical (lower (strip declared))
  guard (is_supported declared_key) (Reason.distro_arch distro)
  guard (agrees given declared_key arch_key) (Reason.arch_mismatch distro declared)
  ok declared_key

-- `if distro_arch_raw:`
abbrev truthy_text : Option Text → Option Text
truthy_text none = none
truthy_text (some s) = nonempty s

arch_of : Text → Option Text → Option Text → Result Text
arch_of distro declared given = do
  let candidate = arch_candidate given declared
  let arch_key = canonical (lower candidate)
  guard (is_supported arch_key) (Reason.unsupported (text "ARCH") candidate)
  elim declared [ none ↦ ok arch_key | some a ↦ declared_arch distro a given arch_key ]

unfoldable pub parse_arch : Env → Text → Option Text → Result Text
unfolding arch_of arch_candidate
parse_arch env distro declared = arch_of distro (truthy_text declared) (get_env env (text "ARCH"))

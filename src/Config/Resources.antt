-- ===== src/Config/Resources.antt =====
-- app/config.py: MEMORY, CPUS and DISK_SIZE.
pub mod Laws
use Prim.Native.Nat.{max}
use docker_vm_runner.Base.{
  ℕ, ◌*◌, ◌/◌, ◌^◌, Text, text, lower, strip, Bool, ◌||◌, none, ◌++◌, show_nat, ◌==◌, text_eq,
  if◌then◌else◌, Result, ok,
}
use docker_vm_runner.Utils.Env.{Env, get_env_or, parse_int_env}
use docker_vm_runner.Utils.Names.{or_text}
use docker_vm_runner.Utils.Size.{Resource, memory, cpus, parse_resource_size, validate_disk_size}
use docker_vm_runner.Host.{Host}

-- `raw.strip().lower() in ("max", "half")`
abbrev pub is_extreme : Text → Bool
is_extreme raw = let value = lower (strip raw) in value == text "max" || value == text "half"

-- MEMORY and CPUS. The second test of the variable is made by `parse_int_env` anew, so an empty
-- text has no default there.
sized : Env → Host → Text → Text → Resource → Result ℕ
sized env host name default resource =
    let raw = or_text (get_env_or env name default) default in
    if is_extreme raw
    then parse_resource_size raw resource host.capacity
    else parse_int_env env name default 1 none

unfoldable pub parse_memory : Env → Host → Result ℕ
unfolding sized
parse_memory env host = sized env host (text "MEMORY") (text "4096") memory

unfoldable pub parse_cpus : Env → Host → Result ℕ
unfolding sized
parse_cpus env host = sized env host (text "CPUS") (text "2") cpus

-- DISK_SIZE=max leaves a tenth of the free bytes, and both are at least one GiB.
disk_gigabytes : Text → Host → ℕ
disk_gigabytes raw host =
    let bytes =
      if lower (strip raw) == text "max"
      then host.nine_tenths host.free_bytes
      else host.free_bytes / 2 in
    max 1 (bytes / 1024 ^ 3)

unfoldable pub parse_disk_size : Env → Host → Result Text
unfolding disk_gigabytes
parse_disk_size env host =
    let raw = or_text (get_env_or env (text "DISK_SIZE") (text "20G")) (text "20G") in
    if is_extreme raw
    then ok (show_nat (disk_gigabytes raw host) ++ text "G")
    else validate_disk_size raw

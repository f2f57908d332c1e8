-- ===== src/Config/Disks.antt =====
-- app/config.py: DISK2_SIZE to DISK6_SIZE, and DEVICE, DEVICE2 to DEVICE6.
pub mod Laws
use docker_vm_runner.Base.{
  ℕ, Text, text, strip, is_empty, Bool, Option, none, some, List, [], ◌∷◌, ◌++◌, ◌==◌, nat_eq,
  if◌then◌else◌, show_nat, Result, ok, guard, Reason, ◌>>=◌, ◌>>◌,
}
use docker_vm_runner.Models.{DiskConfig, BlockDevice}
use docker_vm_runner.Host.{FileSystem}
use docker_vm_runner.Utils.Env.{Env, get_env}
use docker_vm_runner.Utils.Size.{validate_disk_size}
use docker_vm_runner.Config.Boot.{nonempty}

-- The text of a variable, stripped; `none` where it is not set or blank.
abbrev pub stripped : Option Text → Option Text
stripped none = none
stripped (some raw) = nonempty (strip raw)

abbrev pub disk_variable : ℕ → Text
disk_variable index = text "DISK" ++ (show_nat index ++ text "_SIZE")

abbrev pub device_variable : ℕ → Text
device_variable index = if index == 1 then text "DEVICE" else text "DEVICE" ++ show_nat index

module _ (env : Env) (controller : Text) where
  -- One round of the loop, with the rounds behind it.
  unfoldable pub and_disk : Option Text → ℕ → Result (List DiskConfig) → Result (List DiskConfig)
  and_disk none index others = others
  and_disk (some raw) index others = do
    size ← validate_disk_size raw
    rest ← others
    ok (record { size = size; index = index; controller = controller } ∷ rest)

  unfoldable pub disks_from : List ℕ → Result (List DiskConfig)
  disks_from [] = ok []
  disks_from (index ∷ indices) =
      and_disk (stripped (get_env env (disk_variable index))) index (disks_from indices)

  unfoldable pub parse_extra_disks : Result (List DiskConfig)
  parse_extra_disks = disks_from (2 ∷ 3 ∷ 4 ∷ 5 ∷ 6 ∷ [])

module _ (F : FileSystem) (s : F.State) (env : Env) where
  unfoldable pub and_device :
      Option Text → ℕ → Result (List BlockDevice) → Result (List BlockDevice)
  and_device none index others = others
  and_device (some path) index others = do
    guard (F.exists s path) (Reason.path_missing path)
    guard (F.is_block_device s path) (Reason.wrong_file_type path)
    rest ← others
    ok (record { path = path; index = index } ∷ rest)

  unfoldable pub devices_from : List ℕ → Result (List BlockDevice)
  devices_from [] = ok []
  devices_from (index ∷ indices) =
      and_device (stripped (get_env env (device_variable index))) index (devices_from indices)

  unfoldable pub parse_block_devices : Result (List BlockDevice)
  parse_block_devices = devices_from (1 ∷ 2 ∷ 3 ∷ 4 ∷ 5 ∷ 6 ∷ [])

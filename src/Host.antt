-- ===== src/Host.antt =====
-- What the program reads from outside: the file system, behind an interface with the laws that the
-- code relies on, and the values that the kernel, PyYAML, hashlib and float arithmetic give it.
use docker_vm_runner.Base.{ℕ, Text, Bool, true, Option, some, ◌≡◌}
use docker_vm_runner.Base.Dict.{Dict}
use docker_vm_runner.Utils.Size.{Capacity}

-- `Path.exists`, `is_file`, `is_dir`, `is_block_device`; `read_text`, where `none` is an `OSError`;
-- `mkdir(parents=True, exist_ok=True)`, where `none` is an `OSError`.
pub record FileSystem : Type 1 where
  pub State : Type 0
  pub exists : State → Text → Bool
  pub is_file : State → Text → Bool
  pub is_dir : State → Text → Bool
  pub is_block_device : State → Text → Bool
  pub read_text : State → Text → Option Text
  pub make_dirs : State → Text → Option State

-- What POSIX says of `mkdir -p`: the path is a directory afterwards, and what was there stays.
pub record IsLawful (F : FileSystem) : Type 0 where
  pub made : (s t : F.State) (p : Text) → F.make_dirs s p ≡ some t → F.is_dir t p ≡ true
  pub dir_stays :
      (s t : F.State) (p q : Text)
      → F.make_dirs s p ≡ some t
      → F.is_dir s q ≡ true
      → F.is_dir t q ≡ true
  pub exists_of_dir : (s : F.State) (p : Text) → F.is_dir s p ≡ true → F.exists s p ≡ true

-- An entry of the distribution list. The value of "arch" is the text that `str` gives for it.
pub record Distro : Type 0 where
  pub name : Option Text
  pub url : Option Text
  pub user : Option Text
  pub arch : Option Text

-- What `yaml.safe_load` finds in a text.
pub data YamlKind : Type 0 where
  mapping other_value invalid : YamlKind

pub record Host : Type 0 where
  -- The "distributions" of the list; `none` if the file is missing.
  pub distributions : Option (Dict Distro)
  pub capacity : Capacity
  -- Free bytes where the machines' disks are kept.
  pub free_bytes : ℕ
  -- `int(n * 0.9)`, in floating point.
  pub nine_tenths : ℕ → ℕ
  pub expanduser : Text → Text
  -- The bytes of a SHA-256 digest, numbered from 0.
  pub sha256 : Text → ℕ → ℕ
  -- `detect_host_mtu()`
  pub host_mtu : ℕ
  pub yaml_kind : Text → YamlKind
  -- `bool(_DATA_DIR)` of app/constants.py.
  pub has_data_dir : Bool

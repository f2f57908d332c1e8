-- ===== src/Constants/Places.antt =====
-- app/constants.py: the directories, and the URI of libvirt. A path is a text in normal form,
-- with no slash at its end.
use docker_vm_runner.Base.{Text, text, ◌++◌, Bool, Option, none, some, if◌then◌else◌}
use docker_vm_runner.Base.Dict.{Dict}
use docker_vm_runner.Base.{lookup, text_eq, is_empty}

pub record Places : Type 0 where
  pub images_dir : Text
  pub base_images_dir : Text
  pub vm_images_dir : Text
  pub state_dir : Text

infixl 6 ◌/◌
abbrev pub ◌/◌ : Text → Text → Text
p / name = p ++ (text "/" ++ name)

abbrev pub default_places : Places
default_places = record {
  images_dir = text "/images";
  base_images_dir = text "/images" / text "base";
  vm_images_dir = text "/images" / text "vms";
  state_dir = text "/var/lib/docker-vm-runner";
}

abbrev pub places_below : Text → Places
places_below dir = record {
  images_dir = dir;
  base_images_dir = dir / text "base";
  vm_images_dir = dir / text "vms";
  state_dir = dir / text "state";
}

-- `DATA_DIR`, else `/data` if that is a mount point.
abbrev pub data_dir : Option Text → Bool → Text
data_dir none mounted = if mounted then text "/data" else text ""
data_dir (some dir) mounted =
    if is_empty dir then (if mounted then text "/data" else text "") else dir

unfoldable pub places : Dict Text → Bool → Places
places env mounted =
    let dir = data_dir (lookup (text "DATA_DIR") env) mounted in
    if is_empty dir then default_places else places_below dir

abbrev pub uri_or_default : Option Text → Text
uri_or_default none = text "qemu:///system"
uri_or_default (some uri) = uri

unfoldable pub libvirt_uri : Dict Text → Text
libvirt_uri env = uri_or_default (lookup (text "LIBVIRT_URI") env)

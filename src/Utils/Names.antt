-- ===== src/Utils/Names.antt =====
-- app/utils.py: `derive_vm_name`, `sanitize_mount_target`, `is_oci_reference`.
pub mod Laws
use docker_vm_runner.Base.{
  ℕ, Text, text, strip, strip_class, starts_with, has_char, before, is_digit, is_alpha, is_empty,
  length, leb, Bool, true, false, not, ◌&&◌, ◌||◌, Option, none, some, all, any, map, ◌==◌, nat_eq,
  if◌then◌else◌,
}
use docker_vm_runner.Utils.Env.{Env, get_env}

abbrev pub is_hex : ℕ → Bool
is_hex c = is_digit c || (leb b'a' c && leb c b'f')

-- `_CONTAINER_ID_RE`, on a text without a line end.
unfoldable pub is_container_id : Text → Bool
is_container_id s = all is_hex s && leb 12 (length s) && leb (length s) 64

-- The name without GUEST_NAME and HOSTNAME.
abbrev pub default_name : Text → Bool → Text
default_name distro iso_mode = if iso_mode then text "custom-vm" else distro

abbrev pub name_from_host : Option Text → Text → Text
name_from_host none default = default
name_from_host (some raw) default =
    let candidate = strip raw in
    if is_empty candidate || is_container_id candidate then default else candidate

abbrev pub name_from_guest : Option Text → Text → Text
name_from_guest none default = default
name_from_guest (some explicit) default = if is_empty explicit then default else strip explicit

unfoldable pub derive_vm_name : Env → Text → Bool → Text
derive_vm_name env distro iso_mode =
    name_from_guest (get_env env (text "GUEST_NAME"))
      (name_from_host (get_env env (text "HOSTNAME")) (default_name distro iso_mode))

-- `[0-9A-Za-z._-]`
abbrev pub is_safe : ℕ → Bool
is_safe c = is_digit c || is_alpha c || c == b'.' || c == b'_' || c == b'-'

abbrev is_dash : ℕ → Bool
is_dash c = c == b'-'

-- `s or default`
abbrev pub or_text : Text → Text → Text
or_text s default = if is_empty s then default else s

unfoldable pub sanitize_mount_target : Text → Text
sanitize_mount_target tag =
    or_text (strip_class is_dash (map (λ c. if is_safe c then c else b'-') tag)) (text "share")

unfoldable pub is_url : Text → Bool
is_url s = starts_with s (text "http://") || starts_with s (text "https://")

unfoldable pub is_oci_reference : Text → Bool
is_oci_reference s =
    if is_url s || starts_with s (text "/")
    then false
    else if not (has_char b'/' s)
    then false
    else let first_component = before b'/' s in
      has_char b'.' first_component || has_char b':' first_component

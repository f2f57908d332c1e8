-- ===== src/Config/Boot.antt =====
-- app/config.py: BOOT_FROM, BLANK_DISK, BOOT_ORDER, CLOUD_INIT and CLOUD_INIT_USER_DATA.
pub mod Laws
use docker_vm_runner.Base.{
  ℕ, Text, text, lower, strip, before, ends_with, split_on, is_empty, Bool, true, false, not, ◌&&◌,
  Option, none, some, List, [], ◌∷◌, map, contains, ◌==◌, text_eq, if◌then◌else◌, Result, ok, raise,
  guard, Reason, ◌>>=◌, ◌>>◌,
}
use docker_vm_runner.Constants.{truthy}
use docker_vm_runner.Host.{FileSystem, Host, YamlKind, mapping, other_value, invalid}
use docker_vm_runner.Utils.Env.{Env, get_env, get_env_or, get_env_bool}

pub record BootSource : Type 0 where
  pub boot_from : Option Text
  pub blank_work_disk : Bool
  pub iso_requested : Bool
  pub boot_order : List Text
  pub cloud_init_enabled : Bool

-- `s or None`
abbrev pub nonempty : Text → Option Text
nonempty s = if is_empty s then none else some s

boot_from_env : Env → Option Text
boot_from_env env = elim (get_env env (text "BOOT_FROM")) [
  | none ↦ none
  | some raw ↦ nonempty (strip raw)
]

abbrev is_set : Option Text → Bool
is_set none = false
is_set (some raw) = true

-- `boot_from and boot_from.lower() == "blank"`
is_blank_source : Option Text → Bool
is_blank_source none = false
is_blank_source (some source) = lower source == text "blank"

-- The extension, without the query and the fragment of a URL.
is_iso : Option Text → Bool
is_iso none = false
is_iso (some source) = ends_with (lower (before b'#' (before b'?' source))) (text ".iso")

abbrev pub boot_devices : List Text
boot_devices = text "hd" ∷ text "cdrom" ∷ text "network" ∷ []

-- The items of BOOT_ORDER that are not blank, stripped and in lower case.
unfoldable pub order_items : List Text → List Text
order_items [] = []
order_items (item ∷ items) =
    let rest = order_items items in
    if is_empty (strip item) then rest else lower (strip item) ∷ rest

unfoldable pub check_devices : List Text → Result (List Text)
check_devices [] = ok []
check_devices (dev ∷ devs) = do
  guard (contains boot_devices dev) (Reason.unsupported (text "BOOT_ORDER") dev)
  rest ← check_devices devs
  ok (dev ∷ rest)

or_hard_disk : List Text → List Text
or_hard_disk [] = text "hd" ∷ []
or_hard_disk (dev ∷ devs) = dev ∷ devs

add_drive : Bool → List Text → List Text
add_drive iso order =
    if iso && not (contains order (text "cdrom")) then text "cdrom" ∷ order else order

-- The default, and the drive for an ISO.
unfoldable pub complete_order : Bool → List Text → List Text
unfolding or_hard_disk add_drive
complete_order iso devs = add_drive iso (or_hard_disk devs)

cloud_init_of : Option Text → Bool → Bool
cloud_init_of none iso = not iso
cloud_init_of (some raw) iso = contains truthy (lower raw)

-- The settings, from the checked devices of BOOT_ORDER.
unfoldable pub boot_source : Env → List Text → BootSource
unfolding boot_from_env is_blank_source is_iso cloud_init_of
boot_source env devs =
    let requested = boot_from_env env in
    let blank = is_blank_source requested in
    let source = if blank then none else requested in
    let iso = is_iso source in
    record {
      boot_from = source;
      blank_work_disk =
          if iso && not (is_set (get_env env (text "BLANK_DISK")))
          then true
          else if blank
          then true
          else get_env_bool env (text "BLANK_DISK") false;
      iso_requested = iso;
      boot_order = complete_order iso devs;
      cloud_init_enabled = cloud_init_of (get_env env (text "CLOUD_INIT")) iso;
    }

unfoldable pub parse_boot : Env → Result BootSource
parse_boot env = do
  devs ←
      check_devices (order_items (split_on b',' (get_env_or env (text "BOOT_ORDER") (text "hd"))))
  ok (boot_source env devs)

module _ (F : FileSystem) (host : Host) (s : F.State) where
  -- A "#cloud-config" file has to be YAML. Other first lines, and YAML that is no mapping, are
  -- warned of in the log.
  check_content : Text → Text → Result Text
  check_content path content =
      if strip (before 10 content) == text "#cloud-config"
      then elim (host.yaml_kind content) [
        | invalid ↦ raise (Reason.invalid_yaml path)
        | _ ↦ ok path
      ]
      else ok path

  check_user_data : Text → Result Text
  check_user_data path = do
    guard (F.exists s path) (Reason.path_missing path)
    guard (F.is_file s path) (Reason.wrong_file_type path)
    elim (F.read_text s path) [
      | none ↦ raise (Reason.unreadable path)
      | some content ↦ check_content path content
    ]

  unfoldable pub parse_user_data : Env → Result (Option Text)
  unfolding check_user_data check_content
  parse_user_data env = elim (get_env env (text "CLOUD_INIT_USER_DATA")) [
    | none ↦ ok none
    | some path ↦ if is_empty path then ok none else (check_user_data path >>= λ p. ok (some p))
  ]

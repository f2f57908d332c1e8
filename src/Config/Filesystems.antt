-- ===== src/Config/Filesystems.antt =====
-- app/config.py: `build_filesystem`, and the loop over the shares. A share's directory may be
-- created, so the state of the file system goes along.
pub mod Laws
pub mod Rounds
use docker_vm_runner.Base.{
  ℕ, zero, suc, ◌+◌, Text, text, lower, strip, split_on, has_char, is_empty, Bool, true, false, not,
  ◌&&◌, ◌||◌, Option, none, some, List, [], ◌∷◌, contains, ◌==◌, text_eq, if◌then◌else◌, length,
  Result, ok, err, raise, guard, Reason, Error, ◌>>=◌, ◌>>◌,
}
use docker_vm_runner.Models.{FilesystemConfig}
use docker_vm_runner.Host.{FileSystem, Host}
use docker_vm_runner.Utils.Env.{Env}
use docker_vm_runner.Config.Choices.{is_truthy, one_of}
use docker_vm_runner.Config.Indexed.{get_env_indexed, indexed_name}
use docker_vm_runner.Config.Nics.{is_blank}

-- `Path(s).name`: the last part between slashes that is neither empty nor ".".
last_part : List Text → Text → Text
last_part [] found = found
last_part (p ∷ ps) found = last_part ps (if is_empty p || p == text "." then found else p)

unfoldable pub path_name : Text → Text
unfolding last_part
path_name s = last_part (split_on b'/' s) []

abbrev pub readonly_of : Option Text → Bool
readonly_of none = false
readonly_of (some raw) = is_truthy raw

-- `(raw or default).strip().lower()`
abbrev or_default : Option Text → Text → Text
or_default none default = lower (strip default)
or_default (some raw) default = lower (strip (if is_empty raw then default else raw))

abbrev pub access_modes : List Text
access_modes = text "passthrough" ∷ text "mapped" ∷ text "squash" ∷ []

abbrev pub share_drivers : List Text
share_drivers = text "virtiofs" ∷ text "9p" ∷ []

abbrev derive_target : Text → Text → Result Text
derive_target derived suffixed = do
  guard (not (is_empty derived || derived == text "." || derived == text "/"))
      (Reason.no_target suffixed)
  ok derived

-- Without a target, the name of the source directory.
unfoldable pub share_target : Text → Option Text → Text → Result Text
share_target source target suffixed =
    if is_blank target
    then derive_target (path_name (strip source)) suffixed
    else elim target [ none ↦ ok [] | some raw ↦ ok raw ]

-- The checks on target, driver and access mode.
unfoldable pub share_options : Text → Text → Text → Text → Bool → Result FilesystemConfig
share_options path target driver accessmode readonly = do
  guard (not (has_char b'/' target)) (Reason.target_with_slash target)
  drv ← one_of (text "FILESYSTEM_DRIVER") share_drivers driver
  mode ← one_of (text "FILESYSTEM_ACCESSMODE") access_modes accessmode
  guard (not (drv == text "virtiofs" && not (mode == text "passthrough")))
      (Reason.virtiofs_access_mode mode)
  ok (record {
    source = path;
    target = target;
    driver = drv;
    accessmode = mode;
    readonly = readonly;
  })

-- The five variables of one share.
pub record ShareVariables : Type 0 where
  pub source : Option Text
  pub target : Option Text
  pub driver : Option Text
  pub accessmode : Option Text
  pub readonly : Option Text

unfoldable pub share_variables : Env → ℕ → ShareVariables
share_variables env index = record {
  source = get_env_indexed env (text "FILESYSTEM_SOURCE") index;
  target = get_env_indexed env (text "FILESYSTEM_TARGET") index;
  driver = get_env_indexed env (text "FILESYSTEM_DRIVER") index;
  accessmode = get_env_indexed env (text "FILESYSTEM_ACCESSMODE") index;
  readonly = get_env_indexed env (text "FILESYSTEM_READONLY") index;
}

unfoldable pub has_value : ShareVariables → Bool
has_value v =
    not (is_blank v.source && is_blank v.target && is_blank v.driver && is_blank v.accessmode)
    || readonly_of v.readonly

-- The source, which has to be given, as it stands.
unfoldable pub share_source : Option Text → Text → Result Text
share_source source name =
    if is_blank source
    then raise (Reason.required name)
    else elim source [ none ↦ raise (Reason.required name) | some raw ↦ ok raw ]

module _ (F : FileSystem) (host : Host) where
  unfoldable pub must_be_dir : F.State → Text → Result (Unit {0})
  must_be_dir s path = guard (F.is_dir s path) (Reason.wrong_file_type path)

  -- A directory that is missing is created, unless the share is read-only.
  unfoldable pub ensure_source : F.State → Text → Bool → Result (Unit {0}) × F.State
  unfolding must_be_dir
  ensure_source s path readonly =
      if F.exists s path
      then (must_be_dir s path, s)
      else if readonly
      then (raise (Reason.missing_but_readonly path), s)
      else elim (F.make_dirs s path) [
        | none ↦ (err Error.os_error, s)
        | some t ↦ (must_be_dir t path, t)
      ]

  -- The texts of a share that has a source and a target.
  unfoldable pub with_texts :
      F.State → ShareVariables → Text → Text → Result FilesystemConfig × F.State
  with_texts s v source target =
      let path = host.expanduser source in
      let readonly = readonly_of v.readonly in
      let (made, t) = ensure_source s path readonly in
      (
        made
            >> share_options path (strip target) (or_default v.driver (text "virtiofs"))
                (or_default v.accessmode (text "passthrough")) readonly,
        t,
      )

  -- The texts in turn; an error of either ends the share.
  unfoldable pub and_target :
      F.State → ShareVariables → Text → Result Text → Result FilesystemConfig × F.State
  unfolding with_texts
  and_target s v source (err e) = (err e, s)
  and_target s v source (ok target) = with_texts s v source target

  unfoldable pub and_source :
      F.State → ShareVariables → ℕ → Result Text → Result FilesystemConfig × F.State
  and_source s v index (err e) = (err e, s)
  and_source s v index (ok source) =
      and_target s v source
        (share_target source v.target (indexed_name (text "FILESYSTEM_TARGET") index))

  unfoldable pub configured_share : F.State → ShareVariables → ℕ → Result FilesystemConfig × F.State
  configured_share s v index =
      and_source s v index (share_source v.source (indexed_name (text "FILESYSTEM_SOURCE") index))

  -- What a round makes of its share and of the rounds behind it.
  unfoldable pub and_shares :
      Result FilesystemConfig × F.State
      → (F.State → Result (List FilesystemConfig) × F.State)
      → Result (List FilesystemConfig) × F.State
  and_shares (err e, t) next = (err e, t)
  and_shares (ok share, t) next = ((next t).0 >>= λ shares. ok (share ∷ shares), (next t).1)

  unfoldable pub unless_done :
      Bool
      → F.State
      → Result FilesystemConfig × F.State
      → (F.State → Result (List FilesystemConfig) × F.State)
      → Result (List FilesystemConfig) × F.State
  unfolding and_shares
  unless_done false s share next = (ok [], s)
  unless_done true s share next = and_shares share next

  module _ (env : Env) where
    -- `while True`, from an index on.
    unfoldable pub collect_shares : ℕ → ℕ → F.State → Result (List FilesystemConfig) × F.State
    collect_shares zero index s = (err Error.out_of_fuel, s)
    collect_shares (suc fuel) index s =
        unless_done (has_value (share_variables env index)) s
          (configured_share s (share_variables env index) index) (collect_shares fuel (index + 1))

    -- A round for each variable, and one to find that no share is left.
    unfoldable pub build_shares : F.State → Result (List FilesystemConfig) × F.State
    build_shares s = collect_shares (suc (length env)) 1 s

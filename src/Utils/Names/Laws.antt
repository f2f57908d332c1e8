-- ===== src/Utils/Names/Laws.antt =====
-- What mount names look like, and where the name of the machine comes from.
use mathlib.Core.List.{reverse}
use mathlib.Core.Path.{subst}
use docker_vm_runner.Base.{
  ℕ, Text, text, strip, is_empty, Bool, true, false, ◌≡◌, refl, ◌↔◌, Option, none, some, [], ◌∷◌,
  map, All, arith, if◌then◌else◌, nat_eq,
}
use docker_vm_runner.Base.Chars.Strip
use docker_vm_runner.Utils.Names.{
  is_safe, is_dash, or_text, sanitize_mount_target, default_name, name_from_host, name_from_guest,
  derive_vm_name,
}
use docker_vm_runner.Utils.Env.{Env, get_env}

-- Letters, digits, `.`, `_` and `-`.
abbrev pub IsSafeChar : ℕ → Type 0
IsSafeChar c = is_safe c ≡ true

-- Not empty, made of safe characters, no dash at its ends.
pub record IsMountName (s : Text) : Type 0 where
  pub nonempty : is_empty s ≡ false
  pub safe : All IsSafeChar s
  pub starts : Strip.StartsOutside is_dash s
  pub ends : Strip.StartsOutside is_dash (reverse s)

abbrev replace : ℕ → ℕ
replace c = if is_safe c then c else b'-'

replaced-IsSafeChar : (s : Text) → All IsSafeChar (map replace s)
replaced-IsSafeChar [] = tt
replaced-IsSafeChar (c ∷ s) = (ground arith, replaced-IsSafeChar s)

replace_of_safe : (s : Text) → All IsSafeChar s → map replace s ≡ s
replace_of_safe [] h = refl
replace_of_safe (c ∷ s) (e, h) = rw (e, replace_of_safe s h)

share-IsMountName : IsMountName (text "share")
unfolding text
share-IsMountName = record {
  nonempty = refl;
  safe = (refl, (refl, (refl, (refl, (refl, tt)))));
  starts = refl;
  ends = refl;
}

or_share-IsMountName :
    (s : Text)
    → All IsSafeChar s
    → Strip.StartsOutside is_dash s
    → Strip.StartsOutside is_dash (reverse s)
    → IsMountName (or_text s (text "share"))
or_share-IsMountName [] h a b = share-IsMountName
or_share-IsMountName (c ∷ s) h a b = record { nonempty = refl; safe = h; starts = a; ends = b }

-- Whatever the tag, the name is not empty, made of letters, digits, `.`, `_` and `-`, and neither
-- begins nor ends with a dash.
pub sanitize_mount_target-IsMountName : (tag : Text) → IsMountName (sanitize_mount_target tag)
unfolding sanitize_mount_target
sanitize_mount_target-IsMountName tag =
    or_share-IsMountName _
      (Strip.strip_class-All is_dash IsSafeChar (map replace tag) (replaced-IsSafeChar tag))
      (Strip.strip_class-StartsOutside is_dash (map replace tag))
      (Strip.strip_class-reverse-StartsOutside is_dash (map replace tag))

or_text_nonempty : (s d : Text) → is_empty s ≡ false → or_text s d ≡ s
or_text_nonempty [] d h = cc
or_text_nonempty (c ∷ s) d h = refl

-- A name of that form is left as it is.
sanitize_mount_target-of_IsMountName : (s : Text) → IsMountName s → sanitize_mount_target s ≡ s
unfolding sanitize_mount_target
sanitize_mount_target-of_IsMountName s m =
    rw (replace_of_safe s m.safe, Strip.strip_class-of_StartsOutside is_dash s m.starts m.ends)
      (or_text_nonempty s _ m.nonempty)

-- `sanitize_mount_target` changes a tag exactly if it is not a mount name already.
pub sanitize_mount_target-eq_self_iff : (s : Text) → (sanitize_mount_target s ≡ s) ↔ IsMountName s
sanitize_mount_target-eq_self_iff s = (
  λ e. subst IsMountName e (sanitize_mount_target-IsMountName s),
  sanitize_mount_target-of_IsMountName s,
)

-- A second call changes nothing.
pub sanitize_mount_target_idem :
    (s : Text) → sanitize_mount_target (sanitize_mount_target s) ≡ sanitize_mount_target s
sanitize_mount_target_idem s =
    sanitize_mount_target-of_IsMountName _ (sanitize_mount_target-IsMountName s)

default_name-nonempty :
    (distro : Text) (iso : Bool)
    → is_empty distro ≡ false
    → is_empty (default_name distro iso) ≡ false
unfolding text
default_name-nonempty distro true h = refl
default_name-nonempty distro false h = h

name_from_host-nonempty :
    (host : Option Text) (d : Text) → is_empty d ≡ false → is_empty (name_from_host host d) ≡ false
name_from_host-nonempty none d h = h
name_from_host-nonempty (some raw) d h = ground arith

name_from_guest-nonempty :
    (guest : Option Text) (d : Text)
    → is_empty d ≡ false
    → ((g : Text) → guest ≡ some g → is_empty (strip g) ≡ false)
    → is_empty (name_from_guest guest d) ≡ false
name_from_guest-nonempty none d h k = h
name_from_guest-nonempty (some g) d h k = ground (arith, k g refl)

-- The name is not empty if the distribution's key is not, unless GUEST_NAME is set and blank.
pub derive_vm_name-nonempty :
    (env : Env) (distro : Text) (iso : Bool)
    → is_empty distro ≡ false
    → ((g : Text) → get_env env (text "GUEST_NAME") ≡ some g → is_empty (strip g) ≡ false)
    → is_empty (derive_vm_name env distro iso) ≡ false
unfolding derive_vm_name
derive_vm_name-nonempty env distro iso h k =
    name_from_guest-nonempty (get_env env (text "GUEST_NAME")) _
      (name_from_host-nonempty (get_env env (text "HOSTNAME")) _
        (default_name-nonempty distro iso h))
      k

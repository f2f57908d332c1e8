-- ===== src/Runtime.antt =====
-- app/runtime.py: what the container runtime lets the program do, read from files of the kernel.
-- A file is the list of its lines, or `none` where reading it is an `OSError`.
use docker_vm_runner.Base.{
  ℕ, ◌+◌, ◌*◌, ◌-◌, leb, Text, text, strip, starts_with, is_digit, Bool, true, false, not, ◌&&◌,
  ◌||◌, Option, none, some, List, [], ◌∷◌, ℤ, pos, neg_ℕ, nat_le_int, ◌==◌, nat_eq, text_eq,
  if◌then◌else◌,
}
use mathlib.Core.Option
use docker_vm_runner.Base.Chars.Words.{words}

pub record RuntimeInfo : Type 0 where
  pub engine : Text
  pub rootless : Bool
  pub privileged : Bool

-- The parameter is `Path.exists`.
unfoldable pub detect_engine : (Text → Bool) → Text
detect_engine exists =
    if exists (text "/var/run/secrets/kubernetes.io")
    then text "kubernetes"
    else if exists (text "/run/.containerenv")
    then text "podman"
    else if exists (text "/.dockerenv")
    then text "docker"
    else text "unknown"

-- `len(parts) >= 3 and parts[0] == "0" and parts[1] != "0"`
abbrev pub maps_root_away : List Text → Bool
maps_root_away (inside ∷ outside ∷ size ∷ rest) = inside == text "0" && not (outside == text "0")
maps_root_away _ = false

unfoldable pub any_maps_away : List Text → Bool
any_maps_away [] = false
any_maps_away (line ∷ lines) = maps_root_away (words line) || any_maps_away lines

abbrev pub is_rootless : Option (List Text) → Bool
is_rootless none = false
is_rootless (some lines) = any_maps_away lines

abbrev pub is_hex_digit : ℕ → Bool
is_hex_digit c = is_digit c || (leb b'a' c && leb c b'f') || (leb b'A' c && leb c b'F')

abbrev pub hex_value : ℕ → ℕ
hex_value c = if is_digit c then c - b'0' else if leb b'a' c then c - b'a' + 10 else c - b'A' + 10

-- The digits of a number in base sixteen, with single underscores between digits. The flag says
-- that the character before was a digit.
hex_digits : Bool → ℕ → Text → Option ℕ
hex_digits after n [] = if after then some n else none
hex_digits after n (c ∷ s) =
    let digit = hex_digits true (n * 16 + hex_value c) s in
    let gap = hex_digits false n s in
    if is_hex_digit c then digit else if after && c == b'_' then gap else none

-- Behind "0x" an underscore may stand before the first digit.
abbrev after_prefix : Text → Option ℕ
after_prefix [] = none
after_prefix (c ∷ s) = if c == b'_' then hex_digits false 0 s else hex_digits false 0 (c ∷ s)

abbrev unsigned_hex : Text → Option ℕ
unsigned_hex (a ∷ b ∷ s) =
    if a == b'0' && (b == b'x' || b == b'X') then after_prefix s else hex_digits false 0 (a ∷ b ∷ s)
unsigned_hex s = hex_digits false 0 s

abbrev signed_hex : Text → Option ℤ
signed_hex [] = none
signed_hex (c ∷ s) =
    if c == b'-'
    then Option.map neg_ℕ (unsigned_hex s)
    else Option.map pos (if c == b'+' then unsigned_hex s else unsigned_hex (c ∷ s))

-- `int(s, 16)`; `none` is a `ValueError`.
unfoldable pub parse_hex : Text → Option ℤ
unfolding hex_digits
parse_hex s = signed_hex (strip s)

-- All of the first 38 capabilities.
abbrev pub full_mask : ℕ
full_mask = 0x3fffffffff

abbrev is_full : Option ℤ → Bool
is_full none = false
is_full (some mask) = nat_le_int full_mask mask

-- `s.split(":", 1)[1]`, for a text with a colon.
abbrev pub behind_colon : Text → Text
behind_colon [] = []
behind_colon (c ∷ s) = let rest = behind_colon s in if c == b':' then s else rest

-- The first line that names the capabilities decides.
unfoldable pub full_line : List Text → Bool
full_line [] = false
full_line (line ∷ lines) =
    let rest = full_line lines in
    if starts_with line (text "CapBnd:")
    then is_full (parse_hex (strip (behind_colon line)))
    else rest

abbrev pub is_privileged : Option (List Text) → Bool
is_privileged none = false
is_privileged (some lines) = full_line lines

unfoldable pub detect_runtime :
    (Text → Bool) → Option (List Text) → Option (List Text) → RuntimeInfo
detect_runtime exists uid_map status = record {
  engine = detect_engine exists;
  rootless = is_rootless uid_map;
  privileged = is_privileged status;
}

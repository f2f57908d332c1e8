-- ===== src/Base/Chars.antt =====
-- Python's `str`: a sequence of code points, with the methods that the program calls.
-- `lower` and `upper` act on ASCII letters; the program's own keywords, names and paths are ASCII.
use Prim.Native.Nat.{ℕ, ◌+◌, ◌-◌}
pub mod Laws
pub mod Strip
pub mod Split
pub mod Words
use Prim.Native.Char.{code}
use Prim.Native.String.{String}
use mathlib.Core.Bool.{Bool, true, false, not, ◌&&◌, ◌||◌}
use mathlib.Core.List.{List, [], ◌∷◌, ◌++◌, map, reverse}
use docker_vm_runner.Base.Tests.{leb, if◌then◌else◌}
use docker_vm_runner.Base.Lists.{any}
use docker_vm_runner.Base.Equality.{◌==◌, nat_eq, text_eq}

abbrev pub Text : Type 0
Text = List ℕ

-- A literal.
unfoldable pub text : String → Text
text String.[] = []
text (String.◌∷◌ c s) = code c ∷ text s

abbrev pub is_digit : ℕ → Bool
is_digit c = leb b'0' c && leb c b'9'

abbrev pub is_lower : ℕ → Bool
is_lower c = leb b'a' c && leb c b'z'

abbrev pub is_upper : ℕ → Bool
is_upper c = leb b'A' c && leb c b'Z'

abbrev pub is_alpha : ℕ → Bool
is_alpha c = is_lower c || is_upper c

-- `str.isspace` of one character.
unfoldable pub is_space : ℕ → Bool
is_space c =
    (leb 9 c && leb c 13)
    || (leb 28 c && leb c 32)
    || c == 0x85
    || c == 0xa0
    || c == 0x1680
    || (leb 0x2000 c && leb c 0x200a)
    || c == 0x2028
    || c == 0x2029
    || c == 0x202f
    || c == 0x205f
    || c == 0x3000

unfoldable pub lower_char : ℕ → ℕ
lower_char c = if is_upper c then c + 32 else c

unfoldable pub upper_char : ℕ → ℕ
upper_char c = if is_lower c then c - 32 else c

unfoldable pub lower : Text → Text
unfolding lower_char
lower s = map lower_char s

-- Drops the leading characters that pass the test.
unfoldable pub drop_while : (ℕ → Bool) → Text → Text
drop_while p [] = []
drop_while p (c ∷ s) = let rest = drop_while p s in if p c then rest else c ∷ s

-- `str.strip` for a class of characters.
unfoldable pub strip_class : (ℕ → Bool) → Text → Text
unfolding drop_while
strip_class p s = reverse (drop_while p (reverse (drop_while p s)))

unfoldable pub strip : Text → Text
unfolding strip_class is_space
strip s = strip_class is_space s

abbrev pub is_ascii : Text → Bool
is_ascii [] = true
is_ascii (c ∷ s) = leb c 127 && is_ascii s

-- The white space that `int` passes over: in a text of ASCII alone not the four separators.
unfoldable pub is_int_space : Bool → ℕ → Bool
unfolding is_space
is_int_space ascii c = is_space c && not (ascii && leb 28 c && leb c 31)

unfoldable pub strip_int : Text → Text
unfolding strip_class is_int_space
strip_int s = strip_class (is_int_space (is_ascii s)) s

unfoldable pub starts_with : Text → Text → Bool
starts_with s [] = true
starts_with [] (d ∷ p) = false
starts_with (c ∷ s) (d ∷ p) = c == d && starts_with s p

unfoldable pub ends_with : Text → Text → Bool
unfolding starts_with
ends_with s p = starts_with (reverse s) (reverse p)

-- `p in s`
unfoldable pub has_infix : Text → Text → Bool
unfolding starts_with
has_infix [] p = starts_with [] p
has_infix (c ∷ s) p = starts_with (c ∷ s) p || has_infix s p

-- The text before the first separator, and the text behind it if there is one.
unfoldable pub before : ℕ → Text → Text
before d [] = []
before d (c ∷ s) = let rest = c ∷ before d s in if c == d then [] else rest

unfoldable pub has_char : ℕ → Text → Bool
has_char d s = any (λ c. c == d) s

-- Puts a character in front of the first part.
abbrev pub push_front : ℕ → List Text → List Text
push_front c [] = (c ∷ []) ∷ []
push_front c (p ∷ ps) = (c ∷ p) ∷ ps

-- `s.split(d)` for one character.
unfoldable pub split_on : ℕ → Text → List Text
split_on d [] = [] ∷ []
split_on d (c ∷ s) = let rest = split_on d s in if c == d then [] ∷ rest else push_front c rest

-- `d.join(parts)` for one character.
unfoldable pub join_with : ℕ → List Text → Text
join_with d [] = []
join_with d (p ∷ []) = p
join_with d (p ∷ q ∷ ps) = p ++ (d ∷ join_with d (q ∷ ps))

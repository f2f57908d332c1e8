-- ===== src/Utils/Size.antt =====
-- app/utils.py: `validate_disk_size`, `parse_size_to_bytes`, `parse_resource_size`.
pub mod Laws
pub mod LineEnd
pub mod Resources
use Prim.Native.Nat.{max}
use docker_vm_runner.Base.{
  ℕ, ℤ, pos, mul_nat, ◌-◌, ◌*◌, ◌/◌, ◌^◌, Text, text, lower, strip, upper_char, is_digit, is_alpha,
  is_empty, Bool, true, false, ◌&&◌, ◌||◌, Option, none, some, List, [], ◌∷◌, reverse, parse_int,
  contains, ◌==◌, nat_eq, text_eq, if◌then◌else◌, Result, ok, err, raise, guard, Error, Reason,
  ◌>>=◌, ◌>>◌,
}

-- Python's `$`: the end, or a line end there.
abbrev pub at_end : Text → Bool
at_end [] = true
at_end (c ∷ s) = c == 10 && is_empty s

abbrev pub is_size_suffix : ℕ → Bool
is_size_suffix c = let u = upper_char c in u == b'K' || u == b'M' || u == b'G' || u == b'T'

-- `DISK_SIZE_RE`: `^\d+[KMGTkmgt]?$`. The flag says that a digit was read.
unfoldable pub matches_size : Bool → Text → Bool
unfolding upper_char
matches_size seen [] = seen
matches_size seen (c ∷ s) =
    let more = matches_size true s in
    if is_digit c then more else seen && ((is_size_suffix c && at_end s) || at_end (c ∷ s))

unfoldable pub validate_disk_size : Text → Result Text
unfolding matches_size
validate_disk_size raw = do
  guard (matches_size false raw) (Reason.unsupported (text "DISK_SIZE") raw)
  ok raw

-- `{"K": 1024, …}.get(suffix, 1)`, of the suffix in upper case
unfoldable pub multiplier : ℕ → ℕ
multiplier u =
    if u == b'K'
    then 1024
    else if u == b'M'
    then 1024 ^ 2
    else if u == b'G'
    then 1024 ^ 3
    else if u == b'T'
    then 1024 ^ 4
    else 1

-- `int(s)`, with the `ValueError` that nothing catches.
abbrev pub int_of : Text → Result ℤ
int_of s = elim (parse_int s) [ none ↦ err Error.value_error | some z ↦ ok z ]

-- Splits off the last character: `raw[-1]` and `raw[:-1]`, from the text read backwards.
size_from_end : Text → Text → Result ℤ
size_from_end raw [] = ok (pos 0)
size_from_end raw (c ∷ front) =
    if is_alpha c
    then (int_of (reverse front) >>= λ num. ok (mul_nat num (multiplier (upper_char c))))
    else int_of raw

unfoldable pub parse_size_to_bytes : Text → Result ℤ
unfolding size_from_end
parse_size_to_bytes raw = size_from_end raw (reverse raw)

pub data Resource : Type 0 where
  memory cpus disk : Resource

-- What the host says of itself: available memory in bytes, and processors.
pub record Capacity : Type 0 where
  pub available_memory : ℕ
  pub cpu_count : ℕ

max_of : Resource → Capacity → ℕ
max_of memory h = max 512 (h.available_memory / (1024 * 1024) - 512)
max_of cpus h = h.cpu_count
max_of disk h = 0

half_of : Resource → Capacity → ℕ
half_of memory h = max 512 (h.available_memory / (1024 * 1024) / 2)
half_of cpus h = max 1 (h.cpu_count / 2)
half_of disk h = 0

abbrev resource_name : Resource → Text
resource_name memory = text "memory"
resource_name cpus = text "cpus"
resource_name disk = text "disk"

unfoldable pub parse_resource_size : Text → Resource → Capacity → Result ℕ
unfolding max_of half_of
parse_resource_size raw resource_type h =
    let value = lower (strip raw) in
    if value == text "max"
    then ok (max_of resource_type h)
    else if value == text "half"
    then ok (half_of resource_type h)
    else raise (Reason.unsupported (resource_name resource_type) raw)

-- ===== src/Utils/Mac.antt =====
-- app/utils.py: `deterministic_mac`, `random_mac`; app/constants.py: `MAC_ADDRESS_RE`.
pub mod Laws
use Prim.Native.Nat.{bit_and, bit_or}
use docker_vm_runner.Base.{
  ℕ, zero, suc, ◌+◌, ◌-◌, ◌/◌, ◌%◌, Text, ltb, leb, Bool, true, false, ◌&&◌, ◌||◌, List, [], ◌∷◌,
  ◌++◌, map, join_with, ◌==◌, nat_eq, if◌then◌else◌,
}
use docker_vm_runner.Utils.Names.{is_hex}
use docker_vm_runner.Utils.Size.{at_end}

unfoldable pub hex_digit : ℕ → ℕ
hex_digit n = if ltb n 10 then b'0' + n else b'a' + (n - 10)

-- `f"{octet:02x}"` of a byte
unfoldable pub hex_byte : ℕ → Text
hex_byte n = hex_digit (n / 16) ∷ hex_digit (n % 16) ∷ []

-- `":".join(f"{octet:02x}" for octet in octets)`
unfoldable pub show_mac : List ℕ → Text
unfolding hex_byte hex_digit join_with
show_mac octets = join_with b':' (map hex_byte octets)

-- `random_mac`, from the three numbers that it draws.
unfoldable pub random_mac : ℕ → ℕ → ℕ → Text
unfolding show_mac
random_mac a b c = show_mac (0x52 ∷ 0x54 ∷ 0x00 ∷ a ∷ b ∷ c ∷ [])

module _ (sha256 : Text → ℕ → ℕ) where
  -- The bytes of the digest are numbered from 0.
  unfoldable pub mac_octets : Text → List ℕ
  mac_octets seed =
      let fourth = bit_or (sha256 seed 0) 0x02 in
      0x52 ∷ 0x54 ∷ 0x00 ∷ bit_and fourth 0xfe ∷ sha256 seed 1 ∷ sha256 seed 2 ∷ []

  unfoldable pub deterministic_mac : Text → Text
  unfolding mac_octets show_mac
  deterministic_mac seed = show_mac (mac_octets seed)

-- `(:[0-9a-f]{2}){k}$`
matches_groups : ℕ → Text → Bool
matches_groups zero s = at_end s
matches_groups (suc k) (c ∷ a ∷ b ∷ s) = c == b':' && is_hex a && is_hex b && matches_groups k s
matches_groups (suc k) _ = false

-- `MAC_ADDRESS_RE`
unfoldable pub matches_mac : Text → Bool
unfolding matches_groups
matches_mac (a ∷ b ∷ s) = is_hex a && is_hex b && matches_groups 5 s
matches_mac _ = false

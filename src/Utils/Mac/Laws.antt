-- ===== src/Utils/Mac/Laws.antt =====
-- The addresses that the program makes up.
use Prim.Native.Nat.{bit_and, bit_or}
use docker_vm_runner.Base.{
  ℕ, suc, zero, ◌+◌, ◌/◌, ◌%◌, ◌<◌, Text, Bool, true, ◌&&◌, ◌≡◌, refl, arith, ap, ◌∙◌, ◌*◌, ◌==◌,
  nat_eq, ◌++◌, [], ◌∷◌, All,
}
use docker_vm_runner.Utils.Names.{is_hex}
use docker_vm_runner.Utils.Mac.{
  hex_digit, hex_byte, show_mac, random_mac, deterministic_mac, matches_groups, matches_mac,
}

hex_digit-is_hex : (n : ℕ) → n < 16 → is_hex (hex_digit n) ≡ true
unfolding hex_digit
hex_digit-is_hex n h = ground arith

abbrev IsByte : ℕ → Type 0
IsByte n = n < 256

hex_high : (n : ℕ) → IsByte n → is_hex (hex_digit (n / 16)) ≡ true
hex_high n h = hex_digit-is_hex (n / 16) (omega arith)

hex_low : (n : ℕ) → is_hex (hex_digit (n % 16)) ≡ true
hex_low n = hex_digit-is_hex (n % 16) (omega arith)

matches_mac_head :
    (n : ℕ) (s : Text) → IsByte n → matches_mac (hex_byte n ++ s) ≡ matches_groups 5 s
unfolding matches_mac hex_byte
matches_mac_head n s h = rw (hex_high n h, hex_low n)

matches_groups_step :
    (k n : ℕ) (s : Text)
    → IsByte n
    → matches_groups (suc k) (b':' ∷ (hex_byte n ++ s)) ≡ matches_groups k s
unfolding matches_groups hex_byte
matches_groups_step k n s h = rw (hex_high n h, hex_low n)

matches_groups_nil : matches_groups 0 [] ≡ true
unfolding matches_groups
matches_groups_nil = refl

-- Six bytes, written as an address, match `MAC_ADDRESS_RE`.
show_mac-matches :
    (a b c d e f : ℕ)
    → All IsByte (a ∷ b ∷ c ∷ d ∷ e ∷ f ∷ [])
    → matches_mac (show_mac (a ∷ b ∷ c ∷ d ∷ e ∷ f ∷ [])) ≡ true
unfolding show_mac
show_mac-matches a b c d e f (ha, (hb, (hc, (hd, (he, (hf, _)))))) =
    matches_mac_head a _ ha
    ∙ matches_groups_step 4 b _ hb
    ∙ matches_groups_step 3 c _ hc
    ∙ matches_groups_step 2 d _ hd
    ∙ matches_groups_step 1 e _ he
    ∙ matches_groups_step 0 f [] hf
    ∙ matches_groups_nil

-- The addresses of `random_mac` match the pattern.
pub random_mac-matches :
    (a b c : ℕ) → a < 128 → b < 128 → c < 128 → matches_mac (random_mac a b c) ≡ true
unfolding random_mac
random_mac-matches a b c ha hb hc = show_mac-matches 0x52 0x54 0x00 a b c (omega arith)

-- Two functions with one value at each of the first numbers, by evaluation.
agree : (ℕ → ℕ) → (ℕ → ℕ) → ℕ → Bool
agree f g zero = true
agree f g (suc n) = agree f g n && f n == g n

agree-value : (f g : ℕ → ℕ) (n x : ℕ) → x < n → agree f g n ≡ true → f x ≡ g x
unfolding agree
agree-value f g zero x below e = absurd (omega arith)
agree-value f g (suc n) x below e = ground (arith, agree-value f g n x, ap f, ap g)

abbrev masked : ℕ → ℕ
masked x = bit_and (bit_or x 0x02) 0xfe

abbrev rounded : ℕ → ℕ
rounded x = x / 4 * 4 + 2

masked_bytes : agree masked rounded 256 ≡ true
unfolding agree
masked_bytes = refl

fourth_octet : (x : ℕ) → IsByte x → bit_and (bit_or x 0x02) 0xfe ≡ x / 4 * 4 + 2
fourth_octet x h = agree-value masked rounded 256 x h masked_bytes

byte82 : IsByte 0x52
byte82 = omega arith

byte84 : IsByte 0x54
byte84 = omega arith

byte0 : IsByte 0x00
byte0 = omega arith

fourth-IsByte : (x : ℕ) → IsByte x → IsByte (x / 4 * 4 + 2)
fourth-IsByte x h = omega arith

module _ (sha256 : Text → ℕ → ℕ) (bytes : (s : Text) (i : ℕ) → IsByte (sha256 s i)) where
  -- The address has the prefix 52:54:00 of QEMU, then the first three bytes of the digest, the
  -- first of them with its two low bits set to 10.
  pub deterministic_mac_octets :
      (seed : Text)
      → deterministic_mac sha256 seed
        ≡ show_mac
            (0x52 ∷ 0x54 ∷ 0x00 ∷ (sha256 seed 0 / 4 * 4 + 2) ∷ sha256 seed 1 ∷ sha256 seed 2 ∷ [])
  unfolding deterministic_mac
  deterministic_mac_octets seed = rw (fourth_octet (sha256 seed 0) (bytes seed 0))

  -- The address matches the pattern that NETWORK_MAC is checked against, for a digest of bytes.
  pub deterministic_mac-matches : (seed : Text) → matches_mac (deterministic_mac sha256 seed) ≡ true
  deterministic_mac-matches seed =
      ap matches_mac (deterministic_mac_octets seed)
      ∙ show_mac-matches 0x52 0x54 0x00 _ (sha256 seed 1) (sha256 seed 2) (
        byte82,
        (
          byte84,
          (
            byte0,
            (fourth-IsByte (sha256 seed 0) (bytes seed 0), (bytes seed 1, (bytes seed 2, tt))),
          ),
        ),
      )

  -- Two seeds whose digests differ in the two low bits of their first byte alone get one address.
  pub deterministic_mac_collides :
      (s t : Text)
      → sha256 s 0 / 4 ≡ sha256 t 0 / 4
      → sha256 s 1 ≡ sha256 t 1
      → sha256 s 2 ≡ sha256 t 2
      → deterministic_mac sha256 s ≡ deterministic_mac sha256 t
  deterministic_mac_collides s t p q r = cc (deterministic_mac_octets s, deterministic_mac_octets t)

-- ===== src/Utils/Size/Laws.antt =====
-- The size texts that `validate_disk_size` accepts, and what `parse_size_to_bytes` makes of them.
use mathlib.Core.List.{reverse, reverse-reverse, reverse-append, append-nil, append_assoc}
use docker_vm_runner.Base.{
  ℕ, pos, ◌*◌, Text, upper_char, is_digit, is_alpha, IsDigit, Bool, true, false, ◌≡◌, refl, sym, ap,
  ◌∙◌, ◌≢◌, ◌⊎◌, inl, inr, [], ◌∷◌, some, ◌++◌, All, arith, Bool-cases, parse_int, parse_int_digits,
  show_nat, parse_int-show_nat, ok,
}
use docker_vm_runner.Utils.Size.{
  is_size_suffix, matches_size, validate_disk_size, multiplier, parse_size_to_bytes, int_of,
  size_from_end,
}

-- What may stand behind the digits: nothing, a unit, and a line end behind either.
pub data IsTail (t : Text) : Type 0 where
  plain : t ≡ [] → IsTail t
  unit : (c : ℕ) → is_size_suffix c ≡ true → t ≡ c ∷ [] → IsTail t
  line : t ≡ 10 ∷ [] → IsTail t
  unit_line : (c : ℕ) → is_size_suffix c ≡ true → t ≡ c ∷ 10 ∷ [] → IsTail t

pub record SizeForm (seen : Bool) (s : Text) : Type 0 where
  pub digits : Text
  pub tail : Text
  pub parts : s ≡ digits ++ tail
  pub all_digits : All IsDigit digits
  pub is_tail : IsTail tail
  pub some_digit : (seen ≡ true) ⊎ (digits ≢ [])

rest-IsTail :
    (seen : Bool) (c : ℕ) (s : Text)
    → is_digit c ≡ false
    → matches_size seen (c ∷ s) ≡ true
    → IsTail (c ∷ s)
unfolding matches_size
rest-IsTail seen c [] d h = elim (Bool-cases (is_size_suffix c)) [
  | inl u ↦ unit c u refl
  | inr u ↦ line (ground arith)
]
rest-IsTail seen c (e ∷ []) d h = unit_line c (ground arith) (ground arith)
rest-IsTail seen c (e ∷ f ∷ s) d h = absurd (ground arith)

matches_size-SizeForm : (seen : Bool) (s : Text) → matches_size seen s ≡ true → SizeForm seen s
unfolding matches_size
matches_size-SizeForm seen [] h = record {
  digits = [];
  tail = [];
  parts = refl;
  all_digits = tt;
  is_tail = plain refl;
  some_digit = inl h;
}
matches_size-SizeForm seen (c ∷ s) h = elim (Bool-cases (is_digit c)) [
  | inl d ↦
      let r = matches_size-SizeForm true s (ground arith) in
      record {
        digits = c ∷ r.digits;
        tail = r.tail;
        parts = ap (λ t. c ∷ t) r.parts;
        all_digits = (d, r.all_digits);
        is_tail = r.is_tail;
        some_digit = inr (λ e. cc);
      }
  | inr d ↦ record {
    digits = [];
    tail = c ∷ s;
    parts = refl;
    all_digits = tt;
    is_tail = rest-IsTail seen c s d h;
    some_digit = inl (ground arith);
  }
]

pub suffix-alpha : (c : ℕ) → is_size_suffix c ≡ true → is_alpha c ≡ true
unfolding upper_char
suffix-alpha c h = ground arith

digit-not_alpha : (c : ℕ) → is_digit c ≡ true → is_alpha c ≡ false
digit-not_alpha c h = ground arith

reverse_unit : (s : Text) (c : ℕ) → reverse (s ++ (c ∷ [])) ≡ c ∷ reverse s
reverse_unit s c = reverse-append s (c ∷ [])

size_from_end-unit :
    (raw front : Text) (c m : ℕ)
    → parse_int (reverse front) ≡ some (pos m)
    → is_alpha c ≡ true
    → size_from_end raw (c ∷ front) ≡ ok (pos (m * multiplier (upper_char c)))
unfolding size_from_end
size_from_end-unit raw front c m e a = rw (a, e, int_of)

size_from_end-plain :
    (raw : Text) (c : ℕ) (front : Text)
    → is_alpha c ≡ false
    → size_from_end raw (c ∷ front) ≡ int_of raw
unfolding size_from_end
size_from_end-plain raw c front a = rw a

-- Digits with a unit behind.
pub parse_size-unit :
    (digits : Text) (c m : ℕ)
    → parse_int digits ≡ some (pos m)
    → is_alpha c ≡ true
    → parse_size_to_bytes (digits ++ (c ∷ [])) ≡ ok (pos (m * multiplier (upper_char c)))
unfolding parse_size_to_bytes
parse_size-unit digits c m e a =
    ap (size_from_end (digits ++ (c ∷ []))) (reverse_unit digits c)
    ∙ size_from_end-unit (digits ++ (c ∷ [])) (reverse digits) c m
        (ap parse_int (reverse-reverse digits) ∙ e) a

-- A text that ends in something else than a letter is read whole.
pub parse_size-plain :
    (front : Text) (c : ℕ)
    → is_alpha c ≡ false
    → parse_size_to_bytes (front ++ (c ∷ [])) ≡ int_of (front ++ (c ∷ []))
unfolding parse_size_to_bytes
parse_size-plain front c a =
    ap (size_from_end (front ++ (c ∷ []))) (reverse_unit front c)
    ∙ size_from_end-plain (front ++ (c ∷ [])) c (reverse front) a

-- The last item of a list that is not empty, and what all items have.
pub last-IsDigit :
    (c : ℕ) (s : Text)
    → All IsDigit (c ∷ s)
    → (front : Text) × (d : ℕ) × (c ∷ s ≡ front ++ (d ∷ [])) × IsDigit d
last-IsDigit c [] (h, _) = ([], c, refl, h)
last-IsDigit c (e ∷ s) (h, k) =
    let (front, d, q, i) = last-IsDigit e s k in (c ∷ front, d, ap (λ t. c ∷ t) q, i)

parse_size-digits :
    (c : ℕ) (s : Text) → All IsDigit (c ∷ s) → (n : ℕ) × (parse_size_to_bytes (c ∷ s) ≡ ok (pos n))
parse_size-digits c s h =
    let (front, d, q, i) = last-IsDigit c s h in
    let (n, e) = parse_int_digits c s h in
    (
      n,
      ap parse_size_to_bytes q
          ∙ parse_size-plain front d (digit-not_alpha d i)
          ∙ ap int_of (sym q)
          ∙ rw (e, int_of),
    )

-- The forms that pass `validate_disk_size`: digits, and a unit or a line end or both.
validate_disk_size-SizeForm : (raw : Text) → validate_disk_size raw ≡ ok raw → SizeForm false raw
unfolding validate_disk_size
validate_disk_size-SizeForm raw h = matches_size-SizeForm false raw (ground arith)

size_of_form :
    (raw digits tail : Text)
    → All IsDigit digits
    → digits ≢ []
    → raw ≡ digits ++ tail
    → IsTail tail
    → ((s : Text) → raw ≢ s ++ (10 ∷ []))
    → (n : ℕ) × (parse_size_to_bytes raw ≡ ok (pos n))
size_of_form raw [] tail h ne e t k = absurd (ne refl)
size_of_form raw (c ∷ s) tail h ne e (plain p) k =
    let (n, q) = parse_size-digits c s h in
    (n, ap parse_size_to_bytes (e ∙ ap (λ t. (c ∷ s) ++ t) p ∙ append-nil (c ∷ s)) ∙ q)
size_of_form raw (c ∷ s) tail h ne e (unit u w p) k =
    let (m, q) = parse_int_digits c s h in
    (
      m * multiplier (upper_char u),
      ap parse_size_to_bytes (e ∙ ap (λ t. (c ∷ s) ++ t) p)
          ∙ parse_size-unit (c ∷ s) u m q (suffix-alpha u w),
    )
size_of_form raw (c ∷ s) tail h ne e (line p) k = absurd (k (c ∷ s) (e ∙ ap (λ t. (c ∷ s) ++ t) p))
size_of_form raw (c ∷ s) tail h ne e (unit_line u w p) k = absurd (
    k (c ∷ s ++ (u ∷ []))
      (e ∙ ap (λ t. (c ∷ s) ++ t) p ∙ sym (append_assoc (c ∷ s) (u ∷ []) (10 ∷ []))))

some_digit-ne-nil : {digits : Text} → (false ≡ true) ⊎ (digits ≢ []) → digits ≢ []
some_digit-ne-nil (inl x) = cc
some_digit-ne-nil (inr x) = x

-- A size that `validate_disk_size` accepts and that does not end in a line end has a number of
-- bytes, 0 or more: `parse_size_to_bytes` raises nothing on it.
pub parse_size_to_bytes-total :
    (raw : Text)
    → validate_disk_size raw ≡ ok raw
    → ((s : Text) → raw ≢ s ++ (10 ∷ []))
    → (n : ℕ) × (parse_size_to_bytes raw ≡ ok (pos n))
parse_size_to_bytes-total raw v k =
    let f = validate_disk_size-SizeForm raw v in
    size_of_form raw f.digits f.tail f.all_digits (some_digit-ne-nil f.some_digit) f.parts f.is_tail
      k

-- The units, upper and lower case, with the number of bytes of each.
pub data IsUnit : ℕ → ℕ → Type 0 where
  kibi : (c : ℕ) → (c ≡ 75) ⊎ (c ≡ 107) → IsUnit c 1024
  mebi : (c : ℕ) → (c ≡ 77) ⊎ (c ≡ 109) → IsUnit c 1048576
  gibi : (c : ℕ) → (c ≡ 71) ⊎ (c ≡ 103) → IsUnit c 1073741824
  tebi : (c : ℕ) → (c ≡ 84) ⊎ (c ≡ 116) → IsUnit c 1099511627776

unit-multiplier :
    (c bytes : ℕ) → IsUnit c bytes → (is_alpha c ≡ true) × (multiplier (upper_char c) ≡ bytes)
unfolding multiplier upper_char
unit-multiplier c bytes (kibi _ (inl e)) = rw e (refl, refl)
unit-multiplier c bytes (kibi _ (inr e)) = rw e (refl, refl)
unit-multiplier c bytes (mebi _ (inl e)) = rw e (refl, refl)
unit-multiplier c bytes (mebi _ (inr e)) = rw e (refl, refl)
unit-multiplier c bytes (gibi _ (inl e)) = rw e (refl, refl)
unit-multiplier c bytes (gibi _ (inr e)) = rw e (refl, refl)
unit-multiplier c bytes (tebi _ (inl e)) = rw e (refl, refl)
unit-multiplier c bytes (tebi _ (inr e)) = rw e (refl, refl)

-- n units, written in decimal with K, M, G or T behind in either case, are n times as many bytes:
-- 1024, 1024², 1024³ and 1024⁴.
pub parse_size_to_bytes-show_nat :
    (n c bytes : ℕ)
    → IsUnit c bytes
    → parse_size_to_bytes (show_nat n ++ (c ∷ [])) ≡ ok (pos (n * bytes))
parse_size_to_bytes-show_nat n c bytes u =
    let (a, m) = unit-multiplier c bytes u in
    parse_size-unit (show_nat n) c n (parse_int-show_nat n) a ∙ ap (λ k. ok (pos (n * k))) m

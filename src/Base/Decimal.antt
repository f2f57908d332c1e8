-- ===== src/Base/Decimal.antt =====
-- `str(n)` and `int(s)` in base ten, and that `int` reads back what `str` writes.
use Prim.Native.Nat.{ℕ, zero, suc, ◌+◌, ◌-◌, ◌*◌, ◌/◌, ◌%◌, ◌<◌}
use mathlib.Core.Path.{◌≡◌, refl, ◌∙◌, sym, ap}
use mathlib.Core.Logic.{inl, inr}
use mathlib.Core.Bool.{Bool, true, false, ◌&&◌}
use mathlib.Core.Option
use mathlib.Core.Option.{Option, none, some}
use mathlib.Core.List.{[], ◌∷◌, ◌++◌, append-nil, append_assoc}
use native.Mathlib.Omega.{arith}
use docker_vm_runner.Base.Tests.{ltb, if◌then◌else◌, Bool-cases}
use docker_vm_runner.Base.Lists.{All, All-append}
use docker_vm_runner.Base.Equality.{◌==◌, nat_eq}
use docker_vm_runner.Base.Chars.{Text, is_alpha, is_digit, is_space, strip_int}
use docker_vm_runner.Base.Chars.Laws.{strip_int-eq_self, strip_int-line_end}
use docker_vm_runner.Base.Int.{ℤ, pos, neg_ℕ}

show_digits : ℕ → ℕ → Text
show_digits zero n = []
show_digits (suc f) n =
    let front = show_digits f (n / 10) in
    if ltb n 10 then (b'0' + n) ∷ [] else front ++ ((b'0' + n % 10) ∷ [])

-- `str(n)`. A number has at most as many digits as rounds are given here.
unfoldable pub show_nat : ℕ → Text
unfolding show_digits
show_nat n = show_digits (suc n) n

-- `str(z)`
unfoldable pub show_int : ℤ → Text
unfolding show_nat
show_int (pos n) = show_nat n
show_int (ℤ.negsuc n) = b'-' ∷ show_nat (suc n)

-- The digits of an integer literal, with single underscores between digits. The flag says that
-- the character before was a digit.
parse_digits : Bool → ℕ → Text → Option ℕ
parse_digits after n [] = if after then some n else none
parse_digits after n (c ∷ s) =
    let digit = parse_digits true (n * 10 + (c - b'0')) s in
    let gap = parse_digits false n s in
    if is_digit c then digit else if after && c == b'_' then gap else none

parse_signed : Text → Option ℤ
parse_signed [] = none
parse_signed (c ∷ s) =
    if c == b'-'
    then Option.map neg_ℕ (parse_digits false 0 s)
    else if c == b'+'
    then Option.map pos (parse_digits false 0 s)
    else Option.map pos (parse_digits false 0 (c ∷ s))

-- `int(s)`; `none` is a `ValueError`.
unfoldable pub parse_int : Text → Option ℤ
unfolding parse_signed parse_digits strip_int
parse_int s = parse_signed (strip_int s)

abbrev pub IsDigit : ℕ → Type 0
IsDigit c = is_digit c ≡ true

show_digits-IsDigit : (f n : ℕ) → All IsDigit (show_digits f n)
unfolding show_digits
show_digits-IsDigit zero n = tt
show_digits-IsDigit (suc f) n = elim (Bool-cases (ltb n 10)) [
  | inl small ↦ rw small (ground arith, tt)
  | inr large ↦ rw large (
      All-append IsDigit (show_digits f (n / 10)) _ (show_digits-IsDigit f (n / 10))
        (ground arith, tt))
]

-- What stands behind a written number is read with that number in hand.
parse_digits-show_digits :
    (f n : ℕ) (t : Text) (after : Bool)
    → n < f
    → parse_digits after 0 (show_digits f n ++ t) ≡ parse_digits true n t
unfolding show_digits parse_digits
parse_digits-show_digits zero n t after h = elim h [ ]
parse_digits-show_digits (suc f) n t after h = elim (Bool-cases (ltb n 10)) [
  | inl small ↦ rw small (ground arith)
  | inr large ↦
      rw (large, append_assoc, parse_digits-show_digits f (n / 10) _ after (ground arith))
        (ground arith)
]

parse_digits-show_nat : (n : ℕ) → parse_digits false 0 (show_nat n) ≡ some n
unfolding show_nat parse_digits
parse_digits-show_nat n =
    ap (parse_digits false 0) (sym (append-nil (show_digits (suc n) n)))
    ∙ parse_digits-show_digits (suc n) n [] false (omega arith)

parse_signed_digit :
    (c : ℕ) (s : Text)
    → IsDigit c
    → parse_signed (c ∷ s) ≡ Option.map pos (parse_digits false 0 (c ∷ s))
unfolding parse_signed
parse_signed_digit c s h = ground arith

parse_signed_digits :
    (s : Text) (n : ℕ)
    → All IsDigit s
    → parse_digits false 0 s ≡ some n
    → parse_signed s ≡ some (pos n)
unfolding parse_digits
parse_signed_digits [] n h e = cc
parse_signed_digits (c ∷ s) n (d, h) e = parse_signed_digit c s d ∙ ap (Option.map pos) e

digit-not_space : (s : Text) → All IsDigit s → All (λ c. is_space c ≡ false) s
unfolding is_space
digit-not_space [] h = tt
digit-not_space (c ∷ s) (d, h) = (ground arith, digit-not_space s h)

-- `int` reads back what `str` writes.
pub parse_int-show_nat : (n : ℕ) → parse_int (show_nat n) ≡ some (pos n)
unfolding parse_int show_nat
parse_int-show_nat n =
    ap parse_signed (strip_int-eq_self _ (digit-not_space _ (show_digits-IsDigit (suc n) n)))
    ∙ parse_signed_digits (show_nat n) n (show_digits-IsDigit (suc n) n) (parse_digits-show_nat n)

-- No two numbers are written alike.
pub show_nat_inj : (m n : ℕ) → show_nat m ≡ show_nat n → m ≡ n
show_nat_inj m n e = cc (e, parse_int-show_nat m, parse_int-show_nat n)

pub show_nat-IsDigit : (n : ℕ) → All IsDigit (show_nat n)
unfolding show_nat
show_nat-IsDigit n = show_digits-IsDigit (suc n) n

parse_digits_total : (s : Text) (n : ℕ) → All IsDigit s → (m : ℕ) × (parse_digits true n s ≡ some m)
unfolding parse_digits
parse_digits_total [] n h = (n, refl)
parse_digits_total (c ∷ s) n (d, h) = rw d (parse_digits_total s (n * 10 + (c - b'0')) h)

-- Digits, at least one, are read as a number.
pub parse_int_digits :
    (c : ℕ) (s : Text) → All IsDigit (c ∷ s) → (m : ℕ) × (parse_int (c ∷ s) ≡ some (pos m))
unfolding parse_int parse_digits
parse_int_digits c s (d, h) =
    let (m, e) = parse_digits_total s (0 * 10 + (c - b'0')) h in
    (
      m,
      ap parse_signed (strip_int-eq_self (c ∷ s) (digit-not_space (c ∷ s) (d, h)))
          ∙ parse_signed_digits (c ∷ s) m (d, h) (rw d e),
    )

-- A digit, or digits, with a letter behind is no number.
parse_digits_letter :
    (s : Text) (after : Bool) (n c : ℕ)
    → All IsDigit s
    → is_alpha c ≡ true
    → parse_digits after n (s ++ (c ∷ [])) ≡ none
unfolding parse_digits
parse_digits_letter [] after n c h e = ground arith
parse_digits_letter (d ∷ s) after n c (p, h) e =
    rw p (parse_digits_letter s true (n * 10 + (d - b'0')) c h e)

letter-not_space : (c : ℕ) → is_alpha c ≡ true → is_space c ≡ false
unfolding is_space
letter-not_space c h = ground arith

parse_signed_letter :
    (c : ℕ) (s : Text) (u : ℕ)
    → All IsDigit (c ∷ s)
    → is_alpha u ≡ true
    → parse_signed (c ∷ s ++ (u ∷ [])) ≡ none
parse_signed_letter c s u (d, h) e =
    parse_signed_digit c (s ++ (u ∷ [])) d
    ∙ ap (Option.map pos) (parse_digits_letter (c ∷ s) false 0 u (d, h) e)

-- Digits with a letter and a line end behind are no number.
pub parse_int_unit_line :
    (c : ℕ) (s : Text) (u : ℕ)
    → All IsDigit (c ∷ s)
    → is_alpha u ≡ true
    → parse_int (c ∷ s ++ (u ∷ 10 ∷ [])) ≡ none
unfolding parse_int
parse_int_unit_line c s u (d, h) e =
    ap parse_signed
      (strip_int-line_end c s u (digit-not_space (c ∷ []) (d, tt)).0 (letter-not_space u e))
    ∙ parse_signed_letter c s u (d, h) e

-- ===== src/Base/Chars/Laws.antt =====
-- Laws of the `str` methods: `strip`, `split` and `join`.
use Prim.Native.Nat.{ℕ}
use mathlib.Core.Path.{◌≡◌, refl, ◌∙◌, ap}
use mathlib.Core.Bool.{Bool, true, false}
use mathlib.Core.List.{[], ◌∷◌, ◌++◌, reverse, reverse-cons, reverse-reverse, reverse-append}
use docker_vm_runner.Base.Lists.{All, All-append}
use docker_vm_runner.Base.Chars.{
  Text, drop_while, strip_class, strip, is_space, is_int_space, is_ascii, strip_int,
}

module _ {ℓ} (P : ℕ → Type ℓ) where
  pub All-reverse : (s : Text) → All P s → All P (reverse s)
  All-reverse [] h = tt
  All-reverse (c ∷ s) (p, h) =
      rw reverse-cons (All-append P (reverse s) _ (All-reverse s h) (p, tt))

module _ (p : ℕ → Bool) where
  drop_while-eq_self : (s : Text) → All (λ c. p c ≡ false) s → drop_while p s ≡ s
  unfolding drop_while
  drop_while-eq_self [] h = refl
  drop_while-eq_self (c ∷ s) (e, h) = rw e

  pub strip_class-eq_self : (s : Text) → All (λ c. p c ≡ false) s → strip_class p s ≡ s
  unfolding strip_class
  strip_class-eq_self s h =
      rw (drop_while-eq_self s h, drop_while-eq_self (reverse s) (All-reverse _ s h))
        (reverse-reverse s)

-- A text without white space is its own `strip`.
pub strip-eq_self : (s : Text) → All (λ c. is_space c ≡ false) s → strip s ≡ s
unfolding strip
strip-eq_self s h = strip_class-eq_self is_space s h

module _ (p : ℕ → Bool) where
  drop_while_outside : (c : ℕ) (s : Text) → p c ≡ false → drop_while p (c ∷ s) ≡ c ∷ s
  unfolding drop_while
  drop_while_outside c s h = rw h

  drop_while_line :
      (u : ℕ) (s : Text) → p 10 ≡ true → p u ≡ false → drop_while p (10 ∷ u ∷ s) ≡ u ∷ s
  unfolding drop_while
  drop_while_line u s l h = rw (l, h)

  -- A line end goes, and what stands before it stays.
  pub strip_class-line_end :
      (c : ℕ) (s : Text) (u : ℕ)
      → p 10 ≡ true
      → p c ≡ false
      → p u ≡ false
      → strip_class p (c ∷ s ++ (u ∷ 10 ∷ [])) ≡ c ∷ s ++ (u ∷ [])
  unfolding strip_class
  strip_class-line_end c s u l h k =
      ap (λ t. reverse (drop_while p (reverse t))) (drop_while_outside c (s ++ (u ∷ 10 ∷ [])) h)
      ∙ ap (λ t. reverse (drop_while p t)) (reverse-append (c ∷ s) (u ∷ 10 ∷ []))
      ∙ ap reverse (drop_while_line u (reverse (c ∷ s)) l k)
      ∙ reverse-cons u (reverse (c ∷ s))
      ∙ ap (λ t. t ++ (u ∷ [])) (reverse-reverse (c ∷ s))

-- What is no white space is none to `int` either.
int_space_outside : (ascii : Bool) (c : ℕ) → is_space c ≡ false → is_int_space ascii c ≡ false
unfolding is_int_space
int_space_outside ascii c h = rw h refl

int_outside :
    (ascii : Bool) (s : Text)
    → All (λ c. is_space c ≡ false) s
    → All (λ c. is_int_space ascii c ≡ false) s
int_outside ascii [] h = tt
int_outside ascii (c ∷ s) (e, h) = (int_space_outside ascii c e, int_outside ascii s h)

pub strip_int-eq_self : (s : Text) → All (λ c. is_space c ≡ false) s → strip_int s ≡ s
unfolding strip_int
strip_int-eq_self s h =
    strip_class-eq_self (is_int_space (is_ascii s)) s (int_outside (is_ascii s) s h)

line_end-space : (ascii : Bool) → is_int_space ascii 10 ≡ true
unfolding is_int_space is_space
line_end-space true = refl
line_end-space false = refl

pub strip_int-line_end :
    (c : ℕ) (s : Text) (u : ℕ)
    → is_space c ≡ false
    → is_space u ≡ false
    → strip_int (c ∷ s ++ (u ∷ 10 ∷ [])) ≡ c ∷ s ++ (u ∷ [])
unfolding strip_int
strip_int-line_end c s u h k =
    let ascii = is_ascii (c ∷ s ++ (u ∷ 10 ∷ [])) in
    strip_class-line_end (is_int_space ascii) c s u (line_end-space ascii)
      (int_space_outside ascii c h) (int_space_outside ascii u k)

-- ===== src/Base/Chars/Strip.antt =====
-- What `strip` leaves: no character of the class at either end, and nothing new in between.
use Prim.Native.Nat.{ℕ}
use mathlib.Core.Path.{◌≡◌, refl, ◌∙◌, sym, ap}
use mathlib.Core.Bool.{Bool, false}
use mathlib.Core.Logic.{inl, inr}
use mathlib.Core.List.{[], ◌∷◌, ◌++◌, reverse, reverse-reverse, reverse-append}
use native.Mathlib.Omega.{arith}
use docker_vm_runner.Base.Tests.{Bool-cases}
use docker_vm_runner.Base.Lists.{All}
use docker_vm_runner.Base.Chars.{Text, drop_while, strip_class}
use docker_vm_runner.Base.Chars.Laws.{All-reverse}

module _ (p : ℕ → Bool) where
  -- The first character, if any, is not of the class.
  abbrev pub StartsOutside : Text → Type 0
  StartsOutside [] = Unit
  StartsOutside (c ∷ s) = p c ≡ false

  drop_while-StartsOutside : (s : Text) → StartsOutside (drop_while p s)
  unfolding drop_while
  drop_while-StartsOutside [] = tt
  drop_while-StartsOutside (c ∷ s) = elim (Bool-cases (p c)) [
    | inl e ↦ rw e (drop_while-StartsOutside s)
    | inr e ↦ rw e e
  ]

  drop_while-of_StartsOutside : (s : Text) → StartsOutside s → drop_while p s ≡ s
  unfolding drop_while
  drop_while-of_StartsOutside [] h = refl
  drop_while-of_StartsOutside (c ∷ s) h = rw h

  drop_while-split : (s : Text) → (w : Text) × (s ≡ w ++ drop_while p s)
  unfolding drop_while
  drop_while-split [] = ([], refl)
  drop_while-split (c ∷ s) = elim (Bool-cases (p c)) [
    | inl e ↦ let (w, q) = drop_while-split s in (c ∷ w, rw e (ap (λ t. c ∷ t) q))
    | inr e ↦ ([], rw e)
  ]

  StartsOutside-prefix : (s t u : Text) → u ≡ s ++ t → StartsOutside u → StartsOutside s
  StartsOutside-prefix [] t u e h = tt
  StartsOutside-prefix (c ∷ s) t [] e h = cc
  StartsOutside-prefix (c ∷ s) t (d ∷ u) e h = ground arith

  -- Dropping at the end leaves the front as it was.
  reverse_drop-StartsOutside :
      (t : Text) → StartsOutside t → StartsOutside (reverse (drop_while p (reverse t)))
  reverse_drop-StartsOutside t h =
      let (w, q) = drop_while-split (reverse t) in
      StartsOutside-prefix _ (reverse w) t
        (sym (reverse-reverse t) ∙ ap reverse q ∙ reverse-append w _) h

  pub strip_class-StartsOutside : (s : Text) → StartsOutside (strip_class p s)
  unfolding strip_class
  strip_class-StartsOutside s = reverse_drop-StartsOutside _ (drop_while-StartsOutside s)

  pub strip_class-reverse-StartsOutside : (s : Text) → StartsOutside (reverse (strip_class p s))
  unfolding strip_class
  strip_class-reverse-StartsOutside s =
      rw reverse-reverse (drop_while-StartsOutside (reverse (drop_while p s)))

  pub strip_class-of_StartsOutside :
      (s : Text) → StartsOutside s → StartsOutside (reverse s) → strip_class p s ≡ s
  unfolding strip_class
  strip_class-of_StartsOutside s h k =
      rw (drop_while-of_StartsOutside s h, drop_while-of_StartsOutside (reverse s) k)
        (reverse-reverse s)

  -- A second `strip` changes nothing.
  pub strip_class_idem : (s : Text) → strip_class p (strip_class p s) ≡ strip_class p s
  strip_class_idem s =
      strip_class-of_StartsOutside (strip_class p s) (strip_class-StartsOutside s)
        (strip_class-reverse-StartsOutside s)

  module _ {ℓ} (P : ℕ → Type ℓ) where
    drop_while-All : (s : Text) → All P s → All P (drop_while p s)
    unfolding drop_while
    drop_while-All [] h = tt
    drop_while-All (c ∷ s) (q, h) = elim (Bool-cases (p c)) [
      | inl e ↦ rw e (drop_while-All s h)
      | inr e ↦ rw e (q, h)
    ]

    pub strip_class-All : (s : Text) → All P s → All P (strip_class p s)
    unfolding strip_class
    strip_class-All s h = All-reverse P _ (drop_while-All _ (All-reverse P _ (drop_while-All s h)))

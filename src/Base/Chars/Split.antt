-- ===== src/Base/Chars/Split.antt =====
-- `split` undoes `join` where no part holds the separator.
use Prim.Native.Nat.{ℕ}
use mathlib.Core.Path.{◌≡◌, refl, ◌∙◌, ap}
use mathlib.Core.Bool.{false}
use mathlib.Core.List.{List, [], ◌∷◌, ◌++◌}
use native.Mathlib.Omega.{arith}
use docker_vm_runner.Base.Lists.{All}
use docker_vm_runner.Base.Equality.{◌==◌, nat_eq}
use docker_vm_runner.Base.Chars.{Text, split_on, join_with}

module _ (d : ℕ) where
  -- The text holds no separator.
  abbrev pub IsPart : Text → Type 0
  IsPart s = All (λ c. (c == d) ≡ false) s

  pub split_on-part : (s : Text) → IsPart s → split_on d s ≡ s ∷ []
  unfolding split_on
  split_on-part [] h = refl
  split_on-part (c ∷ s) (e, h) = rw (e, split_on-part s h)

  pub split_on-append : (s t : Text) → IsPart s → split_on d (s ++ (d ∷ t)) ≡ s ∷ split_on d t
  unfolding split_on
  split_on-append [] t h = ground arith
  split_on-append (c ∷ s) t (e, h) = rw (e, split_on-append s t h)

  pub split_on-join_with :
      (p : Text) (ps : List Text) → All IsPart (p ∷ ps) → split_on d (join_with d (p ∷ ps)) ≡ p ∷ ps
  unfolding join_with
  split_on-join_with p [] (h, _) = split_on-part p h
  split_on-join_with p (q ∷ ps) (h, k) =
      split_on-append p (join_with d (q ∷ ps)) h ∙ ap (λ t. p ∷ t) (split_on-join_with q ps k)

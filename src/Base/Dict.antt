-- ===== src/Base/Dict.antt =====
-- Python's `dict`, as a list of entries in the order of insertion; the first entry of a key counts.
pub mod Laws
use mathlib.Core.Option.{Option, none, some}
use mathlib.Core.List.{List, [], ◌∷◌}
use docker_vm_runner.Base.Tests.{if◌then◌else◌}
use docker_vm_runner.Base.Equality.{Eq, ◌==◌, text_eq}
use docker_vm_runner.Base.Chars.{Text}

abbrev pub Dict {ℓ} : Type ℓ → Type ℓ
Dict V = List (Text × V)

module _ {ℓ} {K : Type 0} {V : Type ℓ} ⦃e : Eq K⦄ where
  -- `d.get(k)`
  unfoldable pub lookup : K → List (K × V) → Option V
  lookup k [] = none
  lookup k ((j, v) ∷ d) = if j == k then some v else lookup k d

  -- `d[k] = v`
  unfoldable pub insert : K → V → List (K × V) → List (K × V)
  insert k v [] = (k, v) ∷ []
  insert k v ((j, w) ∷ d) = if j == k then (j, v) ∷ d else (j, w) ∷ insert k v d

abbrev pub keys {ℓ} : {K : Type 0} {V : Type ℓ} → List (K × V) → List K
keys [] = []
keys ((k, v) ∷ d) = k ∷ keys d

abbrev pub values {ℓ} : {K : Type 0} {V : Type ℓ} → List (K × V) → List V
values [] = []
values ((k, v) ∷ d) = v ∷ values d

-- ===== src/Config/Ports/Conflicts.antt =====
-- The search for conflicts finds every pair of services with one port, and nothing else.
use docker_vm_runner.Base.{
  ℕ, Text, false, none, List, [], ◌∷◌, lookup, insert, lookup-insert, values, contains, ◌==◌,
  nat_eq, All, ◌≡◌, refl, ◌↔◌, inl, inr, arith, ok, Option-cases,
}
use docker_vm_runner.Base.Dict.{Dict}
use docker_vm_runner.Config.Ports.{check_ports}

-- No number stands in the list twice.
abbrev pub AreDistinct : List ℕ → Type 0
AreDistinct [] = Unit
AreDistinct (n ∷ ns) = (contains ns n ≡ false) × AreDistinct ns

abbrev IsFree : List (ℕ × Text) → ℕ → Type 0
IsFree seen port = lookup port seen ≡ none

module _ (seen : List (ℕ × Text)) (port : ℕ) (label : Text) where
  IsFree-of_insert :
      (ports : List ℕ)
      → All (IsFree (insert port label seen)) ports
      → (contains ports port ≡ false) × All (IsFree seen) ports
  unfolding contains
  IsFree-of_insert [] h = (refl, tt)
  IsFree-of_insert (p ∷ ports) (f, h) =
      let (c, k) = IsFree-of_insert ports h in
      let (q, g) : ((p == port) ≡ false) × IsFree seen p =
        ground (arith, lookup-insert port p label seen) in
      (ground (arith, c, q), (g, k))

  insert-of_IsFree :
      (ports : List ℕ)
      → contains ports port ≡ false
      → All (IsFree seen) ports
      → All (IsFree (insert port label seen)) ports
  unfolding contains
  insert-of_IsFree [] c h = tt
  insert-of_IsFree (p ∷ ports) c (f, h) =
      (ground (arith, lookup-insert port p label seen), insert-of_IsFree ports (ground arith) h)

-- With services seen before: the ports are distinct, and none of them is taken.
check_ports_from :
    (seen : List (ℕ × Text)) (ports : Dict ℕ)
    → check_ports seen ports ≡ ok tt
    → AreDistinct (values ports) × All (IsFree seen) (values ports)
unfolding check_ports
check_ports_from seen [] e = (tt, tt)
check_ports_from seen ((label, port) ∷ ports) e = elim (Option-cases (lookup port seen)) [
  | inl free ↦
      let (d, a) = check_ports_from (insert port label seen) ports (ground (arith, free)) in
      let (c, h) = IsFree-of_insert seen port label (values ports) a in ((c, d), (free, h))
  | inr (other, taken) ↦ absurd (ground (arith, taken))
]

check_ports_of :
    (seen : List (ℕ × Text)) (ports : Dict ℕ)
    → AreDistinct (values ports)
    → All (IsFree seen) (values ports)
    → check_ports seen ports ≡ ok tt
unfolding check_ports
check_ports_of seen [] d a = refl
check_ports_of seen ((label, port) ∷ ports) (c, d) (free, a) =
    let rest =
      check_ports_of (insert port label seen) ports d
        (insert-of_IsFree seen port label (values ports) c a) in
    ground (arith, free, rest)

all-IsFree : (ports : List ℕ) → All (IsFree []) ports
unfolding lookup
all-IsFree [] = tt
all-IsFree (p ∷ ports) = (refl, all-IsFree ports)

-- The search accepts a table of ports exactly if no two of its services have one port.
pub check_ports-eq-ok_iff :
    (ports : Dict ℕ) → (check_ports [] ports ≡ ok tt) ↔ AreDistinct (values ports)
check_ports-eq-ok_iff ports = (
  λ e. (check_ports_from [] ports e).0,
  λ d. check_ports_of [] ports d (all-IsFree (values ports)),
)

-- ===== src/Config/Ports/Uses.antt =====
-- Which service listens on which port, and that two of them never share one.
use docker_vm_runner.Base.{
  ℕ, Text, text, list_beq, list_beq_iff, Bool, true, false, ◌||◌, Bool-cases, contains, ◌==◌,
  nat_eq, text_eq, eq_refl, List, [], ◌∷◌, ◌++◌, All, some, lookup, insert, lookup-insert, values,
  show_nat, show_nat_inj, show_nat-IsDigit, IsDigit, ◌≡◌, ◌≢◌, refl, sym, ap, ◌∙◌, inl, inr, arith,
}
use docker_vm_runner.Base.Dict.{Dict}
use docker_vm_runner.Base.Chars.Split.{IsPart}
use docker_vm_runner.Models.{PortForward}
use docker_vm_runner.Config.Ports.{Services, add_if, forward_label, add_forwards, active_ports}
use docker_vm_runner.Config.Ports.Conflicts.{AreDistinct}

-- What a port of the host is used for.
pub data PortUse : Type 0 where
  ssh vnc novnc redfish : PortUse
  forward : PortForward → PortUse

pub data IsAmong (pf : PortForward) : List PortForward → Type 0 where
  here : (pfs : List PortForward) → IsAmong pf (pf ∷ pfs)
  there : (q : PortForward) (pfs : List PortForward) → IsAmong pf pfs → IsAmong pf (q ∷ pfs)

-- The services that are on, and the forwards, with their ports.
pub data Listens (sv : Services) (pfs : List PortForward) : PortUse → ℕ → Type 0 where
  on_ssh : Listens sv pfs ssh sv.ssh_port
  on_vnc : (sv.vnc || sv.novnc) ≡ true → Listens sv pfs vnc sv.vnc_port
  on_novnc : sv.novnc ≡ true → Listens sv pfs novnc sv.novnc_port
  on_redfish : sv.redfish ≡ true → Listens sv pfs redfish sv.redfish_port
  on_forward : (pf : PortForward) → IsAmong pf pfs → Listens sv pfs (forward pf) pf.host_port

abbrev label_of : PortUse → Text
label_of ssh = text "SSH_PORT"
label_of vnc = text "VNC_PORT"
label_of novnc = text "NOVNC_PORT"
label_of redfish = text "REDFISH_PORT"
label_of (forward pf) = forward_label pf

-- What stands before and behind the first separator.
parts-inj :
    (d : ℕ) (s t x y : Text)
    → IsPart d s
    → IsPart d x
    → s ++ (d ∷ t) ≡ x ++ (d ∷ y)
    → (s ≡ x) × (t ≡ y)
parts-inj d [] t [] y h k e = (refl, cc)
parts-inj d [] t (c ∷ x) y h (k, _) e = absurd (ground arith)
parts-inj d (c ∷ s) t [] y (h, _) k e = absurd (ground arith)
parts-inj d (c ∷ s) t (b ∷ x) y (_, h) (_, k) e = let (q, r) = parts-inj d s t x y h k cc in (cc, r)

show_nat-IsPart : (d n : ℕ) → ((c : ℕ) → IsDigit c → (c == d) ≡ false) → IsPart d (show_nat n)
show_nat-IsPart d n f = of_digits (show_nat n) (show_nat-IsDigit n)
  where
    of_digits : (s : Text) → All IsDigit s → IsPart d s
    of_digits [] h = tt
    of_digits (c ∷ s) (h, k) = (f c h, of_digits s k)

-- A label tells its forward.
forward_label-inj : (p q : PortForward) → forward_label p ≡ forward_label q → p ≡ q
unfolding forward_label text
forward_label-inj p q e =
    let (host, rest) =
      parts-inj b':' (show_nat p.host_port) _ (show_nat q.host_port) _
        (show_nat-IsPart b':' p.host_port (λ c h. ground arith))
        (show_nat-IsPart b':' q.host_port (λ c h. ground arith)) cc in
    let (guest, done) =
      parts-inj b')' (show_nat p.guest_port) [] (show_nat q.guest_port) []
        (show_nat-IsPart b')' p.guest_port (λ c h. ground arith))
        (show_nat-IsPart b')' q.guest_port (λ c h. ground arith)) rest in
    cc (show_nat_inj _ _ host, show_nat_inj _ _ guest)

-- The first letters of the labels differ.
abbrev first : Text → ℕ
first [] = 0
first (c ∷ s) = c

label_of-inj : (u v : PortUse) → label_of u ≡ label_of v → u ≡ v
unfolding forward_label text
label_of-inj ssh ssh e = refl
label_of-inj vnc vnc e = refl
label_of-inj novnc novnc e = refl
label_of-inj redfish redfish e = refl
label_of-inj (forward p) (forward q) e = ap PortUse.forward (forward_label-inj p q e)
label_of-inj ssh vnc e = absurd (omega (arith, ap first e))
label_of-inj ssh novnc e = absurd (omega (arith, ap first e))
label_of-inj ssh redfish e = absurd (omega (arith, ap first e))
label_of-inj ssh (forward q) e = absurd (omega (arith, ap first e))
label_of-inj vnc ssh e = absurd (omega (arith, ap first e))
label_of-inj vnc novnc e = absurd (omega (arith, ap first e))
label_of-inj vnc redfish e = absurd (omega (arith, ap first e))
label_of-inj vnc (forward q) e = absurd (omega (arith, ap first e))
label_of-inj novnc ssh e = absurd (omega (arith, ap first e))
label_of-inj novnc vnc e = absurd (omega (arith, ap first e))
label_of-inj novnc redfish e = absurd (omega (arith, ap first e))
label_of-inj novnc (forward q) e = absurd (omega (arith, ap first e))
label_of-inj redfish ssh e = absurd (omega (arith, ap first e))
label_of-inj redfish vnc e = absurd (omega (arith, ap first e))
label_of-inj redfish novnc e = absurd (omega (arith, ap first e))
label_of-inj redfish (forward q) e = absurd (omega (arith, ap first e))
label_of-inj (forward p) ssh e = absurd (omega (arith, ap first e))
label_of-inj (forward p) vnc e = absurd (omega (arith, ap first e))
label_of-inj (forward p) novnc e = absurd (omega (arith, ap first e))
label_of-inj (forward p) redfish e = absurd (omega (arith, ap first e))

abbrev kind_of : PortUse → ℕ
kind_of (forward pf) = 1
kind_of _ = 0

-- No label of a forward is the label of a service.
forward_only : (pf : PortForward) (u : PortUse) → forward_label pf ≡ label_of u → kind_of u ≡ 1
forward_only pf u e = sym (ap kind_of (label_of-inj (forward pf) u e))

-- The part of the table for the services.
abbrev table : Bool → Bool → Bool → ℕ → ℕ → ℕ → ℕ → Dict ℕ
table redfish_on novnc_on vnc_on s v n r = add_if redfish_on (text "REDFISH_PORT") r (
    add_if novnc_on (text "NOVNC_PORT") n
      (add_if vnc_on (text "VNC_PORT") v ((text "SSH_PORT", s) ∷ [])))

table-ssh : (a b c : Bool) (s v n r : ℕ) → lookup (text "SSH_PORT") (table a b c s v n r) ≡ some s
unfolding lookup insert text list_beq
table-ssh true true true s v n r = refl
table-ssh true true false s v n r = refl
table-ssh true false true s v n r = refl
table-ssh true false false s v n r = refl
table-ssh false true true s v n r = refl
table-ssh false true false s v n r = refl
table-ssh false false true s v n r = refl
table-ssh false false false s v n r = refl

table-vnc :
    (a b c : Bool) (s v n r : ℕ)
    → c ≡ true
    → lookup (text "VNC_PORT") (table a b c s v n r) ≡ some v
unfolding lookup insert text list_beq
table-vnc true true true s v n r h = refl
table-vnc true true false s v n r h = cc
table-vnc true false true s v n r h = refl
table-vnc true false false s v n r h = cc
table-vnc false true true s v n r h = refl
table-vnc false true false s v n r h = cc
table-vnc false false true s v n r h = refl
table-vnc false false false s v n r h = cc

table-novnc :
    (a b c : Bool) (s v n r : ℕ)
    → b ≡ true
    → lookup (text "NOVNC_PORT") (table a b c s v n r) ≡ some n
unfolding lookup insert text list_beq
table-novnc true true true s v n r h = refl
table-novnc true true false s v n r h = refl
table-novnc true false true s v n r h = cc
table-novnc true false false s v n r h = cc
table-novnc false true true s v n r h = refl
table-novnc false true false s v n r h = refl
table-novnc false false true s v n r h = cc
table-novnc false false false s v n r h = cc

table-redfish :
    (a b c : Bool) (s v n r : ℕ)
    → a ≡ true
    → lookup (text "REDFISH_PORT") (table a b c s v n r) ≡ some r
unfolding lookup insert text list_beq
table-redfish true true true s v n r h = refl
table-redfish true true false s v n r h = refl
table-redfish true false true s v n r h = refl
table-redfish true false false s v n r h = refl
table-redfish false true true s v n r h = cc
table-redfish false true false s v n r h = cc
table-redfish false false true s v n r h = cc
table-redfish false false false s v n r h = cc

-- A forward leaves the other labels alone.
add_forwards-other :
    (a : Text) (pfs : List PortForward) (d : Dict ℕ)
    → ((pf : PortForward) → forward_label pf ≢ a)
    → lookup a (add_forwards pfs d) ≡ lookup a d
unfolding add_forwards
add_forwards-other a [] d h = refl
add_forwards-other a (pf ∷ pfs) d h =
    add_forwards-other a pfs (insert (forward_label pf) pf.host_port d) h
    ∙ ground (
      arith,
      lookup-insert (forward_label pf) a pf.host_port d,
      h pf,
      list_beq_iff (forward_label pf) a,
    )

add_forwards-keeps :
    (pf : PortForward) (pfs : List PortForward) (d : Dict ℕ)
    → lookup (forward_label pf) d ≡ some pf.host_port
    → lookup (forward_label pf) (add_forwards pfs d) ≡ some pf.host_port
unfolding add_forwards
add_forwards-keeps pf [] d h = h
add_forwards-keeps pf (q ∷ pfs) d h =
    add_forwards-keeps pf pfs (insert (forward_label q) q.host_port d)
      (elim (Bool-cases (forward_label q == forward_label pf)) [
        | inl e ↦
            let same =
              forward_label-inj q pf ((list_beq_iff (forward_label q) (forward_label pf)).0 e) in
            lookup-insert (forward_label q) (forward_label pf) q.host_port d
            ∙ rw e (ap (λ p. some p.host_port) same)
        | inr n ↦ lookup-insert (forward_label q) (forward_label pf) q.host_port d ∙ rw n h
      ])

add_forwards-among :
    (pf : PortForward) (pfs : List PortForward) (d : Dict ℕ)
    → IsAmong pf pfs
    → lookup (forward_label pf) (add_forwards pfs d) ≡ some pf.host_port
unfolding add_forwards
add_forwards-among pf [] d h = elim h [ ]
add_forwards-among pf (_ ∷ pfs) d (here _) =
    add_forwards-keeps pf pfs (insert (forward_label pf) pf.host_port d) (
      lookup-insert (forward_label pf) (forward_label pf) pf.host_port d
      ∙ rw (eq_refl (forward_label pf)) refl)
add_forwards-among pf (q ∷ pfs) d (there _ _ h) =
    add_forwards-among pf pfs (insert (forward_label q) q.host_port d) h

-- What the table says of every use.
lookup-Listens :
    (sv : Services) (pfs : List PortForward) (u : PortUse) (port : ℕ)
    → Listens sv pfs u port
    → lookup (label_of u) (active_ports sv pfs) ≡ some port
unfolding active_ports
lookup-Listens sv pfs ssh port on_ssh =
    add_forwards-other (text "SSH_PORT") pfs _
      (λ pf e. absurd (omega (arith, forward_only pf ssh e)))
    ∙ table-ssh sv.redfish sv.novnc (sv.vnc || sv.novnc) sv.ssh_port sv.vnc_port sv.novnc_port
        sv.redfish_port
lookup-Listens sv pfs vnc port (on_vnc h) =
    add_forwards-other (text "VNC_PORT") pfs _
      (λ pf e. absurd (omega (arith, forward_only pf vnc e)))
    ∙ table-vnc sv.redfish sv.novnc (sv.vnc || sv.novnc) sv.ssh_port sv.vnc_port sv.novnc_port
        sv.redfish_port h
lookup-Listens sv pfs novnc port (on_novnc h) =
    add_forwards-other (text "NOVNC_PORT") pfs _
      (λ pf e. absurd (omega (arith, forward_only pf novnc e)))
    ∙ table-novnc sv.redfish sv.novnc (sv.vnc || sv.novnc) sv.ssh_port sv.vnc_port sv.novnc_port
        sv.redfish_port h
lookup-Listens sv pfs redfish port (on_redfish h) =
    add_forwards-other (text "REDFISH_PORT") pfs _
      (λ pf e. absurd (omega (arith, forward_only pf redfish e)))
    ∙ table-redfish sv.redfish sv.novnc (sv.vnc || sv.novnc) sv.ssh_port sv.vnc_port sv.novnc_port
        sv.redfish_port h
lookup-Listens sv pfs (forward pf) port (on_forward _ h) = add_forwards-among pf pfs _ h

lookup-contains :
    (a : Text) (port : ℕ) (d : Dict ℕ) → lookup a d ≡ some port → contains (values d) port ≡ true
unfolding lookup contains
lookup-contains a port [] e = cc
lookup-contains a port ((k, v) ∷ d) e = ground (arith, lookup-contains a port d)

-- In a table of distinct ports, a port has one label.
lookup-inj :
    (a b : Text) (port : ℕ) (d : Dict ℕ)
    → AreDistinct (values d)
    → lookup a d ≡ some port
    → lookup b d ≡ some port
    → a ≡ b
unfolding lookup
lookup-inj a b port [] h e f = cc
lookup-inj a b port ((k, v) ∷ d) (c, h) e f = ground (
  arith,
  lookup-inj a b port d h,
  lookup-contains a port d,
  lookup-contains b port d,
  list_beq_iff k a,
  list_beq_iff k b,
)

-- Where the ports of the table are distinct, no port has two uses.
pub distinct-Listens :
    (sv : Services) (pfs : List PortForward)
    → AreDistinct (values (active_ports sv pfs))
    → (u v : PortUse) (port : ℕ) → Listens sv pfs u port
    → Listens sv pfs v port
    → u ≡ v
distinct-Listens sv pfs h u v port k l = label_of-inj u v (
    lookup-inj (label_of u) (label_of v) port (active_ports sv pfs) h
      (lookup-Listens sv pfs u port k) (lookup-Listens sv pfs v port l))

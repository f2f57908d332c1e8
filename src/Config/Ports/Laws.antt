-- ===== src/Config/Ports/Laws.antt =====
-- What the forwarded ports are, and that a list of them is read back as it was written.
use mathlib.Core.Path.{subst}
use docker_vm_runner.Base.{
  ℕ, ◌≤◌, ℤ, pos, to_nat, Text, text, strip, split_on, join_with, is_space, is_empty, true, false,
  some, List, [], ◌∷◌, ◌++◌, map, has_char, ◌==◌, nat_eq, show_nat, parse_int, parse_int-show_nat,
  show_nat-IsDigit, IsDigit, All, All-append, ok, Reason, or_raise, guard, ◌≡◌, refl, ap, ◌∙◌,
  arith, inl, inr, >>=-eq-ok, ok-inj, guard-eq-ok, Bool-cases,
}
use docker_vm_runner.Base.Chars.Laws.{strip-eq_self}
use docker_vm_runner.Base.Chars.Split.{IsPart, split_on-part, split_on-append, split_on-join_with}
use docker_vm_runner.Models.{PortForward}
use docker_vm_runner.Utils.Env.{Env, get_env}
use docker_vm_runner.Config.Ports.{
  is_port, forward_of, forward_of_parts, forwards_of, parse_port_forwards,
}

-- Both ports are ports.
abbrev pub IsForward : PortForward → Type 0
IsForward pf =
    (1 ≤ pf.host_port) × (pf.host_port ≤ 65535) × (1 ≤ pf.guest_port) × (pf.guest_port ≤ 65535)

is_port-range : (p : ℤ) → is_port p ≡ true → (1 ≤ to_nat p) × (to_nat p ≤ 65535)
is_port-range p h = ground arith

forward_of-IsForward :
    (entry host guest : Text) (pf : PortForward)
    → forward_of entry host guest ≡ ok pf
    → IsForward pf
unfolding forward_of
forward_of-IsForward entry host guest pf e =
    let (h, e1, r1) = >>=-eq-ok (or_raise (parse_int host) (Reason.port_fwd_integers entry)) _ e in
    let (g, e2, r2) =
      >>=-eq-ok (or_raise (parse_int guest) (Reason.port_fwd_integers entry)) _ r1 in
    let (u, e3, r3) = >>=-eq-ok (guard (is_port h) (Reason.host_port_range entry)) _ r2 in
    let (v, e4, r4) = >>=-eq-ok (guard (is_port g) (Reason.guest_port_range entry)) _ r3 in
    let (a, b) = is_port-range h (guard-eq-ok _ _ e3) in
    let (c, d) = is_port-range g (guard-eq-ok _ _ e4) in subst IsForward (ok-inj r4) (a, b, c, d)

forward_of_parts-IsForward :
    (entry : Text) (parts : List Text) (pf : PortForward)
    → forward_of_parts entry parts ≡ ok pf
    → IsForward pf
unfolding forward_of_parts
forward_of_parts-IsForward entry [] pf e = cc
forward_of_parts-IsForward entry (a ∷ []) pf e = cc
forward_of_parts-IsForward entry (a ∷ b ∷ []) pf e = forward_of-IsForward entry a b pf e
forward_of_parts-IsForward entry (a ∷ b ∷ c ∷ ps) pf e = cc

forwards_of-IsForward :
    (items : List Text) (pfs : List PortForward) → forwards_of items ≡ ok pfs → All IsForward pfs
unfolding forwards_of
forwards_of-IsForward [] [] e = tt
forwards_of-IsForward [] (pf ∷ pfs) e = cc
forwards_of-IsForward (item ∷ items) pfs e = elim (Bool-cases (is_empty (strip item))) [
  | inl q ↦ forwards_of-IsForward items pfs (rw q at e)
  | inr q ↦
      let (pf, e1, r1) =
        >>=-eq-ok (forward_of_parts (strip item) (split_on b':' (strip item))) _ (rw q at e) in
      let (rest, e2, r2) = >>=-eq-ok (forwards_of items) (λ rest. ok (pf ∷ rest)) r1 in
      subst (All IsForward) (ok-inj r2)
        (forward_of_parts-IsForward _ _ pf e1, forwards_of-IsForward items rest e2)
]

-- Every forward that PORT_FWD gives has both its ports between 1 and 65535.
pub parse_port_forwards-IsForward :
    (env : Env) (pfs : List PortForward) → parse_port_forwards env ≡ ok pfs → All IsForward pfs
unfolding parse_port_forwards
parse_port_forwards-IsForward env pfs e = forwards_of-IsForward _ pfs e

-- An entry as a user writes it.
unfoldable pub show_forward : PortForward → Text
show_forward pf = show_nat pf.host_port ++ (b':' ∷ show_nat pf.guest_port)

-- A digit is neither white space nor one of the two separators.
abbrev IsPlain : ℕ → Type 0
IsPlain c = (is_space c ≡ false) × ((c == b',') ≡ false)

digit-IsPlain : (c : ℕ) → IsDigit c → IsPlain c × ((c == b':') ≡ false)
unfolding is_space
digit-IsPlain c h = ground arith

module _ {ℓ κ} {P : ℕ → Type ℓ} {Q : ℕ → Type κ} (f : (c : ℕ) → P c → Q c) where
  All-impl : (s : Text) → All P s → All Q s
  All-impl [] h = tt
  All-impl (c ∷ s) (p, h) = (f c p, All-impl s h)

show_forward-IsPlain : (pf : PortForward) → All IsPlain (show_forward pf)
unfolding show_forward is_space
show_forward-IsPlain pf =
    All-append IsPlain (show_nat pf.host_port) (b':' ∷ show_nat pf.guest_port)
      (All-impl (λ c h. (digit-IsPlain c h).0) _ (show_nat-IsDigit pf.host_port))
      ((refl, refl), All-impl (λ c h. (digit-IsPlain c h).0) _ (show_nat-IsDigit pf.guest_port))

has_char-append : (s t : Text) → has_char b':' (s ++ (b':' ∷ t)) ≡ true
unfolding has_char
has_char-append [] t = ground arith
has_char-append (c ∷ s) t = ground (arith, has_char-append s t)

nonempty_of_char : (d : ℕ) (s : Text) → has_char d s ≡ true → is_empty s ≡ false
unfolding has_char
nonempty_of_char d [] h = cc
nonempty_of_char d (c ∷ s) h = refl

show_forward-nonempty : (pf : PortForward) → is_empty (show_forward pf) ≡ false
unfolding show_forward
show_forward-nonempty pf =
    let here : has_char b':' (show_nat pf.host_port ++ (b':' ∷ show_nat pf.guest_port)) ≡ true =
      has_char-append (show_nat pf.host_port) (show_nat pf.guest_port) in
    nonempty_of_char b':' (show_nat pf.host_port ++ (b':' ∷ show_nat pf.guest_port)) here

forward_of-shown :
    (entry : Text) (pf : PortForward)
    → IsForward pf
    → forward_of entry (show_nat pf.host_port) (show_nat pf.guest_port) ≡ ok pf
unfolding forward_of
forward_of-shown entry pf (a, b, c, d) =
    let host_port : is_port (pos pf.host_port) ≡ true = ground arith in
    let guest_port : is_port (pos pf.guest_port) ≡ true = ground arith in
    rw (parse_int-show_nat pf.host_port, parse_int-show_nat pf.guest_port)
      (rw (host_port, guest_port) refl)

forward_of-show_forward :
    (pf : PortForward)
    → IsForward pf
    → forward_of_parts (show_forward pf) (split_on b':' (show_forward pf)) ≡ ok pf
unfolding show_forward forward_of_parts forward_of
forward_of-show_forward pf h =
    let host_part : IsPart b':' (show_nat pf.host_port) =
      All-impl (λ c q. (digit-IsPlain c q).1) _ (show_nat-IsDigit pf.host_port) in
    let guest_part : IsPart b':' (show_nat pf.guest_port) =
      All-impl (λ c q. (digit-IsPlain c q).1) _ (show_nat-IsDigit pf.guest_port) in
    let parts : split_on b':' (show_nat pf.host_port ++ (b':' ∷ show_nat pf.guest_port))
        ≡ show_nat pf.host_port ∷ show_nat pf.guest_port ∷ [] =
      split_on-append b':' (show_nat pf.host_port) (show_nat pf.guest_port) host_part
      ∙ ap (λ t. show_nat pf.host_port ∷ t)
          (split_on-part b':' (show_nat pf.guest_port) guest_part) in
    ap (forward_of_parts (show_nat pf.host_port ++ (b':' ∷ show_nat pf.guest_port))) parts
    ∙ forward_of-shown _ pf h

-- Entries without white space and commas, as `show_forward` writes them, are read one by one.
forwards_of-shown :
    (pfs : List PortForward) → All IsForward pfs → forwards_of (map show_forward pfs) ≡ ok pfs
unfolding forwards_of
forwards_of-shown [] h = refl
forwards_of-shown (pf ∷ pfs) (p, h) =
    let same =
      strip-eq_self (show_forward pf) (All-impl (λ c q. q.0) _ (show_forward-IsPlain pf)) in
    let rest = forwards_of-shown pfs h in
    rw (same, show_forward-nonempty pf) (rw (forward_of-show_forward pf p, rest) refl)

parts-plain : (pfs : List PortForward) → All (IsPart b',') (map show_forward pfs)
parts-plain [] = tt
parts-plain (pf ∷ pfs) = (All-impl (λ c q. q.1) _ (show_forward-IsPlain pf), parts-plain pfs)

shown-nonempty :
    (pf : PortForward) (pfs : List PortForward)
    → is_empty (join_with b',' (map show_forward (pf ∷ pfs))) ≡ false
unfolding join_with
shown-nonempty pf [] = show_forward-nonempty pf
shown-nonempty pf (q ∷ pfs) = ground (arith, show_forward-nonempty pf)

-- Any list of forwards with ports between 1 and 65535 comes back unchanged from a PORT_FWD that
-- holds it as host:guest entries with commas in between.
pub parse_port_forwards-show_forward :
    (pf : PortForward) (pfs : List PortForward) (env : Env)
    → All IsForward (pf ∷ pfs)
    → get_env env (text "PORT_FWD") ≡ some (join_with b',' (map show_forward (pf ∷ pfs)))
    → parse_port_forwards env ≡ ok (pf ∷ pfs)
unfolding parse_port_forwards
parse_port_forwards-show_forward pf pfs env h e =
    let entries =
      split_on-join_with b',' (show_forward pf) (map show_forward pfs) (parts-plain (pf ∷ pfs)) in
    rw (e, shown-nonempty pf pfs) (ap forwards_of entries ∙ forwards_of-shown (pf ∷ pfs) h)

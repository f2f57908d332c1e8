-- ===== src/Effects/Outcomes.antt =====
-- What a program that returns has done: the answers that are on record, and what a sequence of
-- programs has brought about.
use docker_vm_runner.Base.{
  Bool, true, false, List, [], ◌∷◌, All, ◌≡◌, refl, ap, ◌∙◌, sym, subst, Result, ok, err, Error,
  if◌then◌else◌,
}
use docker_vm_runner.Effects.{
  Action, Reply, Done, Outside, World, Eff, pure, throw, ◌>>=◌, ◌>>◌, and_then, for_each,
  try_except, or_else,
}
use docker_vm_runner.Effects.Keep.{Keeps, Keeps-for_each}

-- The call was made, and this was its outcome.
pub data Answered (o : Outside) (a : Action) (r : Result (Reply a)) : List Action → Type 0 where
  latest : (log : List Action) → o a log ≡ r → Answered o a r (a ∷ log)
  earlier : (b : Action) (log : List Action) → Answered o a r log → Answered o a r (b ∷ log)

module _ {S A B : Type 0} where
  pub and_then-eq-ok :
      (next : A → Eff S B) (o : Outside) (r : Result A × World S) (b : B)
      → (and_then next o r).0 ≡ ok b
      → (a : A) × (r.0 ≡ ok a) × (and_then next o r ≡ next a o r.1)
  and_then-eq-ok next o (ok a, w) b e = (a, refl, refl)
  and_then-eq-ok next o (err x, w) b e = cc

  -- A sequence that returns: both parts have returned.
  pub seq-eq-ok :
      (run : Eff S A) (next : A → Eff S B) (o : Outside) (w : World S) (b : B)
      → ((run >>= next) o w).0 ≡ ok b
      → (a : A) × ((run o w).0 ≡ ok a) × ((run >>= next) o w ≡ next a o (run o w).1)
  unfolding ◌>>=◌
  seq-eq-ok run next o w b e = and_then-eq-ok next o (run o w) b e

module _ {S A B : Type 0} where
  and_then_ok :
      (next : A → Eff S B) (o : Outside) (r : Result A × World S) (a : A)
      → r.0 ≡ ok a
      → and_then next o r ≡ next a o r.1
  and_then_ok next o (m, w) a e = rw e refl

  -- A part that returns is followed by the next.
  pub seq_ok :
      (run : Eff S A) (next : A → Eff S B) (o : Outside) (w : World S) (a : A)
      → (run o w).0 ≡ ok a
      → (run >>= next) o w ≡ next a o (run o w).1
  unfolding ◌>>=◌
  seq_ok run next o w a e = and_then_ok next o (run o w) a e

-- A condition that holds whenever a program returns.
module _ {S : Type 0} (Q : Outside → World S → Type 0) where
  unfoldable pub Gives : {A : Type 0} → Eff S A → Type 0
  Gives {A} run = (o : Outside) (w : World S) (a : A) → (run o w).0 ≡ ok a → Q o (run o w).1

  pub Gives-throw : (A : Type 0) (x : Error) → Gives (throw {A = A} x)
  unfolding Gives throw
  Gives-throw A x o w a e = cc

  pub Gives-if :
      {A : Type 0} (b : Bool) (run other : Eff S A)
      → Gives run
      → Gives other
      → Gives (if b then run else other)
  Gives-if true run other h k = h
  Gives-if false run other h k = k

  or_else-Gives :
      {A : Type 0} (handler : Error → Eff S A) (o : Outside) (r : Result A × World S) (a : A)
      → ((b : A) → r.0 ≡ ok b → Q o r.1)
      → ((x : Error) → Gives (handler x))
      → (or_else handler o r).0 ≡ ok a
      → Q o (or_else handler o r).1
  unfolding Gives
  or_else-Gives handler o (ok b, w) a h k e = h b refl
  or_else-Gives handler o (err x, w) a h k e = k x o w a e

  pub Gives-try_except :
      {A : Type 0} (run : Eff S A) (handler : Error → Eff S A)
      → Gives run
      → ((x : Error) → Gives (handler x))
      → Gives (try_except run handler)
  unfolding Gives try_except
  Gives-try_except run handler h k o w a e = or_else-Gives handler o (run o w) a (h o w) k e

  pub Gives->>= :
      {A B : Type 0} (run : Eff S A) (next : A → Eff S B)
      → ((a : A) → Gives (next a))
      → Gives (run >>= next)
  unfolding Gives
  Gives->>= run next k o w b e =
      let (a, e1, e2) = seq-eq-ok run next o w b e in
      subst (λ r. Q o r.1) (sym e2) (k a o (run o w).1 b (ap (λ r. r.0) (sym e2) ∙ e))

  pub Gives->> : {A B : Type 0} (run : Eff S A) (rest : Eff S B) → Gives rest → Gives (run >> rest)
  unfolding ◌>>◌
  Gives->> run rest k = Gives->>= run (λ done. rest) (λ done. k)

-- A program that returns is followed by the rest.
pub then_ok :
    {S B : Type 0} (run : Eff S Done) (rest : Eff S B) (o : Outside) (w : World S)
    → (run o w).0 ≡ ok tt
    → (run >> rest) o w ≡ rest o (run o w).1
unfolding ◌>>◌
then_ok run rest o w e = seq_ok run (λ done. rest) o w tt e

module _ {S B : Type 0} (body : B → Eff S Done) (Q : B → Outside → World S → Type 0) where
  -- Each round brings about a condition that the later rounds keep.
  pub for_each-All :
      (brings : (b : B) (o : Outside) (w : World S) → (body b o w).0 ≡ ok tt → Q b o (body b o w).1)
      (keeps : (b c : B) → Keeps (Q b) (body c)) (bs : List B) (o : Outside) (w : World S)
      → (for_each bs body o w).0 ≡ ok tt
      → All (λ b. Q b o (for_each bs body o w).1) bs
  unfolding for_each Keeps
  for_each-All brings keeps [] o w e = tt
  for_each-All brings keeps (b ∷ bs) o w e =
      let (done, e1, e2) = seq-eq-ok (body b) (λ done. for_each bs body) o w tt e in
      subst (λ r. Q b o r.1 × All (λ c. Q c o r.1) bs) (sym e2)
        (
          Keeps-for_each (Q b) bs body (keeps b) o (body b o w).1 (brings b o w e1),
          for_each-All brings keeps bs o (body b o w).1 (ap (λ r. r.0) (sym e2) ∙ e),
        )

  pub for_each_ok :
      (o : Outside)
      → ((b : B) (w : World S) → (body b o w).0 ≡ ok tt)
      → (bs : List B) (w : World S) → (for_each bs body o w).0 ≡ ok tt
  unfolding for_each pure
  for_each_ok o returns [] w = refl
  for_each_ok o returns (b ∷ bs) w =
      ap (λ r. r.0) (seq_ok (body b) (λ done. for_each bs body) o w tt (returns b w))
      ∙ for_each_ok o returns bs (body b o w).1

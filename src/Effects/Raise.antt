-- ===== src/Effects/Raise.antt =====
-- Which errors a program can end with, against one outside.
use docker_vm_runner.Base.{
  ◌≡◌, refl, Bool, true, false, List, [], ◌∷◌, Result, ok, err, Error, if◌then◌else◌,
}
use docker_vm_runner.Effects.{
  Action, Done, Outside, World, Eff, pure, throw, ◌>>=◌, ◌>>◌, and_then, try_except, or_else,
  perform, get, modify, for_each,
}

-- The result is a value, or one of these errors.
abbrev pub AtMost : {A : Type 0} → (Error → Type 0) → Result A → Type 0
AtMost E (ok a) = Unit
AtMost E (err x) = E x

-- No error at all.
abbrev pub Never : Error → Type 0
Never x = ⊥

pub AtMost-Never : {A : Type 0} (r : Result A) → AtMost Never r → (a : A) × (r ≡ ok a)
AtMost-Never (ok a) h = (a, refl)
AtMost-Never (err x) h = elim h [ ]

unfoldable pub Raises : {S : Type 0} → Outside → (Error → Type 0) → {A : Type 0} → Eff S A → Type 0
Raises {S = S} o E run = (w : World S) → AtMost E (run o w).0

module _ (S : Type 0) (o : Outside) (E : Error → Type 0) where
  pub Raises-perform :
      (a : Action) → ((log : List Action) → AtMost E (o a log)) → Raises {S = S} o E (perform a)
  unfolding Raises perform
  Raises-perform a h w = h w.log

  pub Raises-pure : {A : Type 0} (a : A) → Raises {S = S} o E (pure a)
  unfolding Raises pure
  Raises-pure a w = tt

  pub Raises-throw : (A : Type 0) (x : Error) → E x → Raises {S = S} o E (throw {A = A} x)
  unfolding Raises throw
  Raises-throw A x h w = h

  pub Raises-get : Raises {S = S} o E get
  unfolding Raises get
  Raises-get w = tt

  pub Raises-modify : (change : S → S) → Raises {S = S} o E (modify change)
  unfolding Raises modify
  Raises-modify change w = tt

  and_then-Raises :
      {A B : Type 0} (next : A → Eff S B) (r : Result A × World S)
      → AtMost E r.0
      → ((a : A) → Raises {S = S} o E (next a))
      → AtMost E (and_then next o r).0
  unfolding Raises
  and_then-Raises next (ok a, w) h k = k a w
  and_then-Raises next (err x, w) h k = h

  pub Raises->>= :
      {A B : Type 0} (run : Eff S A) (next : A → Eff S B)
      → Raises {S = S} o E run
      → ((a : A) → Raises {S = S} o E (next a))
      → Raises {S = S} o E (run >>= next)
  unfolding Raises ◌>>=◌
  Raises->>= run next h k w = and_then-Raises next (run o w) (h w) k

  pub Raises->> :
      {A B : Type 0} (run : Eff S A) (rest : Eff S B)
      → Raises {S = S} o E run
      → Raises {S = S} o E rest
      → Raises {S = S} o E (run >> rest)
  unfolding ◌>>◌
  Raises->> run rest h k = Raises->>= run (λ done. rest) h (λ done. k)

  pub Raises-if :
      {A : Type 0} (b : Bool) (run other : Eff S A)
      → Raises {S = S} o E run
      → Raises {S = S} o E other
      → Raises {S = S} o E (if b then run else other)
  Raises-if true run other h k = h
  Raises-if false run other h k = k

  pub Raises-for_each :
      {B : Type 0} (bs : List B) (body : B → Eff S Done)
      → ((b : B) → Raises {S = S} o E (body b))
      → Raises {S = S} o E (for_each bs body)
  unfolding for_each
  Raises-for_each [] body k = Raises-pure tt
  Raises-for_each (b ∷ bs) body k =
      Raises->>= (body b) (λ done. for_each bs body) (k b) (λ done. Raises-for_each bs body k)

  or_else-Raises :
      {A : Type 0} (F : Error → Type 0) (handler : Error → Eff S A) (r : Result A × World S)
      → AtMost F r.0
      → ((x : Error) → F x → Raises {S = S} o E (handler x))
      → AtMost E (or_else handler o r).0
  unfolding Raises
  or_else-Raises F handler (ok a, w) h k = tt
  or_else-Raises F handler (err x, w) h k = k x h w

  pub Raises-try_except :
      {A : Type 0} (F : Error → Type 0) (run : Eff S A) (handler : Error → Eff S A)
      → Raises {S = S} o F run
      → ((x : Error) → F x → Raises {S = S} o E (handler x))
      → Raises {S = S} o E (try_except run handler)
  unfolding Raises try_except
  Raises-try_except F run handler h k w = or_else-Raises F handler (run o w) (h w) k

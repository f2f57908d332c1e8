-- ===== src/Effects/Keep.antt =====
-- What a program keeps: a condition on the world that holds after it if it held before, whatever
-- the outside answers.
use docker_vm_runner.Base.{Bool, true, false, List, [], ◌∷◌, Result, ok, err, Error, if◌then◌else◌}
use docker_vm_runner.Effects.{
  Done, Outside, World, Eff, pure, throw, ◌>>=◌, ◌>>◌, and_then, try_except, or_else, try_finally,
  then_result, get, for_each,
}

module _ {S : Type 0} (P : Outside → World S → Type 0) where
  unfoldable pub Keeps : {A : Type 0} → Eff S A → Type 0
  Keeps run = (o : Outside) (w : World S) → P o w → P o (run o w).1

  module _ {A : Type 0} where
    pub Keeps-pure : (a : A) → Keeps (pure a)
    unfolding Keeps pure
    Keeps-pure a o w h = h

    pub and_then-Keeps :
        {B : Type 0} (next : A → Eff S B) (o : Outside) (r : Result A × World S)
        → ((a : A) → Keeps (next a))
        → P o r.1
        → P o (and_then next o r).1
    unfolding Keeps
    and_then-Keeps next o (ok a, w) k h = k a o w h
    and_then-Keeps next o (err x, w) k h = h

    pub Keeps->>= :
        {B : Type 0} (run : Eff S A) (next : A → Eff S B)
        → Keeps run
        → ((a : A) → Keeps (next a))
        → Keeps (run >>= next)
    unfolding Keeps ◌>>=◌
    Keeps->>= run next k l o w h = and_then-Keeps next o (run o w) l (k o w h)

    pub Keeps->> :
        {B : Type 0} (run : Eff S A) (rest : Eff S B) → Keeps run → Keeps rest → Keeps (run >> rest)
    unfolding Keeps ◌>>◌
    Keeps->> run rest k l = Keeps->>= run (λ done. rest) k (λ done. l)

    pub or_else-Keeps :
        (handler : Error → Eff S A) (o : Outside) (r : Result A × World S)
        → ((x : Error) → Keeps (handler x))
        → P o r.1
        → P o (or_else handler o r).1
    unfolding Keeps
    or_else-Keeps handler o (ok a, w) k h = h
    or_else-Keeps handler o (err x, w) k h = k x o w h

    pub Keeps-try_except :
        (run : Eff S A) (handler : Error → Eff S A)
        → Keeps run
        → ((x : Error) → Keeps (handler x))
        → Keeps (try_except run handler)
    unfolding Keeps try_except
    Keeps-try_except run handler k l o w h = or_else-Keeps handler o (run o w) l (k o w h)

    then_result-Keeps :
        (o : Outside) (m : Result A) (r : Result Done × World S) → P o r.1 → P o (then_result m r).1
    then_result-Keeps o m (ok done, w) h = h
    then_result-Keeps o m (err x, w) h = h

    pub Keeps-try_finally :
        (run : Eff S A) (last : Eff S Done) → Keeps run → Keeps last → Keeps (try_finally run last)
    unfolding Keeps try_finally
    Keeps-try_finally run last k l o w h =
        then_result-Keeps o (run o w).0 (last o (run o w).1) (l o (run o w).1 (k o w h))

    pub Keeps-if :
        (b : Bool) (run other : Eff S A)
        → Keeps run
        → Keeps other
        → Keeps (if b then run else other)
    Keeps-if true run other k l = k
    Keeps-if false run other k l = l

  pub Keeps-throw : (A : Type 0) (x : Error) → Keeps (throw {A = A} x)
  unfolding Keeps throw
  Keeps-throw A x o w h = h

  pub Keeps-get : Keeps get
  unfolding Keeps get
  Keeps-get o w h = h

  pub Keeps-for_each :
      {B : Type 0} (bs : List B) (body : B → Eff S Done)
      → ((b : B) → Keeps (body b))
      → Keeps (for_each bs body)
  unfolding for_each
  Keeps-for_each [] body k = Keeps-pure tt
  Keeps-for_each (b ∷ bs) body k =
      Keeps->>= (body b) (λ done. for_each bs body) (k b) (λ done. Keeps-for_each bs body k)

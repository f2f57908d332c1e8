-- ===== src/Effects/Calls.antt =====
-- Which calls a program makes, however it ends.
use docker_vm_runner.Base.{List, [], ◌∷◌, All, sym, subst, Error}
use docker_vm_runner.Effects.{Action, Outside, World, Eff, ◌>>=◌, ◌>>◌, try_except}
use docker_vm_runner.Effects.Keep.{Keeps, and_then-Keeps, or_else-Keeps}
use docker_vm_runner.Effects.Outcomes.{Gives, seq-eq-ok}

pub data Called (a : Action) : List Action → Type 0 where
  just_now : (log : List Action) → Called a (a ∷ log)
  sooner : (b : Action) (log : List Action) → Called a log → Called a (b ∷ log)

-- All of these calls are among those that were made.
abbrev pub AllCalled : List Action → List Action → Type 0
AllCalled duties log = All (λ a. Called a log) duties

pub AllCalled-more :
    (b : Action) (duties log : List Action) → AllCalled duties log → AllCalled duties (b ∷ log)
AllCalled-more b [] log h = tt
AllCalled-more b (a ∷ duties) log (h, hs) = (sooner b log h, AllCalled-more b duties log hs)

-- A condition that holds after a program, however it ends.
module _ (S : Type 0) (Q : Outside → World S → Type 0) where
  unfoldable pub Leaves : {A : Type 0} → Eff S A → Type 0
  Leaves run = (o : Outside) (w : World S) → Q o (run o w).1

  pub Leaves-first :
      {A B : Type 0} (run : Eff S A) (next : A → Eff S B)
      → Leaves run
      → ((a : A) → Keeps Q (next a))
      → Leaves (run >>= next)
  unfolding Leaves ◌>>=◌
  Leaves-first run next h k o w = and_then-Keeps Q next o (run o w) k (h o w)

  pub Leaves-try_except :
      {A : Type 0} (run : Eff S A) (handler : Error → Eff S A)
      → Leaves run
      → ((x : Error) → Keeps Q (handler x))
      → Leaves (try_except run handler)
  unfolding Leaves try_except
  Leaves-try_except run handler h k o w = or_else-Keeps Q handler o (run o w) k (h o w)

  -- A part that keeps the condition may come before or behind the one that brings it about.
  pub Gives-first :
      {A B : Type 0} (run : Eff S A) (next : A → Eff S B)
      → Gives Q run
      → ((a : A) → Keeps Q (next a))
      → Gives Q (run >>= next)
  unfolding Gives Keeps
  Gives-first run next h k o w b e =
      let (a, e1, e2) = seq-eq-ok run next o w b e in
      subst (λ r. Q o r.1) (sym e2) (k a o (run o w).1 (h o w a e1))

  pub Gives-before :
      {A B : Type 0} (run : Eff S A) (rest : Eff S B)
      → Gives Q run
      → Keeps Q rest
      → Gives Q (run >> rest)
  unfolding ◌>>◌
  Gives-before run rest h k = Gives-first run (λ done. rest) h (λ done. k)

  pub Leaves-Gives : {A : Type 0} (run : Eff S A) → Leaves run → Gives Q run
  unfolding Gives Leaves
  Leaves-Gives run h o w a e = h o w

-- ===== src/Vm/Wait/Phases.antt =====
-- What the wait promises of the calls that it makes, as moves between three phases, and that the
-- handler and the loop only make such moves.
use docker_vm_runner.Base.{
  ℕ, Bool, true, false, Option, some, List, [], ◌∷◌, ◌++◌, ◌≡◌, refl, ◌∙◌, sym, ap, append-nil,
  append_assoc, subst, inl, inr, if◌then◌else◌, Bool-cases,
}
use docker_vm_runner.Vm.Wait.{
  sigterm, sigint, Event, signal, poll, DomainCall, shutdown, destroy, Answers, Wait, fresh,
  shutdown_calls, do_shutdown, pressed_twice, request_shutdown, is_gone, react, step, run,
}

-- Before the request, after it, and after the return.
pub data Phase : Type 0 where
  waiting stopping gone : Phase

pub data Move : Phase → List DomainCall → Phase → Type 0 where
  stay : {p : Phase} → Move p [] p
  ask : Move waiting (shutdown ∷ []) stopping
  force : Move waiting (shutdown ∷ destroy ∷ []) stopping
  leave : {p : Phase} → Move p [] gone

-- Any number of moves, with all the calls that they make.
pub data Moves : Phase → List DomainCall → Phase → Type 0 where
  here : {p : Phase} → Moves p [] p
  and_then :
      {p q r : Phase} {cs ds : List DomainCall} → Move p cs q → Moves q ds r → Moves p (cs ++ ds) r

abbrev phase_of : Bool → Bool → Phase
phase_of asked true = gone
phase_of true false = stopping
phase_of false false = waiting

abbrev pub phase : Wait → Phase
phase w = phase_of w.shutdown_requested w.returned

asking : (a : Answers) → Move waiting (shutdown_calls a) stopping
unfolding shutdown_calls
asking a = elim (Bool-cases a.shutdown_ok) [ inl good ↦ rw good ask | inr bad ↦ rw bad force ]

-- A step makes a move, and adds the calls of the move to those that were made.
abbrev pub Simulates : Answers → Wait → Event → Type 0
Simulates a w e =
    (cs : List DomainCall) × Move (phase w) cs (phase (step a w e))
    × ((step a w e).calls ≡ w.calls ++ cs)

-- The state, by its four parts.
abbrev state : Bool → Option ℕ → List DomainCall → Bool → Wait
state asked last made done = record {
  shutdown_requested = asked;
  first_sigint_time = last;
  calls = made;
  returned = done;
}

module _ (a : Answers) where
  shutdown_simulates :
      (asked : Bool) (last : Option ℕ) (made : List DomainCall)
      → (cs : List DomainCall) × Move
          (phase_of asked false)
          cs
          (phase (do_shutdown a (state asked last made false)))
        × ((do_shutdown a (state asked last made false)).calls ≡ made ++ cs)
  unfolding do_shutdown
  shutdown_simulates true last made = ([], stay, sym (append-nil made))
  shutdown_simulates false last made = (shutdown_calls a, asking a, refl)

  -- A SIGINT that is, or is not, the second press.
  press_simulates :
      (asked : Bool) (last : Option ℕ) (made : List DomainCall) (t : ℕ) (twice : Bool)
      → (cs : List DomainCall) × Move (phase_of asked false) cs (
          phase (
            if twice
            then do_shutdown a (state asked last made false)
            else state asked (some t) made false))
        × ((if twice
              then do_shutdown a (state asked last made false)
              else state asked (some t) made false).calls
            ≡ made ++ cs)
  press_simulates asked last made t true = shutdown_simulates asked last made
  press_simulates asked last made t false = ([], stay, sym (append-nil made))

  poll-Move : (asked gone_now : Bool) → Move (phase_of asked false) [] (phase_of asked gone_now)
  poll-Move asked true = leave
  poll-Move asked false = stay

  parts_simulate :
      (asked : Bool) (last : Option ℕ) (made : List DomainCall) (done : Bool) (e : Event)
      → Simulates a (state asked last made done) e
  unfolding step react request_shutdown
  parts_simulate asked last made true e = ([], stay, sym (append-nil made))
  parts_simulate asked last made false (signal sigterm t) = shutdown_simulates asked last made
  parts_simulate asked last made false (signal sigint t) =
      press_simulates asked last made t (pressed_twice last t)
  parts_simulate asked last made false (poll answer) =
      ([], poll-Move asked (is_gone answer), sym (append-nil made))

  step-Simulates : (w : Wait) (e : Event) → Simulates a w e
  step-Simulates w e = parts_simulate w.shutdown_requested w.first_sigint_time w.calls w.returned e

  run_simulates :
      (w : Wait) (es : List Event)
      → (cs : List DomainCall) × Moves (phase w) cs (phase (run a w es))
        × ((run a w es).calls ≡ w.calls ++ cs)
  unfolding run
  run_simulates w [] = ([], here, sym (append-nil w.calls))
  run_simulates w (e ∷ es) =
      let (cs, move, made) = step-Simulates w e in
      let (ds, moves, more) = run_simulates (step a w e) es in
      (cs ++ ds, and_then move moves, more ∙ ap (λ xs. xs ++ ds) made ∙ append_assoc w.calls cs ds)

-- Whatever the signals, the answers of the domain and the moment of the return: the wait moves
-- between the phases as they allow, and makes just the calls of these moves.
pub run_refines_moves :
    (a : Answers) (es : List Event) → Moves waiting (run a fresh es).calls (phase (run a fresh es))
run_refines_moves a es =
    let (cs, moves, made) = run_simulates a fresh es in
    subst (λ xs. Moves waiting xs (phase (run a fresh es))) (sym made) moves

-- Nothing, one `shutdown`, or a `shutdown` and then one `destroy`.
pub data Allowed : List DomainCall → Type 0 where
  nothing : Allowed []
  asked_once : Allowed (shutdown ∷ [])
  forced : Allowed (shutdown ∷ destroy ∷ [])

-- The calls that are still allowed in a phase.
abbrev Within : Phase → List DomainCall → Type 0
Within waiting cs = Allowed cs
Within stopping cs = cs ≡ []
Within gone cs = cs ≡ []

no_calls : (p : Phase) → Within p []
no_calls waiting = nothing
no_calls stopping = refl
no_calls gone = refl

Within-Move :
    {p q : Phase} {cs : List DomainCall} (ds : List DomainCall)
    → Move p cs q
    → Within q ds
    → Within p (cs ++ ds)
Within-Move ds stay rest = rest
Within-Move ds ask rest = subst (λ ds. Allowed (shutdown ∷ ds)) (sym rest) asked_once
Within-Move ds force rest = subst (λ ds. Allowed (shutdown ∷ destroy ∷ ds)) (sym rest) forced
Within-Move {p} ds leave rest = subst (Within p) (sym rest) (no_calls p)

Within-Moves : {p q : Phase} {cs : List DomainCall} → Moves p cs q → Within p cs
Within-Moves {p} here = no_calls p
Within-Moves (and_then move moves) = Within-Move _ move (Within-Moves moves)

-- The machine is asked to shut down at most once, and destroyed at most once, after that.
calls-Allowed : (a : Answers) (es : List Event) → Allowed (run a fresh es).calls
calls-Allowed a es = Within-Moves (run_refines_moves a es)

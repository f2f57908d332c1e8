-- ===== src/Vm/Wait/Laws.antt =====
-- When the machine is asked to shut down, how often, and when the wait ends.
use docker_vm_runner.Base.{
  ℕ, ◌+◌, ltb, Bool, true, false, ◌||◌, Option, none, some, List, [], ◌∷◌, ◌++◌, ◌≡◌, refl, ◌∙◌, ap,
  inl, inr, arith, if◌then◌else◌, Bool-cases,
}
use docker_vm_runner.Vm.Wait.{
  sigterm, sigint, Event, signal, poll, DomainCall, Answers, Wait, fresh, window, shutdown_calls,
  do_shutdown, pressed_twice, request_shutdown, is_gone, react, step, run,
}

-- The events until the loop ends.
abbrev pub live : List Event → List Event
live [] = []
live (signal s t ∷ es) = signal s t ∷ live es
live (poll answer ∷ es) = if is_gone answer then poll answer ∷ [] else poll answer ∷ live es

-- Some event is a SIGTERM.
abbrev pub has_sigterm : List Event → Bool
has_sigterm [] = false
has_sigterm (signal sigterm t ∷ es) = true
has_sigterm (signal sigint t ∷ es) = has_sigterm es
has_sigterm (poll answer ∷ es) = has_sigterm es

-- The times of the SIGINTs.
abbrev pub presses : List Event → List ℕ
presses [] = []
presses (signal sigterm t ∷ es) = presses es
presses (signal sigint t ∷ es) = t ∷ presses es
presses (poll answer ∷ es) = presses es

-- Some number is followed by one that is less than the window later.
abbrev pub close_pair : List ℕ → Bool
close_pair [] = false
close_pair (t ∷ []) = false
close_pair (t ∷ u ∷ ts) = ltb u (t + window) || close_pair (u ∷ ts)

abbrev since : Option ℕ → List ℕ → List ℕ
since none ts = ts
since (some t) ts = t ∷ ts

-- The state, by its four parts.
abbrev state : Bool → Option ℕ → List DomainCall → Bool → Wait
state asked last made done = record {
  shutdown_requested = asked;
  first_sigint_time = last;
  calls = made;
  returned = done;
}

module _ (a : Answers) where
  -- The first event leads to the state from which the rest goes on.
  asked_by :
      (w : Wait) (e : Event) (es : List Event) {v : Wait} {b : Bool}
      → step a w e ≡ v
      → (run a v es).shutdown_requested ≡ b
      → (run a w (e ∷ es)).shutdown_requested ≡ b
  unfolding run
  asked_by w e es first rest = ap (λ w. (run a w es).shutdown_requested) first ∙ rest

  sigint_twice :
      (asked : Bool) (last : Option ℕ) (made : List DomainCall) (t : ℕ)
      → pressed_twice last t ≡ true
      → step a (state asked last made false) (signal sigint t)
        ≡ do_shutdown a (state asked last made false)
  unfolding step react request_shutdown
  sigint_twice asked last made t twice = rw twice refl

  sigint_once :
      (asked : Bool) (last : Option ℕ) (made : List DomainCall) (t : ℕ)
      → pressed_twice last t ≡ false
      → step a (state asked last made false) (signal sigint t) ≡ state asked (some t) made false
  unfolding step react request_shutdown
  sigint_once asked last made t once = rw once refl

  poll_answer :
      (asked : Bool) (last : Option ℕ) (made : List DomainCall) (answer : Option Bool)
      → step a (state asked last made false) (poll answer) ≡ state asked last made (is_gone answer)
  unfolding step react
  poll_answer asked last made answer = refl

  stays_asked :
      (last : Option ℕ) (made : List DomainCall) (done : Bool) (es : List Event)
      → (run a (state true last made done) es).shutdown_requested ≡ true
  unfolding run step react request_shutdown do_shutdown
  stays_asked last made done [] = refl
  stays_asked last made true (e ∷ es) = stays_asked last made true es
  stays_asked last made false (signal sigterm t ∷ es) = stays_asked last made false es
  stays_asked last made false (signal sigint t ∷ es) = elim (Bool-cases (pressed_twice last t)) [
    | inl twice ↦
        asked_by (state true last made false) (signal sigint t) es
          (sigint_twice true last made t twice) (stays_asked last made false es)
    | inr once ↦
        asked_by (state true last made false) (signal sigint t) es
          (sigint_once true last made t once) (stays_asked (some t) made false es)
  ]
  stays_asked last made false (poll answer ∷ es) = stays_asked last made (is_gone answer) es

  stays_returned :
      (asked : Bool) (last : Option ℕ) (made : List DomainCall) (es : List Event)
      → run a (state asked last made true) es ≡ state asked last made true
  unfolding run step
  stays_returned asked last made [] = refl
  stays_returned asked last made (e ∷ es) = stays_returned asked last made es

  stays_sigterm :
      (last : Option ℕ) (made : List DomainCall) (t : ℕ) (es : List Event)
      → (run a (state false last made false) (signal sigterm t ∷ es)).shutdown_requested ≡ true
  unfolding run step react request_shutdown do_shutdown
  stays_sigterm last made t es = stays_asked last (made ++ shutdown_calls a) false es

  close_pair-since :
      (last : Option ℕ) (t : ℕ) (ts : List ℕ)
      → close_pair (since last (t ∷ ts)) ≡ (pressed_twice last t || close_pair (t ∷ ts))
  close_pair-since none t ts = refl
  close_pair-since (some first) t ts = refl

  no_pair : (last : Option ℕ) → close_pair (since last []) ≡ false
  no_pair none = refl
  no_pair (some first) = refl

  asked_from :
      (last : Option ℕ) (made : List DomainCall) (es : List Event)
      → (run a (state false last made false) es).shutdown_requested
        ≡ (has_sigterm (live es) || close_pair (since last (presses (live es))))
  unfolding run do_shutdown
  asked_from last made [] = rw (no_pair last) refl
  asked_from last made (signal sigterm t ∷ es) = stays_sigterm last made t es
  asked_from last made (signal sigint t ∷ es) = elim (Bool-cases (pressed_twice last t)) [
    | inl twice ↦
        asked_by (state false last made false) (signal sigint t) es
          (sigint_twice false last made t twice)
          (stays_asked last (made ++ shutdown_calls a) false es)
        ∙ ground (arith, close_pair-since last t (presses (live es)), twice)
    | inr once ↦
        asked_by (state false last made false) (signal sigint t) es
          (sigint_once false last made t once) (asked_from (some t) made es)
        ∙ cc (close_pair-since last t (presses (live es)), once)
  ]
  asked_from last made (poll answer ∷ es) = elim (Bool-cases (is_gone answer)) [
    | inl gone ↦
        asked_by (state false last made false) (poll answer) es
          (poll_answer false last made answer ∙ ap (state false last made) gone)
          (ap (λ w. w.shutdown_requested) (stays_returned false last made es))
        ∙ rw (gone, no_pair last) refl
    | inr active ↦
        asked_by (state false last made false) (poll answer) es
          (poll_answer false last made answer ∙ ap (state false last made) active)
          (asked_from last made es)
        ∙ rw active refl
  ]

-- The shutdown is requested exactly when, before the wait ends, a SIGTERM arrives, or a SIGINT
-- arrives less than three seconds after the SIGINT before it.
pub shutdown_requested_iff :
    (a : Answers) (es : List Event)
    → (run a fresh es).shutdown_requested
      ≡ (has_sigterm (live es) || close_pair (presses (live es)))
shutdown_requested_iff a es = asked_from a none [] es

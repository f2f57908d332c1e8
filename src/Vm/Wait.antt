-- ===== src/Vm/Wait.antt =====
-- app/vm.py: `wait_until_stopped`. The signal handler runs between the steps of the loop, so a run
-- is a sequence of events: a signal that arrives, or a round of the loop with what `isActive` says.
-- Times are in milliseconds.
pub mod Laws
pub mod Phases
pub mod Tests
use docker_vm_runner.Base.{
  ℕ, ◌+◌, ltb, Bool, true, false, not, ◌||◌, Option, none, some, List, [], ◌∷◌, ◌++◌, if◌then◌else◌,
}

pub data Signal : Type 0 where
  sigterm sigint : Signal

pub data Event : Type 0 where
  signal : Signal → ℕ → Event
  -- The answer of `isActive`; `none` is a `libvirtError`.
  poll : Option Bool → Event

pub data DomainCall : Type 0 where
  shutdown destroy : DomainCall

-- Whether `shutdown` and `destroy` succeed; a failure is a `libvirtError`.
pub record Answers : Type 0 where
  pub shutdown_ok : Bool
  pub destroy_ok : Bool

-- The variables that the handler and the loop share, the calls that were made of the domain, and
-- whether the function has returned.
pub record Wait : Type 0 where
  pub shutdown_requested : Bool
  pub first_sigint_time : Option ℕ
  pub calls : List DomainCall
  pub returned : Bool

abbrev pub fresh : Wait
fresh = record {
  shutdown_requested = false;
  first_sigint_time = none;
  calls = [];
  returned = false;
}

-- `_DOUBLE_PRESS_WINDOW`
abbrev pub window : ℕ
window = 3000

-- `try: shutdown except: try: destroy except: log`
unfoldable pub shutdown_calls : Answers → List DomainCall
shutdown_calls a = if a.shutdown_ok then shutdown ∷ [] else shutdown ∷ destroy ∷ []

unfoldable pub do_shutdown : Answers → Wait → Wait
do_shutdown a w =
    if w.shutdown_requested
    then w
    else record w { shutdown_requested = true; calls = w.calls ++ shutdown_calls a }

-- `now - first < 3.0`; the clock may have been set back.
abbrev pub pressed_twice : Option ℕ → ℕ → Bool
pressed_twice none now = false
pressed_twice (some first) now = ltb now (first + window)

unfoldable pub request_shutdown : Answers → Signal → ℕ → Wait → Wait
request_shutdown a sigterm now w = do_shutdown a w
request_shutdown a sigint now w =
    if pressed_twice w.first_sigint_time now
    then do_shutdown a w
    else record w { first_sigint_time = some now }

-- The loop ends when the domain is not active, or cannot be asked.
abbrev pub is_gone : Option Bool → Bool
is_gone none = true
is_gone (some active) = not active

unfoldable pub react : Answers → Event → Wait → Wait
react a (signal s now) w = request_shutdown a s now w
react a (poll answer) w = record w { returned = is_gone answer }

-- After the return the former handlers are back, and nothing here reacts.
unfoldable pub step : Answers → Wait → Event → Wait
unfolding react
step a w e = if w.returned then w else react a e w

unfoldable pub run : Answers → Wait → List Event → Wait
run a w [] = w
run a w (e ∷ es) = run a (step a w e) es

-- ===== src/Services/Grows.antt =====
-- The services only add to the record of calls: what holds of a record and of all longer ones holds
-- after `start_novnc` and `stop` if it held before.
use docker_vm_runner.Base.{ℕ, Text, Option, none, some, List, ◌∷◌, Error, ℤ}
use docker_vm_runner.Effects.{Action, terminate, kill, Outside, World, perform, modify}
use docker_vm_runner.Effects.Keep.{
  Keeps, Keeps-pure, Keeps-throw, Keeps->>=, Keeps->>, Keeps-try_except, Keeps-if, Keeps-get,
  Keeps-for_each,
}
use docker_vm_runner.Services.{Services, spawn}
use docker_vm_runner.Services.Redfish.{has_certificate, ensure_certificates}
use docker_vm_runner.Services.Session.{
  launch_novnc, start_novnc, missing_tool, if_alive, ask_to_end, on_timeout, await_end, stop_all,
  stop,
}

module _ (L : Outside → List Action → Type 0)
    (grows : (o : Outside) (a : Action) (log : List Action) → L o log → L o (a ∷ log)) where
  unfoldable pub Logged : Outside → World Services → Type 0
  Logged o w = L o w.log

  perform-Logged : (a : Action) → Keeps Logged (perform a)
  unfolding Keeps perform Logged
  perform-Logged a o w h = grows o a w.log h

  modify-Logged : (change : Services → Services) → Keeps Logged (modify change)
  unfolding Keeps modify Logged
  modify-Logged change o w h = h

  ruleset logged = (
    Keeps-pure, Keeps-throw, Keeps->>=, Keeps->>, Keeps-try_except, Keeps-if, Keeps-get,
    Keeps-for_each, perform-Logged, modify-Logged,
  )

  ensure_certificates-Logged : Keeps Logged ensure_certificates
  unfolding ensure_certificates has_certificate Keeps
  ensure_certificates-Logged = search logged depth 20

  spawn-Logged : (command : List Text) → Keeps Logged (spawn command)
  unfolding spawn Keeps
  spawn-Logged command = search logged depth 20

  missing_tool-Logged :
      (A : Type 0) (name : Text) (x : Error)
      → Keeps Logged (missing_tool {S = Services} {A = A} name x)
  missing_tool-Logged A name Error.not_found_error = Keeps-throw Logged A _
  missing_tool-Logged A name x = Keeps-throw Logged A x

  launch_novnc-Logged : Keeps Logged launch_novnc
  unfolding launch_novnc Keeps
  launch_novnc-Logged =
      search (logged, spawn-Logged, ensure_certificates-Logged, missing_tool-Logged) depth 20

  pub start_novnc-Logged : Keeps Logged start_novnc
  unfolding start_novnc Keeps
  start_novnc-Logged = search (logged, launch_novnc-Logged) depth 20

  if_alive-Logged :
      (proc : ℕ) (status : Option ℤ) → Keeps Logged (if_alive {S = Services} proc status)
  if_alive-Logged proc none = perform-Logged (terminate proc)
  if_alive-Logged proc (some code) = Keeps-pure Logged tt

  on_timeout-Logged : (proc : ℕ) (x : Error) → Keeps Logged (on_timeout {S = Services} proc x)
  on_timeout-Logged proc Error.timeout_expired = perform-Logged (kill proc)
  on_timeout-Logged proc x = Keeps-throw Logged _ x

  pub stop-Logged : Keeps Logged stop
  unfolding stop stop_all ask_to_end await_end Keeps
  stop-Logged = search (logged, if_alive-Logged, on_timeout-Logged) depth 24

-- ===== src/Vm/Lifecycle/Running.antt =====
-- `start` returns only when the machine runs.
use docker_vm_runner.Base.{
  ℕ, Text, has_infix, Bool, true, false, Option, none, some, List, ◌∷◌, ◌≡◌, refl, sym, ap, ◌∙◌,
  subst, ◌⊎◌, inl, inr, Result, ok, err, Error, Reason, if◌then◌else◌,
}
use docker_vm_runner.Effects.{
  Action, is_active, create, Done, Outside, World, Eff, pure, throw, ◌>>=◌, ◌>>◌, and_then, or_else,
  try_except, perform, within,
}
use docker_vm_runner.Effects.Keep.{Keeps, Keeps-pure, Keeps->>=, Keeps-if, Keeps-get}
use docker_vm_runner.Effects.Outcomes.{
  Answered, latest, earlier, seq-eq-ok, Gives, Gives->>=, Gives-throw, Gives-if,
}
use docker_vm_runner.Services.Pool.{on_libvirt_error}
use docker_vm_runner.Vm.Manager.{Manager, on_services}
use docker_vm_runner.Effects.Calls.{Gives-before}
use docker_vm_runner.Services.Grows.{Logged, start_novnc-Logged}
use docker_vm_runner.Services.Session.{start_novnc}
use docker_vm_runner.Vm.Lifecycle.{
  is_cgroup_message, is_network_message, on_create_error, try_network_fallback, fallback_with,
  restart_without_passt, create_new, passt_backend, ensure_running, novnc_if_enabled, start,
}

-- libvirt said that the domain is active, or created one without an error.
abbrev pub RunsIn : Outside → List Action → Type 0
RunsIn o log =
    (d : ℕ) × (Answered o (is_active d) (ok true) log ⊎ Answered o (create d) (ok tt) log)

abbrev pub IsRunning : Outside → World Manager → Type 0
IsRunning o w = RunsIn o w.log

-- What holds after a program that returns `true`.
Confirms : Eff Manager Bool → Type 0
Confirms run = (o : Outside) (w : World Manager) → (run o w).0 ≡ ok true → IsRunning o (run o w).1

seq-Confirms :
    {A : Type 0} (run : Eff Manager A) (next : A → Eff Manager Bool)
    → ((a : A) → Confirms (next a))
    → Confirms (run >>= next)
unfolding Confirms
seq-Confirms run next k o w e =
    let (a, e1, e2) = seq-eq-ok run next o w true e in
    subst (λ r. IsRunning o r.1) (sym e2) (k a o (run o w).1 (ap (λ r. r.0) (sym e2) ∙ e))

by_result :
    (o : Outside) (r : Result Bool × World Manager)
    → (r.0 ≡ ok true → IsRunning o r.1)
    → (or_else (on_libvirt_error false) o r).0 ≡ ok true
    → IsRunning o (or_else (on_libvirt_error false) o r).1
unfolding pure throw
by_result o (ok b, v) k e = k e
by_result o (err (Error.libvirt_error message), v) k e = cc
by_result o (err x, v) k e = cc

try-Confirms :
    (run : Eff Manager Bool) → Confirms run → Confirms (try_except run (on_libvirt_error false))
unfolding Confirms try_except
try-Confirms run h o w e = by_result o (run o w) (h o w) e

created :
    {A : Type 0} (d : ℕ) (a : A) (o : Outside) (w : World Manager)
    → ((perform (create d) >> pure a) o w).0 ≡ ok a
    → IsRunning o ((perform (create d) >> pure a) o w).1
unfolding ◌>>◌ perform pure
created d a o w e =
    let (done, e1, e2) = seq-eq-ok (perform (create d)) (λ done. pure a) o w a e in
    subst (λ r. IsRunning o r.1) (sym e2) (d, inr (latest w.log e1))

create_new-Confirms : (domain : Option ℕ) → Confirms (create_new domain)
unfolding Confirms pure
create_new-Confirms none o w e = cc
create_new-Confirms (some d) o w e = created d true o w e

then-Confirms :
    {A : Type 0} (run : Eff Manager A) (rest : Eff Manager Bool)
    → Confirms rest
    → Confirms (run >> rest)
unfolding ◌>>◌
then-Confirms run rest k = seq-Confirms run (λ done. rest) (λ done. k)

not-Confirms : Confirms (pure false)
unfolding Confirms pure
not-Confirms o w e = cc

if-Confirms :
    (b : Bool) (run : Eff Manager Bool) → Confirms run → Confirms (if b then run else pure false)
if-Confirms true run k = k
if-Confirms false run k = not-Confirms

restart-Confirms : (conn d : ℕ) (self : Manager) → Confirms (restart_without_passt conn d self)
unfolding restart_without_passt
restart-Confirms conn d self = seq-Confirms _ _ (λ xml.
    if-Confirms (has_infix xml passt_backend) _ (
      then-Confirms _ _
        (seq-Confirms _ _ (λ fresh. then-Confirms _ _ (create_new-Confirms fresh)))))

fallback_with-Confirms :
    (conn domain : Option ℕ) (self : Manager) → Confirms (fallback_with conn domain self)
fallback_with-Confirms (some conn) (some d) self = try-Confirms _ (restart-Confirms conn d self)
fallback_with-Confirms none domain self = not-Confirms
fallback_with-Confirms (some conn) none self = not-Confirms

fallback-Confirms : Confirms try_network_fallback
unfolding try_network_fallback
fallback-Confirms = seq-Confirms _ _ (λ self. fallback_with-Confirms self.conn self.domain self)

-- The handler of an error of `create` returns only after the fallback has started the machine.
recover : Text → Eff Manager Done
recover message = try_network_fallback >>= λ recovered.
    if recovered then pure tt else throw (Error.manager (Reason.start_failed message))

recovered :
    (message : Text) (o : Outside) (r : Result Bool × World Manager) (a : Done)
    → (r.0 ≡ ok true → IsRunning o r.1)
    → (and_then
        (λ good. if good then pure tt else throw (Error.manager (Reason.start_failed message)))
        o
        r).0
      ≡ ok a
    → IsRunning o
        (and_then
          (λ good. if good then pure tt else throw (Error.manager (Reason.start_failed message)))
          o
          r).1
unfolding pure throw
recovered message o (ok true, v) a k e = k refl
recovered message o (ok false, v) a k e = cc
recovered message o (err x, v) a k e = cc

recover-Gives : (message : Text) → Gives IsRunning (recover message)
unfolding Gives recover ◌>>=◌ Confirms
recover-Gives message o w a e =
    recovered message o (try_network_fallback o w) a (fallback-Confirms o w) e

on_create_error-Gives : (x : Error) → Gives IsRunning (on_create_error x)
unfolding recover
on_create_error-Gives (Error.libvirt_error message) =
    Gives-if IsRunning (is_cgroup_message message) _ _ (Gives-throw IsRunning _ _) (
      Gives-if IsRunning (is_network_message message) _ _ (recover-Gives message)
        (Gives-throw IsRunning _ _))
on_create_error-Gives x = Gives-throw IsRunning _ x

after_create :
    (d : ℕ) (o : Outside) (w : World Manager) (r : Result Done) (a : Done)
    → o (create d) w.log ≡ r
    → (or_else on_create_error o (r, record w { log = create d ∷ w.log })).0 ≡ ok a
    → IsRunning o (or_else on_create_error o (r, record w { log = create d ∷ w.log })).1
unfolding Gives
after_create d o w (ok done) a q e = (d, inr (latest w.log q))
after_create d o w (err x) a q e =
    on_create_error-Gives x o (record w { log = create d ∷ w.log }) a e

create-Gives : (d : ℕ) → Gives IsRunning (try_except (perform (create d)) on_create_error)
unfolding Gives try_except perform
create-Gives d o w a e = after_create d o w (o (create d) w.log) a refl e

after_question :
    (d : ℕ) (o : Outside) (w : World Manager) (r : Result Bool) (a : Done)
    → o (is_active d) w.log ≡ r
    → (and_then
        (λ active. if active then pure tt else try_except (perform (create d)) on_create_error)
        o
        (r, record w { log = is_active d ∷ w.log })).0
      ≡ ok a
    → IsRunning o
        (and_then
          (λ active. if active then pure tt else try_except (perform (create d)) on_create_error)
          o
          (r, record w { log = is_active d ∷ w.log })).1
unfolding Gives pure
after_question d o w (ok true) a q e = (d, inl (latest w.log q))
after_question d o w (ok false) a q e =
    create-Gives d o (record w { log = is_active d ∷ w.log }) a e
after_question d o w (err x) a q e = cc

ensure_running-Gives : (d : ℕ) → Gives IsRunning (ensure_running d)
unfolding ensure_running Gives ◌>>=◌ perform
ensure_running-Gives d o w a e = after_question d o w (o (is_active d) w.log) a refl e

-- What is on record stays.
RunsIn-grows : (o : Outside) (a : Action) (log : List Action) → RunsIn o log → RunsIn o (a ∷ log)
RunsIn-grows o a log (d, inl h) = (d, inl (earlier a log h))
RunsIn-grows o a log (d, inr h) = (d, inr (earlier a log h))

novnc-Keeps : Keeps IsRunning (on_services start_novnc)
unfolding Keeps on_services within Logged
novnc-Keeps o w h =
    start_novnc-Logged RunsIn RunsIn-grows o (record { self = w.self.services; log = w.log }) h

novnc_if_enabled-Keeps : Keeps IsRunning novnc_if_enabled
unfolding novnc_if_enabled
novnc_if_enabled-Keeps = Keeps->>= IsRunning _ _ (Keeps-get IsRunning) (λ self.
    Keeps-if IsRunning self.machine.cfg.novnc_enabled _ _ novnc-Keeps (Keeps-pure IsRunning tt))

start-Gives : Gives IsRunning start
unfolding start
start-Gives = Gives->>= IsRunning _ _ (λ self. Gives->>= IsRunning _ _ (λ domain.
    Gives-before Manager IsRunning _ _ (ensure_running-Gives domain) novnc_if_enabled-Keeps))

-- When `start` returns, libvirt had said that a domain is active, or had created one without an
-- error, be it after the fallback of the network.
pub start_runs :
    (o : Outside) (w : World Manager)
    → (start o w).0 ≡ ok tt
    → (d : ℕ) × (Answered o (is_active d) (ok true) (start o w).1.log
        ⊎ Answered o (create d) (ok tt) (start o w).1.log)
unfolding Gives
start_runs o w e = start-Gives o w tt e

-- ===== src/Services/Session/Laws.antt =====
-- `stop` and `start_novnc`: what is done when they return, and that a second call does nothing.
use docker_vm_runner.Base.{
  ℕ, true, false, Bool-cases, Option, none, some, List, [], ◌∷◌, All, ◌≡◌, refl, sym, ap, ◌∙◌,
  subst, ◌⊎◌, inl, inr, Result, ok, err, Error, ℤ,
}
use docker_vm_runner.Effects.{
  Action, poll, terminate, wait_process, kill, Done, Outside, World, pure, throw, ◌>>=◌, ◌>>◌,
  or_else, try_except, perform, get, modify, for_each,
}
use docker_vm_runner.Effects.Keep.{
  Keeps, Keeps-pure, Keeps-throw, Keeps->>=, Keeps->>, Keeps-try_except, Keeps-if, Keeps-get,
  Keeps-for_each,
}
use docker_vm_runner.Effects.Outcomes.{
  Answered, latest, earlier, seq-eq-ok, seq_ok, for_each-All, for_each_ok, Gives, Gives->>=,
  Gives->>,
}
use docker_vm_runner.Services.{Services}
use docker_vm_runner.Services.Session.{
  set_shutdown, if_alive, ask_to_end, on_timeout, await_end, stop_all, stop, start_novnc,
  launch_novnc, set_novnc_started,
}

-- The process had ended, or it was told to.
abbrev pub Asked : ℕ → Outside → World Services → Type 0
Asked p o w =
    ((code : ℤ) × Answered o (poll p) (ok (some code)) w.log)
    ⊎ Answered o (terminate p) (ok tt) w.log

-- It ended within five seconds, or it was killed.
abbrev pub Ended : ℕ → Outside → World Services → Type 0
Ended p o w = Answered o (wait_process p) (ok tt) w.log ⊎ Answered o (kill p) (ok tt) w.log

perform-Asked : (p : ℕ) (a : Action) → Keeps (Asked p) (perform a)
unfolding Keeps perform
perform-Asked p a o w (inl (code, h)) = inl (code, earlier a w.log h)
perform-Asked p a o w (inr h) = inr (earlier a w.log h)

perform-Ended : (p : ℕ) (a : Action) → Keeps (Ended p) (perform a)
unfolding Keeps perform
perform-Ended p a o w (inl h) = inl (earlier a w.log h)
perform-Ended p a o w (inr h) = inr (earlier a w.log h)

ruleset keep = (
  Keeps-pure, Keeps-throw, Keeps->>=, Keeps->>, Keeps-try_except, Keeps-if, Keeps-get,
  Keeps-for_each,
)

-- Both loops keep what the calls keep.
module _ (P : Outside → World Services → Type 0) (kept : (a : Action) → Keeps P (perform a)) where
  if_alive-Keeps : (p : ℕ) (status : Option ℤ) → Keeps P (if_alive p status)
  if_alive-Keeps p none = kept (terminate p)
  if_alive-Keeps p (some code) = Keeps-pure P tt

  ask_to_end-Keeps : (p : ℕ) → Keeps P (ask_to_end p)
  unfolding ask_to_end
  ask_to_end-Keeps p = Keeps->>= P _ _ (kept (poll p)) (if_alive-Keeps p)

  on_timeout-Keeps : (p : ℕ) (x : Error) → Keeps P (on_timeout p x)
  on_timeout-Keeps p Error.timeout_expired = kept (kill p)
  on_timeout-Keeps p x = Keeps-throw P _ _

  await_end-Keeps : (p : ℕ) → Keeps P (await_end p)
  unfolding await_end
  await_end-Keeps p = Keeps-try_except P _ _ (kept (wait_process p)) (on_timeout-Keeps p)

if_alive-Asked :
    (p : ℕ) (status : Option ℤ) (o : Outside) (w : World Services)
    → o (poll p) w.log ≡ ok status
    → (if_alive p status o (record w { log = poll p ∷ w.log })).0 ≡ ok tt
    → Asked p o (if_alive p status o (record w { log = poll p ∷ w.log })).1
unfolding perform pure
if_alive-Asked p none o w q e = inr (latest _ e)
if_alive-Asked p (some code) o w q e = inl (code, latest _ q)

ask_to_end-Asked :
    (p : ℕ) (o : Outside) (w : World Services)
    → (ask_to_end p o w).0 ≡ ok tt
    → Asked p o (ask_to_end p o w).1
unfolding ask_to_end perform
ask_to_end-Asked p o w e =
    let (status, e1, e2) = seq-eq-ok (perform (poll p)) (if_alive p) o w tt e in
    subst (λ r. Asked p o r.1) (sym e2)
      (if_alive-Asked p status o w e1 (ap (λ r. r.0) (sym e2) ∙ e))

await_result :
    (p : ℕ) (r : Result Done) (o : Outside) (w : World Services)
    → o (wait_process p) w.log ≡ r
    → (or_else (on_timeout p) o (r, record w { log = wait_process p ∷ w.log })).0 ≡ ok tt
    → Ended p o (or_else (on_timeout p) o (r, record w { log = wait_process p ∷ w.log })).1
unfolding perform throw
await_result p (ok done) o w q e = inl (latest _ q)
await_result p (err Error.timeout_expired) o w q e = inr (latest _ e)
await_result p (err x) o w q e = cc

await_end-Ended :
    (p : ℕ) (o : Outside) (w : World Services)
    → (await_end p o w).0 ≡ ok tt
    → Ended p o (await_end p o w).1
unfolding await_end perform try_except
await_end-Ended p o w e = await_result p (o (wait_process p) w.log) o w refl e

Asked-later :
    (qs ps : List ℕ) (o : Outside) (v : World Services)
    → All (λ p. Asked p o v) qs
    → All (λ p. Asked p o (for_each ps await_end o v).1) qs
unfolding Keeps
Asked-later [] ps o v h = tt
Asked-later (q ∷ qs) ps o v (h, hs) = (
  Keeps-for_each (Asked q) ps await_end (await_end-Keeps (Asked q) (perform-Asked q)) o v h,
  Asked-later qs ps o v hs,
)

stop_all-All :
    (ps : List ℕ) (o : Outside) (w : World Services)
    → (stop_all ps o w).0 ≡ ok tt
    → All (λ p. Asked p o (stop_all ps o w).1) ps × All (λ p. Ended p o (stop_all ps o w).1) ps
unfolding stop_all ◌>>◌
stop_all-All ps o w e =
    let (done, e1, e2) =
      seq-eq-ok (for_each ps ask_to_end) (λ done. for_each ps await_end) o w tt e in
    let rest = ap (λ r. r.0) (sym e2) ∙ e in
    let asked =
      for_each-All ask_to_end Asked ask_to_end-Asked
        (λ p c. ask_to_end-Keeps (Asked p) (perform-Asked p) c) ps o w e1 in
    subst (λ r. All (λ p. Asked p o r.1) ps × All (λ p. Ended p o r.1) ps) (sym e2)
      (
        Asked-later ps ps o (for_each ps ask_to_end o w).1 asked,
        for_each-All await_end Ended await_end-Ended
            (λ p c. await_end-Keeps (Ended p) (perform-Ended p) c) ps o
            (for_each ps ask_to_end o w).1 rest,
      )

stop_running :
    (o : Outside) (w : World Services)
    → w.self.shutdown ≡ false
    → stop o w ≡ stop_all w.self.processes o (record w { self = set_shutdown w.self })
unfolding stop ◌>>=◌ ◌>>◌ get modify
stop_running o w h = rw h refl

-- When `stop` returns, every process of the manager had ended or was told to, and ended within
-- five seconds or was killed.
pub stop_settles :
    (o : Outside) (w : World Services)
    → w.self.shutdown ≡ false
    → (stop o w).0 ≡ ok tt
    → All (λ p. Asked p o (stop o w).1) w.self.processes
      × All (λ p. Ended p o (stop o w).1) w.self.processes
stop_settles o w h e =
    let q = stop_running o w h in
    subst
      (λ r. All (λ p. Asked p o r.1) w.self.processes × All (λ p. Ended p o r.1) w.self.processes)
      (sym q)
      (stop_all-All w.self.processes o (record w { self = set_shutdown w.self })
        (ap (λ r. r.0) (sym q) ∙ e))

IsShut : Outside → World Services → Type 0
IsShut o w = w.self.shutdown ≡ true

perform-IsShut : (a : Action) → Keeps IsShut (perform a)
unfolding Keeps perform IsShut
perform-IsShut a o w h = h

stop_all-IsShut : (ps : List ℕ) → Keeps IsShut (stop_all ps)
unfolding stop_all
stop_all-IsShut ps =
    Keeps->> IsShut _ _ (Keeps-for_each IsShut ps _ (ask_to_end-Keeps IsShut perform-IsShut))
      (Keeps-for_each IsShut ps _ (await_end-Keeps IsShut perform-IsShut))

stop_shut : (o : Outside) (w : World Services) → w.self.shutdown ≡ true → stop o w ≡ (ok tt, w)
unfolding stop ◌>>=◌ get pure
stop_shut o w h = rw h refl

pub stop_shuts : (o : Outside) (w : World Services) → (stop o w).1.self.shutdown ≡ true
unfolding stop Keeps IsShut ◌>>=◌ ◌>>◌ get modify pure
stop_shuts o w = elim (Bool-cases w.self.shutdown) [
  | inl shut ↦ ap (λ r. r.1.self.shutdown) (stop_shut o w shut) ∙ shut
  | inr running ↦
      ap (λ r. r.1.self.shutdown) (stop_running o w running)
      ∙ stop_all-IsShut w.self.processes o (record w { self = set_shutdown w.self }) refl
]

-- A second `stop` does nothing, whatever the outcome of the first.
stop_twice : (o : Outside) (w : World Services) → stop o (stop o w).1 ≡ (ok tt, (stop o w).1)
stop_twice o w = stop_shut o (stop o w).1 (stop_shuts o w)

-- What is documented of processes: `poll`, `terminate` and `kill` do not raise, and `wait` raises
-- nothing but `TimeoutExpired`.
pub record IsPosix (o : Outside) : Type 0 where
  pub polled : (p : ℕ) (log : List Action) → (status : Option ℤ) × (o (poll p) log ≡ ok status)
  pub terminated : (p : ℕ) (log : List Action) → o (terminate p) log ≡ ok tt
  pub killed : (p : ℕ) (log : List Action) → o (kill p) log ≡ ok tt
  pub waited :
      (p : ℕ) (log : List Action)
      → (o (wait_process p) log ≡ ok tt) ⊎ (o (wait_process p) log ≡ err Error.timeout_expired)

if_alive_ok :
    (o : Outside) (p : ℕ) (status : Option ℤ)
    → IsPosix o
    → (w : World Services) → (if_alive p status o w).0 ≡ ok tt
unfolding perform pure
if_alive_ok o p none h w = h.terminated p w.log
if_alive_ok o p (some code) h w = refl

ask_to_end_ok :
    (o : Outside) → IsPosix o → (p : ℕ) (w : World Services) → (ask_to_end p o w).0 ≡ ok tt
unfolding ask_to_end perform
ask_to_end_ok o h p w =
    let (status, e) = h.polled p w.log in
    ap (λ r. r.0) (seq_ok (perform (poll p)) (if_alive p) o w status e)
    ∙ if_alive_ok o p status h (record w { log = poll p ∷ w.log })

await_end_ok :
    (o : Outside) → IsPosix o → (p : ℕ) (w : World Services) → (await_end p o w).0 ≡ ok tt
unfolding await_end try_except perform
await_end_ok o h p w = elim (h.waited p w.log) [
  | inl e ↦ rw e refl
  | inr e ↦ rw e (h.killed p (wait_process p ∷ w.log))
]

-- Where processes behave as documented, `stop` returns.
pub stop_returns : (o : Outside) → IsPosix o → (w : World Services) → (stop o w).0 ≡ ok tt
unfolding stop_all ◌>>◌
stop_returns o h w = elim (Bool-cases w.self.shutdown) [
  | inl shut ↦ ap (λ r. r.0) (stop_shut o w shut)
  | inr running ↦
      ap (λ r. r.0) (stop_running o w running)
      ∙ ap (λ r. r.0)
          (seq_ok (for_each w.self.processes ask_to_end)
            (λ done. for_each w.self.processes await_end) o
            (record w { self = set_shutdown w.self }) tt
            (for_each_ok ask_to_end Asked o (ask_to_end_ok o h) w.self.processes _))
      ∙ for_each_ok await_end Ended o (await_end_ok o h) w.self.processes _
]

HasNovnc : Outside → World Services → Type 0
HasNovnc o w = w.self.novnc_started ≡ true

set_novnc_started-HasNovnc : Gives HasNovnc (modify set_novnc_started)
unfolding Gives modify HasNovnc
set_novnc_started-HasNovnc o w a e = refl

launch-HasNovnc : Gives HasNovnc launch_novnc
unfolding launch_novnc Gives
launch-HasNovnc = search (Gives->>=, Gives->>, set_novnc_started-HasNovnc) depth 14

start_novnc_started :
    (o : Outside) (w : World Services) → w.self.novnc_started ≡ true → start_novnc o w ≡ (ok tt, w)
unfolding start_novnc ◌>>=◌ get pure
start_novnc_started o w h = elim (Bool-cases w.self.vm_config.novnc_enabled) [
  | inl wanted ↦ rw (wanted, h) refl
  | inr unwanted ↦ rw unwanted refl
]

start_novnc_unwanted :
    (o : Outside) (w : World Services)
    → w.self.vm_config.novnc_enabled ≡ false
    → start_novnc o w ≡ (ok tt, w)
unfolding start_novnc ◌>>=◌ get pure
start_novnc_unwanted o w h = rw h refl

start_novnc_launch :
    (o : Outside) (w : World Services)
    → w.self.vm_config.novnc_enabled ≡ true
    → w.self.novnc_started ≡ false
    → start_novnc o w ≡ launch_novnc o w
unfolding start_novnc ◌>>=◌ get
start_novnc_launch o w h k = rw (h, k) refl

again :
    (o : Outside) (w : World Services) {r : Result Done × World Services}
    → start_novnc o w ≡ r
    → start_novnc o r.1 ≡ (ok tt, r.1)
    → start_novnc o (start_novnc o w).1 ≡ (ok tt, (start_novnc o w).1)
again o w e k = subst (λ r. start_novnc o r.1 ≡ (ok tt, r.1)) (sym e) k

-- Once `start_novnc` has returned, calling it again does nothing.
start_novnc_twice :
    (o : Outside) (w : World Services)
    → (start_novnc o w).0 ≡ ok tt
    → start_novnc o (start_novnc o w).1 ≡ (ok tt, (start_novnc o w).1)
unfolding Gives HasNovnc
start_novnc_twice o w e = elim (Bool-cases w.self.vm_config.novnc_enabled) [
  | inr unwanted ↦ again o w (start_novnc_unwanted o w unwanted) (start_novnc_unwanted o w unwanted)
  | inl wanted ↦ elim (Bool-cases w.self.novnc_started) [
    | inl started ↦ again o w (start_novnc_started o w started) (start_novnc_started o w started)
    | inr fresh ↦
        let q = start_novnc_launch o w wanted fresh in
        again o w q (
          start_novnc_started o (launch_novnc o w).1
            (launch-HasNovnc o w tt (ap (λ r. r.0) (sym q) ∙ e)))
  ]
]

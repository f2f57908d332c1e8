-- ===== src/Vm/Guest/Answers.antt =====
-- The wait for the guest agent ends, and returns True only after an answer.
use docker_vm_runner.Base.{
  ℕ, zero, suc, ◌+◌, ltb, Text, Bool, true, false, List, ◌∷◌, ℤ, pos, negsuc, Result, ok, err,
  Error, ◌≡◌, ◌≢◌, refl, sym, ap, ◌∙◌, subst, if◌then◌else◌,
}
use docker_vm_runner.Effects.{
  Action, capture, now, Outside, World, Eff, pure, throw, ◌>>=◌, ◌>>◌, and_then, or_else,
  try_except, perform, get,
}
use docker_vm_runner.Effects.Outcomes.{Answered, latest, seq-eq-ok}
use docker_vm_runner.Effects.Polling.{
  poll_until, poll_for, HasClock, IsOver, Tests, poll_for-Returns,
}
use docker_vm_runner.Vm.Manager.{Manager}
use docker_vm_runner.Vm.Guest.{ping_command, is_success, no_answer, ping, wait_for_guest_agent}

module _ (S : Type 0) (command : List Text) where
  -- If the program returns True, the guest has answered.
  Sure : Eff S Bool → Type 0
  Sure run =
      (o : Outside) (w : World S)
      → (run o w).0 ≡ ok true
      → (out : Text) × Answered o (capture command) (ok (pos 0, out)) (run o w).1.log

  next-Sure :
      {A : Type 0} (run : Eff S A) (next : A → Eff S Bool)
      → ((a : A) → Sure (next a))
      → Sure (run >>= next)
  unfolding Sure
  next-Sure run next k o w e =
      let (a, returned, same) = seq-eq-ok run next o w true e in
      rw same (k a o (run o w).1 (ap (λ r. r.0) (sym same) ∙ e))

  no-Sure : Sure (pure false)
  unfolding Sure pure
  no-Sure o w e = cc

  out-Sure : Sure (throw Error.out_of_fuel)
  unfolding Sure throw
  out-Sure o w e = cc

  outcome_of : Result (ℤ × Text) → Outside → World S → Result Bool × World S
  outcome_of r o w = or_else no_answer o (and_then (λ result. pure (is_success result)) o (r, w))

  success_of :
      (r : Result (ℤ × Text)) (o : Outside) (w : World S)
      → (outcome_of r o w).0 ≡ ok true
      → (out : Text) × (r ≡ ok (pos 0, out))
  unfolding outcome_of pure throw
  success_of (ok (pos zero, out)) o w e = (out, refl)
  success_of (ok (pos (suc n), out)) o w e = cc
  success_of (ok (negsuc n, out)) o w e = cc
  success_of (err Error.interrupted) o w e = cc
  success_of (err x) o w e = cc

  log_of_outcome :
      (r : Result (ℤ × Text)) (o : Outside) (w : World S) → (outcome_of r o w).1.log ≡ w.log
  unfolding outcome_of pure throw
  log_of_outcome (ok result) o w = refl
  log_of_outcome (err Error.interrupted) o w = refl
  log_of_outcome (err x) o w = refl

  outcome :
      (r : Result (ℤ × Text)) (o : Outside) (w : World S)
      → r ≢ err Error.interrupted
      → (b : Bool) × (outcome_of r o w ≡ (ok b, w))
  unfolding outcome_of pure
  outcome (ok result) o w h = (is_success result, refl)
  outcome (err Error.interrupted) o w h = absurd (h refl)
  outcome (err x) o w h = (false, refl)

  ping-Tests :
      (o : Outside)
      → ((log : List Action) → o (capture command) log ≢ err Error.interrupted)
      → Tests {S = S} o (capture command) (ping command)
  unfolding ping try_except ◌>>=◌ perform outcome_of
  ping-Tests o h w =
      outcome (o (capture command) w.log) o (record w { log = capture command ∷ w.log }) (h w.log)

  ping-Sure : Sure (ping command)
  unfolding Sure ping try_except ◌>>=◌ perform outcome_of
  ping-Sure o w e =
      let asked : World S = record w { log = capture command ∷ w.log } in
      let (out, answer) = success_of (o (capture command) w.log) o asked e in
      (out, rw (log_of_outcome (o (capture command) w.log) o asked) (latest w.log answer))

  go_on : Eff S Bool → Bool → Eff S Bool
  go_on rest there = if there then pure true else rest

  go_on-Sure :
      (rest : Eff S Bool) (there : Bool) (o : Outside) (w : World S)
      → Sure rest
      → (there ≡ true → (out : Text) × Answered o (capture command) (ok (pos 0, out)) w.log)
      → (go_on rest there o w).0 ≡ ok true
      → (out : Text) × Answered o (capture command) (ok (pos 0, out)) (go_on rest there o w).1.log
  unfolding Sure go_on pure
  go_on-Sure rest true o w h k e = k refl
  go_on-Sure rest false o w h k e = h o w e

  round-Sure : (rest : Eff S Bool) → Sure rest → Sure (ping command >>= go_on rest)
  unfolding Sure
  round-Sure rest h o w e =
      let (there, returned, same) = seq-eq-ok (ping command) (go_on rest) o w true e in
      subst (λ r. (out : Text) × Answered o (capture command) (ok (pos 0, out)) r.1.log) (sym same)
        (go_on-Sure rest there o (ping command o w).1 h
          (λ yes. ping-Sure o w (returned ∙ ap ok yes)) (ap (λ r. r.0) (sym same) ∙ e))

  if-Sure : (b : Bool) (run : Eff S Bool) → Sure run → Sure (if b then run else pure false)
  if-Sure true run h = h
  if-Sure false run h = no-Sure

  then-Sure : {A : Type 0} (run : Eff S A) (rest : Eff S Bool) → Sure rest → Sure (run >> rest)
  unfolding ◌>>◌
  then-Sure run rest h = next-Sure run _ (λ done. h)

  poll_until-Sure :
      (rounds deadline interval : ℕ) → Sure (poll_until rounds (ping command) deadline interval)
  unfolding poll_until go_on
  poll_until-Sure zero deadline interval = out-Sure
  poll_until-Sure (suc rounds) deadline interval = next-Sure _ _ (λ t.
      if-Sure (ltb t deadline) _
        (round-Sure _ (then-Sure _ _ (poll_until-Sure rounds deadline interval))))

wait_for_guest_agent-answer :
    (rounds timeout interval : ℕ) (uri : Text) (o : Outside) (w : World Manager)
    → (wait_for_guest_agent rounds uri timeout interval o w).0 ≡ ok true
    → (out : Text) × Answered o
        (capture (ping_command uri w.self))
        (ok (pos 0, out))
        (wait_for_guest_agent rounds uri timeout interval o w).1.log
unfolding wait_for_guest_agent get ◌>>=◌ poll_for Sure
wait_for_guest_agent-answer rounds timeout interval uri o w =
    next-Sure Manager (ping_command uri w.self) (perform now)
      (λ t. poll_until rounds (ping (ping_command uri w.self)) (t + timeout) interval)
      (λ t. poll_until-Sure Manager (ping_command uri w.self) rounds (t + timeout) interval) o w

wait_for_guest_agent-Returns :
    (rounds timeout interval : ℕ) (uri : Text) (o : Outside) (w : World Manager)
    → HasClock o
    → ((log : List Action) → o (capture (ping_command uri w.self)) log ≢ err Error.interrupted)
    → IsOver o rounds (capture (ping_command uri w.self)) timeout interval w.log
    → (there : Bool) × ((wait_for_guest_agent (suc rounds) uri timeout interval o w).0 ≡ ok there)
unfolding wait_for_guest_agent get ◌>>=◌
wait_for_guest_agent-Returns rounds timeout interval uri o w h free k =
    poll_for-Returns o rounds timeout interval (capture (ping_command uri w.self))
      (ping (ping_command uri w.self)) w h (ping-Tests Manager (ping_command uri w.self) o free) k

-- If the clock shows after so many pauses that the time is over, wait_for_guest_agent returns within
-- one round more, whatever becomes of the pings, except for an interrupt, and wherever the clock is set
-- before; and where it
-- returns True, a ping had ended with the status zero.
pub wait_for_guest_agent-Answers :
    (rounds timeout interval : ℕ) (uri : Text) (o : Outside) (w : World Manager)
    → HasClock o
    → ((log : List Action) → o (capture (ping_command uri w.self)) log ≢ err Error.interrupted)
    → IsOver o rounds (capture (ping_command uri w.self)) timeout interval w.log
    → (there : Bool) × ((wait_for_guest_agent (suc rounds) uri timeout interval o w).0 ≡ ok there)
      × (there ≡ true
          → (out : Text) × Answered o
              (capture (ping_command uri w.self))
              (ok (pos 0, out))
              (wait_for_guest_agent (suc rounds) uri timeout interval o w).1.log)
wait_for_guest_agent-Answers rounds timeout interval uri o w h free k =
    let (there, returned) = wait_for_guest_agent-Returns rounds timeout interval uri o w h free k in
    (
      there,
      returned,
      λ yes.
          wait_for_guest_agent-answer (suc rounds) timeout interval uri o w (returned ∙ ap ok yes),
    )

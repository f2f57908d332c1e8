-- ===== src/Effects/Polling.antt =====
-- The loop of `wait_for_path` (app/utils.py) and of `wait_for_guest_agent` (app/vm.py): a test is
-- repeated until it succeeds or the deadline has passed.
use docker_vm_runner.Base.{
  ℕ, zero, suc, ◌+◌, ◌≤◌, ◌<◌, ltb, ltb→lt, arith, Bool, true, false, Bool-cases, List, ◌∷◌, ◌≡◌,
  refl, sym, subst, ap, ◌∙◌, inl, inr, ok, Error, if◌then◌else◌,
}
use docker_vm_runner.Effects.{
  Action, now, sleep, Outside, World, Eff, pure, throw, ◌>>=◌, ◌>>◌, perform,
}
use docker_vm_runner.Effects.Outcomes.{seq_ok}

-- The number bounds the rounds.
unfoldable pub poll_until : {S : Type 0} → ℕ → Eff S Bool → ℕ → ℕ → Eff S Bool
poll_until zero test deadline interval = throw Error.out_of_fuel
poll_until (suc rounds) test deadline interval = do
  t ← perform now
  if ltb t deadline
      then (do
        found ← test
        if found
            then pure true
            else (perform (sleep interval) >> poll_until rounds test deadline interval))
      else pure false

-- From now until the time is over.
unfoldable pub poll_for : {S : Type 0} → ℕ → Eff S Bool → ℕ → ℕ → Eff S Bool
poll_for rounds test timeout interval = do
  t ← perform now
  poll_until rounds test (t + timeout) interval

-- What is documented of `time.time` and `time.sleep`: neither raises. The clock may be set back.
pub record HasClock (o : Outside) : Type 0 where
  pub told : (log : List Action) → (t : ℕ) × (o now log ≡ ok t)
  pub slept : (pause : ℕ) (log : List Action) → o (sleep pause) log ≡ ok tt

-- The calls after so many rounds that did not succeed.
abbrev pub waited : ℕ → Action → ℕ → List Action → List Action
waited zero call interval log = log
waited (suc rounds) call interval log =
    waited rounds call interval (sleep interval ∷ call ∷ now ∷ log)

-- After so many rounds the clock shows that the time is over; what it shows before is left open.
abbrev pub IsOver : Outside → ℕ → Action → ℕ → ℕ → List Action → Type 0
IsOver o rounds call timeout interval log =
    (t u : ℕ) × (o now log ≡ ok t)
    × (o now (waited rounds call interval (now ∷ log)) ≡ ok u)
    × (t + timeout ≤ u)

too_late : (t deadline : ℕ) → t < deadline → deadline ≤ t → ⊥
too_late t deadline early k = omega (arith, early, k)

-- The test makes one call and does not raise.
abbrev pub Tests : {S : Type 0} → Outside → Action → Eff S Bool → Type 0
Tests o call test =
    (w : World _) → (b : Bool) × (test o w ≡ (ok b, record w { log = call ∷ w.log }))

module _ {S : Type 0} (o : Outside) (h : HasClock o) (call : Action) (test : Eff S Bool)
    (tests : Tests o call test) (deadline interval : ℕ) where
  go_on : ℕ → Bool → Eff S Bool
  go_on rounds found =
      if found
      then pure true
      else (perform (sleep interval) >> poll_until rounds test deadline interval)

  turn : ℕ → ℕ → Eff S Bool
  turn rounds t = if ltb t deadline then (test >>= λ found. go_on rounds found) else pure false

  -- The world after the calls of a round.
  asked : World S → World S
  asked w = record w { log = now ∷ w.log }

  rested : World S → World S
  rested w = record w { log = sleep interval ∷ call ∷ now ∷ w.log }

  Returns : Eff S Bool → World S → Type 0
  Returns run w = (found : Bool) × ((run o w).0 ≡ ok found)

  after-Returns :
      {A : Type 0} (run : Eff S A) (next : A → Eff S Bool) (w : World S) (a : A)
      → (run o w).0 ≡ ok a
      → Returns (next a) (run o w).1
      → Returns (run >>= next) w
  unfolding Returns
  after-Returns run next w a e (found, k) = (found, ap (λ r. r.0) (seq_ok run next o w a e) ∙ k)

  go_on-Returns :
      (rounds : ℕ) (found : Bool) (w : World S)
      → Returns (poll_until rounds test deadline interval) (rested w)
      → Returns (go_on rounds found) (record w { log = call ∷ now ∷ w.log })
  unfolding go_on rested pure ◌>>◌ perform Returns
  go_on-Returns rounds true w k = (true, refl)
  go_on-Returns rounds false w k =
      after-Returns (perform (sleep interval)) (λ done. poll_until rounds test deadline interval) _
        tt (h.slept interval _) k

  turn-Returns :
      (rounds t : ℕ) (w : World S)
      → (t < deadline → Returns (poll_until rounds test deadline interval) (rested w))
      → Returns (turn rounds t) (asked w)
  unfolding turn asked pure perform Returns
  turn-Returns rounds t w k = elim (Bool-cases (ltb t deadline)) [
    | inr late ↦ rw late (false, refl)
    | inl early ↦
        let (found, e) = tests (asked w) in
        rw early (
          after-Returns test (go_on rounds) _ found (ap (λ r. r.0) e) (
            subst (λ r. Returns (go_on rounds found) r.1) (sym e)
              (go_on-Returns rounds found w (k (ltb→lt t deadline early)))))
  ]

  -- One round more than those after which the time is over.
  poll_until-Returns :
      (rounds u : ℕ) (w : World S)
      → o now (waited rounds call interval w.log) ≡ ok u
      → deadline ≤ u
      → Returns (poll_until (suc rounds) test deadline interval) w
  unfolding poll_until turn go_on perform asked rested
  poll_until-Returns zero u w e k =
      after-Returns (perform now) (turn zero) w u e
        (turn-Returns zero u w (λ early. elim (too_late u deadline early k) [ ]))
  poll_until-Returns (suc rounds) u w e k =
      let (t, told) = h.told w.log in
      after-Returns (perform now) (turn (suc rounds)) w t told
        (turn-Returns (suc rounds) t w (λ early. poll_until-Returns rounds u (rested w) e k))

pub poll_for-Returns :
    {S : Type 0} (o : Outside) (rounds timeout interval : ℕ) (call : Action) (test : Eff S Bool)
    (w : World S)
    → HasClock o
    → Tests o call test
    → IsOver o rounds call timeout interval w.log
    → (found : Bool) × ((poll_for (suc rounds) test timeout interval o w).0 ≡ ok found)
unfolding poll_for Returns perform
poll_for-Returns o rounds timeout interval call test w h tests (t, u, e, later, k) =
    after-Returns o h call test tests (t + timeout) interval (perform now)
      (λ t. poll_until (suc rounds) test (t + timeout) interval) w t e
      (poll_until-Returns o h call test tests (t + timeout) interval rounds u _ later k)

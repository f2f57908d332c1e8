-- ===== src/Cli/Closing.antt =====
-- The steps at the end of the session: the marker is written and the connection closed, or one of
-- these calls fails.
use docker_vm_runner.Base.{
  ℕ, Text, text, ◌++◌, Bool, true, false, Option, none, some, List, [], ◌∷◌, ◌≡◌, refl, sym, subst,
  ◌⊎◌, inl, inr, Result, ok, err, Error, if◌then◌else◌,
}
use docker_vm_runner.Effects.{
  Action, exists, write_text, now, close_libvirt, Done, Outside, World, Eff, pure, ◌>>=◌, ◌>>◌,
  and_then, perform, get, modify,
}
use docker_vm_runner.Effects.Keep.{Keeps, Keeps-pure, Keeps->>=, Keeps-if, Keeps-get}
use docker_vm_runner.Effects.Outcomes.{Answered, latest, seq_ok}
use docker_vm_runner.Effects.Raise.{AtMost, Never, AtMost-Never}
use docker_vm_runner.Services.Session.Laws.{IsPosix}
use docker_vm_runner.Vm.Manager.{Manager}
use docker_vm_runner.Vm.Lifecycle.{close, close_conn, set_conn}
use docker_vm_runner.Vm.Lifecycle.Cleanup.{mark_installed, marker}
use docker_vm_runner.Vm.Lifecycle.Laws.{IsDocumented}

-- What the calls at the end are documented to raise. A file may fail to be written, and a connection
-- to be closed: nothing is said of these.
pub record EndsWell (o : Outside) : Type 0 where
  pub documented : IsDocumented o
  pub posix : IsPosix o
  pub told : (log : List Action) → AtMost Never (o now log)

-- A step that returned, or failed by one of its calls.
module _ {A : Type 0} (o : Outside) where
  abbrev pub FailedWriting : Text → Result A × World Manager → Type 0
  FailedWriting path r =
      (content : Text) × (x : Error) × (r.0 ≡ err x)
      × Answered o (write_text path content) (err x) r.1.log

  abbrev pub FailedClosing : Result A × World Manager → Type 0
  FailedClosing r =
      (conn : ℕ) × (x : Error) × (r.0 ≡ err x) × Answered o (close_libvirt conn) (err x) r.1.log

module _ (o : Outside) (h : EndsWell o) where
  unfoldable pub Marked : Text → Result Done × World Manager → Type 0
  Marked path r = (r.0 ≡ ok tt) ⊎ FailedWriting o path r

  written :
      (path content : Text) (w : World Manager) (r : Result Done)
      → o (write_text path content) w.log ≡ r
      → Marked path (r, record w { log = write_text path content ∷ w.log })
  unfolding Marked
  written path content w (ok done) e = inl refl
  written path content w (err x) e = inr (content, x, refl, latest w.log e)

  abbrev content_at : (ℕ → Text) → ℕ → Text
  content_at stamp t = text "Installed on " ++ (stamp t ++ (10 ∷ []))

  from_test : (ℕ → Text) → Text → Bool → Eff Manager Done
  from_test stamp path there =
      if there
      then pure tt
      else (perform now >>= λ t. perform (write_text path (content_at stamp t)))

  from_test-Marked :
      (stamp : ℕ → Text) (path : Text) (there : Bool) (w : World Manager)
      → Marked path (from_test stamp path there o w)
  unfolding from_test pure Marked perform
  from_test-Marked stamp path true w = inl refl
  from_test-Marked stamp path false w =
      let (t, e) = AtMost-Never (o now w.log) (h.told w.log) in
      subst (Marked path)
        (sym (seq_ok (perform now) (λ t. perform (write_text path (content_at stamp t))) o w t e))
        (written path (content_at stamp t) (record w { log = now ∷ w.log }) _ refl)

  pub mark_installed-Marked :
      (stamp : ℕ → Text) (w : World Manager) → Marked (marker w.self) (mark_installed stamp o w)
  unfolding mark_installed ◌>>=◌ get from_test perform
  mark_installed-Marked stamp w =
      let path = marker w.self in
      let (there, e) = AtMost-Never (o (exists path) w.log) (h.documented.tested path w.log) in
      subst (Marked path) (sym (seq_ok (perform (exists path)) (from_test stamp path) o w there e))
        (from_test-Marked stamp path there _)

-- The connection is closed and forgotten, or closing failed; the services stay as they are.
unfoldable pub Closed : Outside → Manager → Result Done × World Manager → Type 0
Closed o m r =
    (r.1.self.services ≡ m.services)
    × (((r.0 ≡ ok tt) × (r.1.self.conn ≡ none)) ⊎ FailedClosing o r)

closes :
    (o : Outside) (conn : Option ℕ) (w : World Manager)
    → w.self.conn ≡ conn
    → Closed o w.self (close_conn conn o w)
unfolding ◌>>◌ ◌>>=◌ modify pure perform Closed
closes o none w e = (refl, inl (refl, e))
closes o (some c) w e = by_answer (o (close_libvirt c) w.log) refl
  where
    by_answer :
        (r : Result Done)
        → o (close_libvirt c) w.log ≡ r
        → Closed o w.self (
            and_then
              (λ done. modify (set_conn none))
              o
              (r, record w { log = close_libvirt c ∷ w.log }))
    by_answer (ok done) q = (refl, inl (refl, refl))
    by_answer (err x) q = (refl, inr (c, x, refl, latest w.log q))

pub close-Closed : (o : Outside) (w : World Manager) → Closed o w.self (close o w)
unfolding close ◌>>=◌ get
close-Closed o w = closes o w.self.conn w refl

-- What holds of the record and of all longer ones is kept by the rest.
module _ (L : Outside → List Action → Type 0)
    (grows : (o : Outside) (a : Action) (log : List Action) → L o log → L o (a ∷ log)) where
  unfoldable pub InLog : Outside → World Manager → Type 0
  InLog o w = L o w.log

  close_conn-InLog : (conn : Option ℕ) → Keeps InLog (close_conn conn)
  unfolding Keeps InLog ◌>>◌ ◌>>=◌ perform modify pure
  close_conn-InLog none o w k = k
  close_conn-InLog (some c) o w k =
      after_closing (o (close_libvirt c) w.log) o _ (grows o (close_libvirt c) w.log k)
    where
      after_closing :
          (r : Result Done) (o : Outside) (v : World Manager)
          → L o v.log
          → L o (and_then (λ done. modify (set_conn none)) o (r, v)).1.log
      after_closing (ok done) o v k = k
      after_closing (err x) o v k = k

  pub close-InLog : Keeps InLog close
  unfolding Keeps InLog close ◌>>=◌ get
  close-InLog o w k = close_conn-InLog w.self.conn o w k

-- `_mark_installed` leaves the manager as it is.
unfoldable pub Same : Manager → Outside → World Manager → Type 0
Same m o w = w.self ≡ m

perform-Same : (m : Manager) (a : Action) → Keeps (Same m) (perform a)
unfolding Keeps perform Same
perform-Same m a o w k = k

pub mark_installed-Same : (m : Manager) (stamp : ℕ → Text) → Keeps (Same m) (mark_installed stamp)
unfolding mark_installed Keeps
mark_installed-Same m stamp =
    search (Keeps-pure, Keeps->>=, Keeps-if, Keeps-get, perform-Same) depth 20

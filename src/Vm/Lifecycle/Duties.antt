-- ===== src/Vm/Lifecycle/Duties.antt =====
-- What `cleanup` does before it returns.
use docker_vm_runner.Base.{
  ℕ, Text, Option, none, some, List, [], ◌∷◌, ◌++◌, All-append, ◌≡◌, refl, sym, subst, ok,
}
use docker_vm_runner.Effects.{
  Action, terminate, wait_process, pgrep, is_active, destroy, undefine, undefine_nvram, Done,
  Outside, World, Eff, pure, ◌>>=◌, ◌>>◌, perform, get,
}
use docker_vm_runner.Effects.Keep.{Keeps, Keeps-pure, Keeps->>, Keeps-try_except, Keeps-if}
use docker_vm_runner.Effects.Outcomes.{Gives, Gives->>}
use docker_vm_runner.Effects.Calls.{
  just_now, AllCalled, AllCalled-more, Leaves, Leaves-first, Leaves-try_except, Gives-before,
  Leaves-Gives,
}
use docker_vm_runner.Vm.Manager.{Manager}
use docker_vm_runner.Vm.Lifecycle.{undefine_by}
use docker_vm_runner.Vm.Lifecycle.Kept.{
  kill_late-Keeps, on_libvirt_error-Keeps, undefine_by-Keeps, remove_domain-Keeps,
  kill_listed-Keeps, ignore_missing_tool-Keeps, remove_files-Keeps, later,
}
use docker_vm_runner.Vm.Lifecycle.Cleanup.{
  stop_tpm, destroy_if_active, remove_domain, kill_remaining_qemu, remove_files, cleanup,
}

-- The calls that have to be made: for the TPM's process, for the domain, and for stray machines.
abbrev pub tpm_duties : Option ℕ → List Action
tpm_duties none = []
tpm_duties (some proc) = terminate proc ∷ []

abbrev undefine_call : Option Text → ℕ → Action
undefine_call none domain = undefine domain
undefine_call (some vars) domain = undefine_nvram domain

abbrev pub domain_duties : Option Text → Option ℕ → List Action
domain_duties vars none = []
domain_duties vars (some domain) = is_active domain ∷ undefine_call vars domain ∷ []

abbrev pub duties : Manager → List Action
duties self =
    tpm_duties self.tpm_process
    ++ (domain_duties self.machine.firmware_vars_path self.domain ++ (pgrep ∷ []))

Has : List Action → Outside → World Manager → Type 0
Has ds o w = AllCalled ds w.log

perform-Has : (ds : List Action) (a : Action) → Keeps (Has ds) (perform a)
unfolding Keeps perform Has
perform-Has ds a o w h = AllCalled-more a ds w.log h

performed : (a : Action) → Leaves Manager (Has (a ∷ [])) (perform a)
unfolding Leaves perform Has
performed a o w = (just_now w.log, tt)

nothing : Leaves Manager (Has []) (pure {S = Manager} tt)
unfolding Leaves Has
nothing o w = tt

-- Each part makes its calls.
stop_tpm-Gives : (tpm : Option ℕ) → Gives (Has (tpm_duties tpm)) (stop_tpm tpm)
unfolding ◌>>◌ ◌>>=◌
stop_tpm-Gives none = Leaves-Gives Manager (Has []) _ nothing
stop_tpm-Gives (some p) =
    let ds = terminate p ∷ [] in
    Leaves-Gives Manager (Has ds) _ (
      Leaves-try_except Manager (Has ds) _ _
        (Leaves-first Manager (Has ds) _ _ (performed (terminate p))
          (λ done. perform-Has ds (wait_process p)))
        (kill_late-Keeps (Has ds) (perform-Has ds) p))

undefine_by-Leaves :
    (vars : Option Text) (d : ℕ)
    → Leaves Manager (Has (undefine_call vars d ∷ [])) (undefine_by vars d)
undefine_by-Leaves none d = performed (undefine d)
undefine_by-Leaves (some vars) d = performed (undefine_nvram d)

asks_domain :
    (vars : Option Text) (d : ℕ) → Gives (Has (is_active d ∷ [])) (remove_domain vars (some d))
unfolding destroy_if_active ◌>>◌ ◌>>=◌
asks_domain vars d =
    let ds = is_active d ∷ [] in
    Leaves-Gives Manager (Has ds) _ (
      Leaves-first Manager (Has ds) _ _
        (Leaves-try_except Manager (Has ds) _ _
          (Leaves-first Manager (Has ds) _ _ (performed (is_active d)) (λ active.
            Keeps-if (Has ds) active _ _ (perform-Has ds (destroy d)) (Keeps-pure (Has ds) tt)))
          (on_libvirt_error-Keeps (Has ds) (perform-Has ds) tt))
        (λ done.
          Keeps-try_except (Has ds) _ _ (undefine_by-Keeps (Has ds) (perform-Has ds) vars d)
            (on_libvirt_error-Keeps (Has ds) (perform-Has ds) tt)))

undefines_domain :
    (vars : Option Text) (d : ℕ)
    → Gives (Has (undefine_call vars d ∷ [])) (remove_domain vars (some d))
undefines_domain vars d =
    let ds = undefine_call vars d ∷ [] in
    Gives->> (Has ds) _ _ (
      Leaves-Gives Manager (Has ds) _ (
        Leaves-try_except Manager (Has ds) _ _ (undefine_by-Leaves vars d)
          (on_libvirt_error-Keeps (Has ds) (perform-Has ds) tt)))

lists_strays : Gives (Has (pgrep ∷ [])) kill_remaining_qemu
unfolding kill_remaining_qemu
lists_strays =
    let ds = pgrep ∷ [] in
    Leaves-Gives Manager (Has ds) _ (
      Leaves-try_except Manager (Has ds) _ _
        (Leaves-first Manager (Has ds) _ _ (performed pgrep)
          (kill_listed-Keeps (Has ds) (perform-Has ds)))
        (ignore_missing_tool-Keeps (Has ds) (perform-Has ds)))

-- The program after the state is read.
parts : Manager → Eff Manager Done
parts self =
    stop_tpm self.tpm_process
    >> (remove_domain self.machine.firmware_vars_path self.domain
        >> (kill_remaining_qemu >> remove_files self))

module _ (self : Manager) (ds : List Action) where
  by_tpm : Gives (Has ds) (stop_tpm self.tpm_process) → Gives (Has ds) (parts self)
  unfolding parts
  by_tpm h = Gives-before Manager (Has ds) _ _ h (
      Keeps->> (Has ds) _ _
        (remove_domain-Keeps (Has ds) (perform-Has ds) self.machine.firmware_vars_path self.domain)
        (later (Has ds) (perform-Has ds) self))

  by_domain :
      Gives (Has ds) (remove_domain self.machine.firmware_vars_path self.domain)
      → Gives (Has ds) (parts self)
  unfolding parts
  by_domain h =
      Gives->> (Has ds) _ _
        (Gives-before Manager (Has ds) _ _ h (later (Has ds) (perform-Has ds) self))

  by_strays : Gives (Has ds) kill_remaining_qemu → Gives (Has ds) (parts self)
  unfolding parts
  by_strays h = Gives->> (Has ds) _ _ (
      Gives->> (Has ds) _ _
        (Gives-before Manager (Has ds) _ _ h (remove_files-Keeps (Has ds) (perform-Has ds) self)))

domain-Gives :
    (self : Manager) (domain : Option ℕ)
    → self.domain ≡ domain
    → (o : Outside) (w : World Manager) → (parts self o w).0 ≡ ok tt
    → AllCalled (domain_duties self.machine.firmware_vars_path domain) (parts self o w).1.log
unfolding Gives Has
domain-Gives self none q o w e = tt
domain-Gives self (some d) q o w e =
    let vars = self.machine.firmware_vars_path in
    (
      (by_domain self (is_active d ∷ [])
          (subst (λ t. Gives (Has (is_active d ∷ [])) (remove_domain vars t)) (sym q)
            (asks_domain vars d))
          o w tt e).0,
      by_domain self (undefine_call vars d ∷ [])
          (subst (λ t. Gives (Has (undefine_call vars d ∷ [])) (remove_domain vars t)) (sym q)
            (undefines_domain vars d))
          o w tt e,
    )

-- When `cleanup` returns, the TPM's process was told to end, the domain was asked whether it runs
-- and was undefined, and the stray machines were listed; each of these calls was made, though it
-- may have failed.
pub cleanup-duties :
    (o : Outside) (w : World Manager)
    → (cleanup o w).0 ≡ ok tt
    → AllCalled (duties w.self) (cleanup o w).1.log
unfolding cleanup parts ◌>>=◌ get Gives Has
cleanup-duties o w e =
    let self = w.self in
    All-append _ (tpm_duties self.tpm_process) _
      (by_tpm self (tpm_duties self.tpm_process) (stop_tpm-Gives self.tpm_process) o w tt e)
      (All-append _ (domain_duties self.machine.firmware_vars_path self.domain) _
        (domain-Gives self self.domain refl o w e)
        (by_strays self (pgrep ∷ []) lists_strays o w tt e))

-- ===== src/Vm/Tools.antt =====
-- app/vm.py: `_start_tpm`, `_extract_qemu_binary` and `_is_installed`.
use docker_vm_runner.Base.{
  ℕ, Text, text, lookup, text_eq, ◌++◌, Bool, Option, none, some, List, [], ◌∷◌, ℤ, Error, Reason,
  ◌≡◌, refl, ok, if◌then◌else◌,
}
use docker_vm_runner.Base.Dict.{Dict}
use docker_vm_runner.Constants.Places.{◌/◌}
use docker_vm_runner.Effects.{
  exists, run_command, popen, poll, sleep, Done, Outside, World, Eff, pure, throw, ◌>>=◌, ◌>>◌,
  try_except, perform, get, modify,
}
use docker_vm_runner.Effects.Outcomes.{Gives, Gives->>=, Gives->>, Gives-throw}
use docker_vm_runner.Services.{ensure_directory}
use docker_vm_runner.Services.Session.{missing_tool}
use docker_vm_runner.Vm.Manager.{Manager}
use docker_vm_runner.Vm.Lifecycle.Cleanup.{marker}

abbrev pub tpm_dir : Text → Manager → Text
tpm_dir state_dir self = state_dir / text "tpm" / self.machine.cfg.vm_name

abbrev pub swtpm_command : Text → List Text
swtpm_command dir =
    text "swtpm"
    ∷ text "socket"
    ∷ text "--tpmstate"
    ∷ (text "dir=" ++ dir)
    ∷ text "--ctrl"
    ∷ (text "type=unixio,path=" ++ (dir / text "swtpm-sock"))
    ∷ text "--tpm2"
    ∷ []

abbrev pub set_tpm : ℕ → Manager → Manager
set_tpm proc self = record self { tpm_process = some proc }

-- The process is remembered only if it has not ended.
abbrev pub remember_tpm : ℕ → Option ℤ → Eff Manager Done
remember_tpm proc none = modify (set_tpm proc)
remember_tpm proc (some code) = throw (Error.manager (Reason.exited_early (text "swtpm") code))

unfoldable pub launch_tpm : Text → Eff Manager Done
launch_tpm dir = do
  ensure_directory dir
  proc ← try_except (perform (popen (swtpm_command dir))) (missing_tool (text "swtpm"))
  perform (sleep 500)
  status ← perform (poll proc)
  remember_tpm proc status

unfoldable pub start_tpm : Text → Eff Manager Done
start_tpm state_dir = do
  self ← get
  if self.machine.cfg.tpm_enabled then launch_tpm (tpm_dir state_dir self) else pure tt

abbrev pub qemu_debs : Dict Text
qemu_debs =
    (text "x86_64", text "/opt/qemu-x86.deb")
    ∷ (text "aarch64", text "/opt/qemu-arm.deb")
    ∷ (text "ppc64", text "/opt/qemu-ppc.deb")
    ∷ (text "s390x", text "/opt/qemu-s390x.deb")
    ∷ (text "riscv64", text "/opt/qemu-riscv.deb")
    ∷ []

-- The emulator of each architecture of the table above.
abbrev pub emulator_of : Text → Text
emulator_of arch = text "qemu-system-" ++ arch

abbrev pub extract_if_needed : Text → Option Text → Eff Manager Done
extract_if_needed arch none = pure tt
extract_if_needed arch (some deb) = do
  bundled ← perform (exists deb)
  if bundled
      then (do
        extracted ← perform (exists (text "/usr/bin" / emulator_of arch))
        if extracted
            then pure tt
            else perform (run_command (text "dpkg-deb" ∷ text "-x" ∷ deb ∷ text "/" ∷ [])))
      else pure tt

unfoldable pub extract_qemu_binary : Eff Manager Done
extract_qemu_binary =
    get >>= λ self. extract_if_needed self.machine.cfg.arch (lookup self.machine.cfg.arch qemu_debs)

unfoldable pub is_installed : Eff Manager Bool
is_installed = get >>= λ self. perform (exists (marker self))

HasTpm : Outside → World Manager → Type 0
HasTpm o w = (proc : ℕ) × (w.self.tpm_process ≡ some proc)

remember-HasTpm : (proc : ℕ) (status : Option ℤ) → Gives HasTpm (remember_tpm proc status)
unfolding Gives HasTpm modify
remember-HasTpm proc none o w a e = (proc, refl)
remember-HasTpm proc (some code) o w a e = Gives-throw HasTpm Done _ o w a e

-- When the start of a TPM returns, the manager knows the process that it has to end later.
pub launch_tpm-HasTpm :
    (dir : Text) (o : Outside) (w : World Manager)
    → (launch_tpm dir o w).0 ≡ ok tt
    → (proc : ℕ) × ((launch_tpm dir o w).1.self.tpm_process ≡ some proc)
unfolding launch_tpm Gives HasTpm
launch_tpm-HasTpm dir o w e = launches o w tt e
  where
    launches : Gives HasTpm (launch_tpm dir)
    launches = Gives->> HasTpm _ _ (
        Gives->>= HasTpm _ _ (λ proc.
          Gives->> HasTpm _ _ (Gives->>= HasTpm _ _ (λ status. remember-HasTpm proc status))))

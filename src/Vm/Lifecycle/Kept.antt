-- ===== src/Vm/Lifecycle/Kept.antt =====
-- `cleanup` keeps every condition that each call keeps: it changes no attribute of the manager.
use docker_vm_runner.Base.{ℕ, Text, strip, is_empty, parse_int, Option, none, some, ℤ, Error}
use docker_vm_runner.Effects.{
  Action, kill, kill_pid, undefine, undefine_nvram, Outside, World, ◌>>◌, try_except, perform,
}
use docker_vm_runner.Effects.Keep.{
  Keeps, Keeps-pure, Keeps-throw, Keeps->>=, Keeps->>, Keeps-try_except, Keeps-if, Keeps-get,
  Keeps-for_each,
}
use docker_vm_runner.Services.Libvirt.{is_os_error, ignore_os_error}
use docker_vm_runner.Services.Pool.{on_libvirt_error}
use docker_vm_runner.Vm.Manager.{Manager}
use docker_vm_runner.Vm.Lifecycle.{undefine_by}
use docker_vm_runner.Vm.Lifecycle.Cleanup.{
  kill_late, stop_tpm, destroy_if_active, remove_domain, kill_number, kill_line,
  ignore_missing_tool, kill_listed, kill_remaining_qemu, remove_files, cleanup,
}

module _ (P : Outside → World Manager → Type 0) (keeps-P : (a : Action) → Keeps P (perform a)) where
  ruleset keep = (
    Keeps-pure, Keeps-throw, Keeps->>=, Keeps->>, Keeps-try_except, Keeps-if, Keeps-get,
    Keeps-for_each,
  )

  pub ignore_os_error-Keeps : (x : Error) → Keeps P (ignore_os_error x)
  unfolding Keeps
  ignore_os_error-Keeps x = search keep depth 14

  pub kill-Keeps : (p : ℕ) → Keeps P (try_except (perform (kill p)) ignore_os_error)
  kill-Keeps p = Keeps-try_except P _ _ (keeps-P (kill p)) ignore_os_error-Keeps

  pub kill_late-Keeps : (p : ℕ) (x : Error) → Keeps P (kill_late p x)
  kill_late-Keeps p Error.timeout_expired = kill-Keeps p
  kill_late-Keeps p x = Keeps-if P (is_os_error x) _ _ (kill-Keeps p) (Keeps-throw P _ x)

  pub stop_tpm-Keeps : (tpm : Option ℕ) → Keeps P (stop_tpm tpm)
  unfolding Keeps
  stop_tpm-Keeps none = search keep
  stop_tpm-Keeps (some p) = search (keep, keeps-P, kill_late-Keeps) depth 14

  pub on_libvirt_error-Keeps : {A : Type 0} (a : A) (x : Error) → Keeps P (on_libvirt_error a x)
  on_libvirt_error-Keeps a (Error.libvirt_error message) = Keeps-pure P a
  on_libvirt_error-Keeps a x = Keeps-throw P _ x

  pub undefine_by-Keeps : (vars : Option Text) (d : ℕ) → Keeps P (undefine_by vars d)
  undefine_by-Keeps none d = keeps-P (undefine d)
  undefine_by-Keeps (some vars) d = keeps-P (undefine_nvram d)

  pub remove_domain-Keeps :
      (vars : Option Text) (domain : Option ℕ) → Keeps P (remove_domain vars domain)
  unfolding Keeps destroy_if_active
  remove_domain-Keeps vars none = search keep
  remove_domain-Keeps vars (some d) =
      search (keep, keeps-P, on_libvirt_error-Keeps, undefine_by-Keeps) depth 20

  pub kill_line-Keeps : (line : Text) → Keeps P (kill_line line)
  unfolding kill_line
  kill_line-Keeps line =
      Keeps-if P (is_empty (strip line)) _ _ (Keeps-pure P tt)
        (kill_number-Keeps (parse_int (strip line)))
    where
      kill_number-Keeps : (pid : Option ℤ) → Keeps P (kill_number pid)
      kill_number-Keeps none = Keeps-pure P tt
      kill_number-Keeps (some pid) =
          Keeps-try_except P _ _ (keeps-P (kill_pid pid)) ignore_os_error-Keeps

  pub kill_listed-Keeps : (listed : ℤ × Text) → Keeps P (kill_listed listed)
  unfolding Keeps
  kill_listed-Keeps (status, output) = search (keep, kill_line-Keeps) depth 14

  pub ignore_missing_tool-Keeps : (x : Error) → Keeps P (ignore_missing_tool x)
  ignore_missing_tool-Keeps Error.not_found_error = Keeps-pure P tt
  ignore_missing_tool-Keeps x = Keeps-throw P _ x

  pub kill_remaining_qemu-Keeps : Keeps P kill_remaining_qemu
  unfolding Keeps kill_remaining_qemu
  kill_remaining_qemu-Keeps =
      search (keep, keeps-P, kill_listed-Keeps, ignore_missing_tool-Keeps) depth 14

  pub remove_files-Keeps : (self : Manager) → Keeps P (remove_files self)
  unfolding Keeps remove_files
  remove_files-Keeps self = search (keep, keeps-P, ignore_os_error-Keeps) depth 20

  pub later : (self : Manager) → Keeps P (kill_remaining_qemu >> remove_files self)
  later self = Keeps->> P _ _ kill_remaining_qemu-Keeps (remove_files-Keeps self)

  pub cleanup-Keeps : Keeps P cleanup
  unfolding cleanup
  cleanup-Keeps = Keeps->>= P _ _ (Keeps-get P) (λ self.
      Keeps->> P _ _ (stop_tpm-Keeps self.tpm_process) (
        Keeps->> P _ _ (remove_domain-Keeps self.machine.firmware_vars_path self.domain)
          (later self)))

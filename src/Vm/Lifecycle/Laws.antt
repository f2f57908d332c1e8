-- ===== src/Vm/Lifecycle/Laws.antt =====
-- `cleanup` raises nothing that the program is prepared for, and leaves nothing out.
use docker_vm_runner.Base.{
  ℕ, Text, strip, is_empty, parse_int, split_on, int_is, Option, none, some, List, ℤ, ◌≡◌, Result,
  ok, err, Error,
}
use docker_vm_runner.Effects.{
  Action, exists, remove_tree, terminate, wait_process, kill, pgrep, kill_pid, is_active, destroy,
  undefine, undefine_nvram, Done, Outside, World, Eff, try_except, perform,
}
use docker_vm_runner.Effects.Raise.{
  AtMost, Never, AtMost-Never, Raises, Raises-perform, Raises-pure, Raises-get, Raises->>=,
  Raises->>, Raises-if, Raises-for_each, Raises-try_except,
}
use docker_vm_runner.Services.Libvirt.{ignore_os_error}
use docker_vm_runner.Services.Pool.{on_libvirt_error}
use docker_vm_runner.Vm.Manager.{Manager}
use docker_vm_runner.Vm.Lifecycle.{undefine_by}
use docker_vm_runner.Vm.Lifecycle.Cleanup.{
  kill_late, stop_tpm, destroy_if_active, remove_domain, kill_number, kill_line,
  ignore_missing_tool, kill_listed, kill_remaining_qemu, remove_files, cleanup,
}

-- The kinds of errors that the calls of the cleanup are documented to raise.
pub data OsError : Error → Type 0 where
  plain : OsError Error.os_error
  not_found : OsError Error.not_found_error
  refused : OsError Error.refused_error
  late : OsError Error.timeout_error

pub data LibvirtError : Error → Type 0 where
  from_libvirt : (message : Text) → LibvirtError (Error.libvirt_error message)

pub data WaitError : Error → Type 0 where
  expired : WaitError Error.timeout_expired
  from_os : {x : Error} → OsError x → WaitError x

pub data MissingTool : Error → Type 0 where
  missing : MissingTool Error.not_found_error

-- libvirt raises `libvirtError`, the calls of the operating system raise `OSError`, `wait` also
-- `TimeoutExpired`, and `pgrep` may be missing.
pub record IsDocumented (o : Outside) : Type 0 where
  pub active : (d : ℕ) (log : List Action) → AtMost LibvirtError (o (is_active d) log)
  pub destroyed : (d : ℕ) (log : List Action) → AtMost LibvirtError (o (destroy d) log)
  pub undefined : (d : ℕ) (log : List Action) → AtMost LibvirtError (o (undefine d) log)
  pub undefined_nvram : (d : ℕ) (log : List Action) → AtMost LibvirtError (o (undefine_nvram d) log)
  pub terminated : (p : ℕ) (log : List Action) → AtMost WaitError (o (terminate p) log)
  pub waited : (p : ℕ) (log : List Action) → AtMost WaitError (o (wait_process p) log)
  pub killed : (p : ℕ) (log : List Action) → AtMost OsError (o (kill p) log)
  pub listed : (log : List Action) → AtMost MissingTool (o pgrep log)
  pub signalled : (pid : ℤ) (log : List Action) → AtMost OsError (o (kill_pid pid) log)
  pub tested : (path : Text) (log : List Action) → AtMost Never (o (exists path) log)
  pub removed : (path : Text) (log : List Action) → AtMost OsError (o (remove_tree path) log)

module _ (o : Outside) (h : IsDocumented o) where
  Safe : {A : Type 0} → Eff Manager A → Type 0
  Safe run = Raises o Never run

  ignore_os_error-Safe : (x : Error) → OsError x → Safe (ignore_os_error x)
  unfolding Safe
  ignore_os_error-Safe x plain = Raises-pure Manager o Never tt
  ignore_os_error-Safe x not_found = Raises-pure Manager o Never tt
  ignore_os_error-Safe x refused = Raises-pure Manager o Never tt
  ignore_os_error-Safe x late = Raises-pure Manager o Never tt

  kill-Safe : (p : ℕ) → Safe (try_except (perform (kill p)) ignore_os_error)
  unfolding Safe
  kill-Safe p =
      Raises-try_except Manager o Never OsError _ _
        (Raises-perform Manager o OsError (kill p) (h.killed p)) ignore_os_error-Safe

  kill_late-Safe : (p : ℕ) (x : Error) → WaitError x → Safe (kill_late p x)
  unfolding Safe
  kill_late-Safe p x expired = kill-Safe p
  kill_late-Safe p x (from_os plain) = kill-Safe p
  kill_late-Safe p x (from_os not_found) = kill-Safe p
  kill_late-Safe p x (from_os refused) = kill-Safe p
  kill_late-Safe p x (from_os late) = kill-Safe p

  stop_tpm-Safe : (tpm : Option ℕ) → Safe (stop_tpm tpm)
  unfolding Safe
  stop_tpm-Safe none = Raises-pure Manager o Never tt
  stop_tpm-Safe (some p) =
      Raises-try_except Manager o Never WaitError _ _
        (Raises->> Manager o WaitError _ _
          (Raises-perform Manager o WaitError (terminate p) (h.terminated p))
          (Raises-perform Manager o WaitError (wait_process p) (h.waited p)))
        (kill_late-Safe p)

  on_libvirt_error-Safe :
      {A : Type 0} (a : A) (x : Error) → LibvirtError x → Safe (on_libvirt_error a x)
  unfolding Safe
  on_libvirt_error-Safe a x (from_libvirt message) = Raises-pure Manager o Never a

  destroy_if_active-Raises : (d : ℕ) → Raises {S = Manager} o LibvirtError (destroy_if_active d)
  unfolding destroy_if_active
  destroy_if_active-Raises d =
      Raises->>= Manager o LibvirtError _ _
        (Raises-perform Manager o LibvirtError (is_active d) (h.active d))
        (λ active.
          Raises-if Manager o LibvirtError active _ _
            (Raises-perform Manager o LibvirtError (destroy d) (h.destroyed d))
            (Raises-pure Manager o LibvirtError tt))

  undefine_by-Raises :
      (vars : Option Text) (d : ℕ) → Raises {S = Manager} o LibvirtError (undefine_by vars d)
  undefine_by-Raises none d = Raises-perform Manager o LibvirtError (undefine d) (h.undefined d)
  undefine_by-Raises (some vars) d =
      Raises-perform Manager o LibvirtError (undefine_nvram d) (h.undefined_nvram d)

  remove_domain-Safe : (vars : Option Text) (domain : Option ℕ) → Safe (remove_domain vars domain)
  unfolding Safe
  remove_domain-Safe vars none = Raises-pure Manager o Never tt
  remove_domain-Safe vars (some d) =
      Raises->> Manager o Never _ _
        (Raises-try_except Manager o Never LibvirtError _ _ (destroy_if_active-Raises d)
          (on_libvirt_error-Safe tt))
        (Raises-try_except Manager o Never LibvirtError _ _ (undefine_by-Raises vars d)
          (on_libvirt_error-Safe tt))

  kill_number-Safe : (pid : Option ℤ) → Safe (kill_number pid)
  unfolding Safe
  kill_number-Safe none = Raises-pure Manager o Never tt
  kill_number-Safe (some pid) =
      Raises-try_except Manager o Never OsError _ _
        (Raises-perform Manager o OsError (kill_pid pid) (h.signalled pid)) ignore_os_error-Safe

  kill_line-Safe : (line : Text) → Safe (kill_line line)
  unfolding Safe kill_line
  kill_line-Safe line =
      Raises-if Manager o Never (is_empty (strip line)) _ _ (Raises-pure Manager o Never tt)
        (kill_number-Safe (parse_int (strip line)))

  weaken_result : (r : Result Done) → AtMost Never r → AtMost MissingTool r
  weaken_result (ok done) k = tt
  weaken_result (err x) k = elim k [ ]

  weaken : (run : Eff Manager Done) → Safe run → Raises o MissingTool run
  unfolding Safe Raises
  weaken run k w = weaken_result (run o w).0 (k w)

  kill_listed-Raises : (listed : ℤ × Text) → Raises {S = Manager} o MissingTool (kill_listed listed)
  kill_listed-Raises (status, output) =
      Raises-if Manager o MissingTool (int_is status 0) _ _
        (Raises-for_each Manager o MissingTool (split_on 10 (strip output)) kill_line
          (λ line. weaken (kill_line line) (kill_line-Safe line)))
        (Raises-pure Manager o MissingTool tt)

  ignore_missing_tool-Safe : (x : Error) → MissingTool x → Safe (ignore_missing_tool x)
  unfolding Safe
  ignore_missing_tool-Safe x missing = Raises-pure Manager o Never tt

  kill_remaining_qemu-Safe : Safe kill_remaining_qemu
  unfolding Safe kill_remaining_qemu
  kill_remaining_qemu-Safe =
      Raises-try_except Manager o Never MissingTool _ _
        (Raises->>= Manager o MissingTool _ _ (Raises-perform Manager o MissingTool pgrep h.listed)
          kill_listed-Raises)
        ignore_missing_tool-Safe

  remove_files-Safe : (self : Manager) → Safe (remove_files self)
  unfolding Safe remove_files
  remove_files-Safe self =
      Raises-if Manager o Never self.machine.cfg.persist _ _ (Raises-pure Manager o Never tt) (
        Raises->>= Manager o Never _ _
          (Raises-perform Manager o Never (exists self.machine.vm_dir)
            (h.tested self.machine.vm_dir))
          (λ there.
            Raises-if Manager o Never there _ _
              (Raises-try_except Manager o Never OsError _ _
                (Raises-perform Manager o OsError (remove_tree self.machine.vm_dir)
                  (h.removed self.machine.vm_dir))
                ignore_os_error-Safe)
              (Raises-pure Manager o Never tt)))

  cleanup-Safe : Safe cleanup
  unfolding Safe cleanup
  cleanup-Safe = Raises->>= Manager o Never _ _ (Raises-get Manager o Never) (λ self.
      Raises->> Manager o Never _ _ (stop_tpm-Safe self.tpm_process) (
        Raises->> Manager o Never _ _
          (remove_domain-Safe self.machine.firmware_vars_path self.domain)
          (Raises->> Manager o Never _ _ kill_remaining_qemu-Safe (remove_files-Safe self))))

-- Where the calls raise nothing but what they are documented to raise, `cleanup` raises nothing.
pub cleanup_returns : (o : Outside) → IsDocumented o → (w : World Manager) → (cleanup o w).0 ≡ ok tt
unfolding Safe Raises
cleanup_returns o h w = (AtMost-Never (cleanup o w).0 (cleanup-Safe o h w)).1

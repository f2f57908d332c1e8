-- ===== src/Vm/Lifecycle/Cleanup.antt =====
-- app/vm.py: `cleanup`, `_kill_remaining_qemu` and `_mark_installed`.
use docker_vm_runner.Base.{
  ℕ, Text, text, strip, split_on, is_empty, parse_int, ◌++◌, Option, none, some, [], ◌∷◌, ℤ, int_is,
  Error, if◌then◌else◌,
}
use docker_vm_runner.Effects.{
  exists, remove_tree, write_text, now, terminate, wait_process, kill, pgrep, kill_pid, is_active,
  destroy, Done, Eff, pure, throw, ◌>>=◌, ◌>>◌, try_except, perform, get, for_each,
}
use docker_vm_runner.Services.Libvirt.{is_os_error, ignore_os_error}
use docker_vm_runner.Services.Pool.{on_libvirt_error}
use docker_vm_runner.Vm.Manager.{Manager}
use docker_vm_runner.Vm.Lifecycle.{undefine_by}

-- `except (subprocess.TimeoutExpired, OSError)`: the process is killed.
abbrev pub kill_late : ℕ → Error → Eff Manager Done
kill_late proc Error.timeout_expired = try_except (perform (kill proc)) ignore_os_error
kill_late proc x =
    if is_os_error x then try_except (perform (kill proc)) ignore_os_error else throw x

abbrev pub stop_tpm : Option ℕ → Eff Manager Done
stop_tpm none = pure tt
stop_tpm (some proc) =
    try_except (perform (terminate proc) >> perform (wait_process proc)) (kill_late proc)

unfoldable pub destroy_if_active : ℕ → Eff Manager Done
destroy_if_active domain = do
  active ← perform (is_active domain)
  if active then perform (destroy domain) else pure tt

abbrev pub remove_domain : Option Text → Option ℕ → Eff Manager Done
remove_domain vars none = pure tt
remove_domain vars (some domain) =
    try_except (destroy_if_active domain) (on_libvirt_error tt)
    >> try_except (undefine_by vars domain) (on_libvirt_error tt)

-- `os.kill(int(pid), SIGKILL)`; what is no number is passed over.
abbrev pub kill_number : Option ℤ → Eff Manager Done
kill_number none = pure tt
kill_number (some pid) = try_except (perform (kill_pid pid)) ignore_os_error

unfoldable pub kill_line : Text → Eff Manager Done
kill_line line = if is_empty (strip line) then pure tt else kill_number (parse_int (strip line))

abbrev pub ignore_missing_tool : Error → Eff Manager Done
ignore_missing_tool Error.not_found_error = pure tt
ignore_missing_tool x = throw x

-- The lines of `pgrep` end with a line feed.
abbrev pub kill_listed : ℤ × Text → Eff Manager Done
kill_listed (status, output) =
    if int_is status 0 then for_each (split_on 10 (strip output)) kill_line else pure tt

unfoldable pub kill_remaining_qemu : Eff Manager Done
kill_remaining_qemu = try_except (perform pgrep >>= kill_listed) ignore_missing_tool

unfoldable pub remove_files : Manager → Eff Manager Done
remove_files self = if self.machine.cfg.persist then pure tt else (do
  there ← perform (exists self.machine.vm_dir)
  if there then try_except (perform (remove_tree self.machine.vm_dir)) ignore_os_error else pure tt)

unfoldable pub cleanup : Eff Manager Done
cleanup = do
  self ← get
  stop_tpm self.tpm_process
  remove_domain self.machine.firmware_vars_path self.domain
  kill_remaining_qemu
  remove_files self

abbrev pub marker : Manager → Text
marker self = self.machine.vm_dir ++ text "/.installed"

-- The parameter writes a time as `strftime` does with the format "%Y-%m-%dT%H:%M:%SZ".
unfoldable pub mark_installed : (ℕ → Text) → Eff Manager Done
mark_installed stamp = do
  self ← get
  there ← perform (exists (marker self))
  if there then pure tt else (do
    t ← perform now
    perform (write_text (marker self) (text "Installed on " ++ (stamp t ++ (10 ∷ [])))))

-- ===== src/Services.antt =====
-- app/services.py: the attributes of a `ServiceManager`, and the steps that its methods share.
pub mod Grows
pub mod Libvirt
pub mod Redfish
pub mod Pool
pub mod Session
pub mod Tests
pub mod Tracked
use docker_vm_runner.Base.{
  ℕ, Text, ℤ, Bool, true, false, Option, none, some, List, [], ◌∷◌, ◌++◌, err, raise, Reason, Error,
}
use docker_vm_runner.Models.{VmConfig}
use docker_vm_runner.Runtime.{RuntimeInfo}
use docker_vm_runner.Effects.{
  make_directory, popen, poll, communicate, sleep, Done, Eff, pure, throw, ◌>>=◌, ◌>>◌, perform,
  modify,
}

-- `processes` holds the processes in the order of their start.
pub record Services : Type 0 where
  pub vm_config : VmConfig
  pub processes : List ℕ
  pub shutdown : Bool
  pub cert_dir : Text
  pub config_dir : Text
  pub novnc_started : Bool
  pub storage_pool_name : Text
  pub storage_pool_path : Text
  pub runtime : RuntimeInfo

unfoldable pub ensure_directory : {S : Type 0} → Text → Eff S Done
ensure_directory path = perform (make_directory path)

abbrev pub add_process : ℕ → Services → Services
add_process p self = record self { processes = self.processes ++ (p ∷ []) }

-- `proc = subprocess.Popen(command); self.processes.append(proc)`
unfoldable pub spawn : List Text → Eff Services ℕ
spawn command = do proc ← perform (popen command); modify (add_process proc); pure proc

-- The exit status, if the process has ended.
abbrev pub and_exited : ℕ → Text → Option ℤ → Eff Services Done
and_exited proc name none = pure tt
and_exited proc name (some code) =
    perform (communicate proc) >> throw (Error.manager (Reason.exited_early name code))

unfoldable pub assert_running : ℕ → Text → Eff Services Done
assert_running proc name = perform (sleep 500) >> perform (poll proc) >>= and_exited proc name

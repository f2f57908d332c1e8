-- ===== src/Services/Session.antt =====
-- app/services.py: `start`, `start_novnc` and `stop`.
pub mod Laws
use docker_vm_runner.Base.{
  ℕ, Text, text, show_nat, Bool, true, false, not, Option, none, some, List, [], ◌∷◌, ◌++◌, Reason,
  Error, ℤ, if◌then◌else◌,
}
use docker_vm_runner.Models.{VmConfig}
use docker_vm_runner.Effects.{
  exists, on_path, poll, terminate, wait_process, kill, Done, Eff, pure, throw, ◌>>=◌, ◌>>◌,
  try_except, perform, get, modify, for_each,
}
use docker_vm_runner.Services.{Services, spawn}
use docker_vm_runner.Services.Libvirt.{start_libvirt, wait_for_libvirt}
use docker_vm_runner.Services.Redfish.{certificate, private_key, ensure_certificates, start_sushy}
use docker_vm_runner.Services.Pool.{ensure_storage_pool}

unfoldable pub start : ℕ → Text → Eff Services Done
start rounds uri = do
  start_libvirt
  wait_for_libvirt rounds
  self ← get
  if self.vm_config.redfish_enabled then (ensure_storage_pool uri >> start_sushy uri) else pure tt

abbrev pub novnc_root : Text
novnc_root = text "/usr/share/novnc"

abbrev pub websockify_command : Services → List Text
websockify_command self =
    text "websockify"
    ∷ text "--web"
    ∷ novnc_root
    ∷ text "--cert"
    ∷ certificate self
    ∷ text "--key"
    ∷ private_key self
    ∷ (text "0.0.0.0:" ++ show_nat self.vm_config.novnc_port)
    ∷ (text "127.0.0.1:" ++ show_nat self.vm_config.vnc_port)
    ∷ []

abbrev pub set_novnc_started : Services → Services
set_novnc_started self = record self { novnc_started = true }

-- `except FileNotFoundError: raise ManagerError`
abbrev pub missing_tool : {S A : Type 0} → Text → Error → Eff S A
missing_tool name Error.not_found_error = throw (Error.manager (Reason.tool_missing name))
missing_tool name x = throw x

-- `if not found: raise ManagerError`
abbrev pub need : {S : Type 0} → Bool → Text → Eff S Done
need found name = if found then pure tt else throw (Error.manager (Reason.tool_missing name))

unfoldable pub launch_novnc : Eff Services Done
launch_novnc = do
  found ← perform (on_path (text "websockify"))
  need found (text "websockify")
  assets ← perform (exists novnc_root)
  need assets novnc_root
  ensure_certificates
  self ← get
  try_except (spawn (websockify_command self) >> pure tt) (missing_tool (text "websockify"))
  modify set_novnc_started

unfoldable pub start_novnc : Eff Services Done
start_novnc = do
  self ← get
  if not self.vm_config.novnc_enabled
      then pure tt
      else if self.novnc_started
      then pure tt
      else launch_novnc

abbrev pub set_shutdown : Services → Services
set_shutdown self = record self { shutdown = true }

abbrev pub if_alive : {S : Type 0} → ℕ → Option ℤ → Eff S Done
if_alive proc none = perform (terminate proc)
if_alive proc (some code) = pure tt

-- `if proc.poll() is None: proc.terminate()`
unfoldable pub ask_to_end : {S : Type 0} → ℕ → Eff S Done
ask_to_end proc = perform (poll proc) >>= if_alive proc

abbrev pub on_timeout : {S : Type 0} → ℕ → Error → Eff S Done
on_timeout proc Error.timeout_expired = perform (kill proc)
on_timeout proc x = throw x

-- `try: proc.wait(timeout=5) except subprocess.TimeoutExpired: proc.kill()`
unfoldable pub await_end : {S : Type 0} → ℕ → Eff S Done
await_end proc = try_except (perform (wait_process proc)) (on_timeout proc)

unfoldable pub stop_all : List ℕ → Eff Services Done
stop_all processes = for_each processes ask_to_end >> for_each processes await_end

unfoldable pub stop : Eff Services Done
stop = do
  self ← get
  if self.shutdown then pure tt else (modify set_shutdown >> stop_all self.processes)

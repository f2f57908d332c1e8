-- ===== src/Services/Libvirt.antt =====
-- app/services.py: the start of virtlogd and libvirtd, and the wait for their sockets
-- (`wait_for_path` of app/utils.py).
pub mod Sockets
use docker_vm_runner.Base.{
  ℕ, zero, suc, ◌+◌, ltb, Text, text, Bool, true, false, not, Option, none, some, List, [], ◌∷◌,
  ◌++◌, raise, Reason, Error, if◌then◌else◌,
}
use docker_vm_runner.Runtime.{RuntimeInfo}
use docker_vm_runner.Effects.{
  exists, is_socket, connect_socket, unlink, now, sleep, Done, Eff, pure, throw, ◌>>=◌, ◌>>◌,
  try_except, perform, get, for_each,
}
use docker_vm_runner.Effects.Polling.{poll_for}
use docker_vm_runner.Services.{Services, ensure_directory, spawn, assert_running}

unfoldable pub wait_for_path : {S : Type 0} → ℕ → Text → ℕ → ℕ → Eff S Bool
wait_for_path rounds path timeout interval =
    poll_for rounds (perform (exists path)) timeout interval

-- `any(wait_for_path(path, timeout=15) for path in paths)`
unfoldable pub any_appears : {S : Type 0} → ℕ → List Text → Eff S Bool
any_appears rounds [] = pure false
any_appears rounds (path ∷ paths) = do
  found ← wait_for_path rounds path 15000 100
  if found then pure true else any_appears rounds paths

abbrev pub is_os_error : Error → Bool
is_os_error Error.os_error = true
is_os_error Error.not_found_error = true
is_os_error Error.refused_error = true
is_os_error Error.timeout_error = true
is_os_error _ = false

-- Whether a socket is stale, from the error of a connection.
abbrev pub stale_by : {S : Type 0} → Error → Eff S Bool
stale_by Error.timeout_error = pure true
stale_by Error.refused_error = pure true
stale_by Error.not_found_error = pure true
stale_by Error.os_error = pure false
stale_by x = throw x

abbrev pub ignore_os_error : {S : Type 0} → Error → Eff S Done
ignore_os_error x = if is_os_error x then pure tt else throw x

unfoldable pub remove_stale : {S : Type 0} → Text → Eff S Done
remove_stale path = do
  stale ← try_except (perform (connect_socket path) >> pure false) stale_by
  if stale then try_except (perform (unlink path)) ignore_os_error else pure tt

unfoldable pub cleanup_socket : {S : Type 0} → Text → Eff S Done
cleanup_socket path = do
  there ← perform (exists path)
  if there
      then (do socket ← perform (is_socket path); if socket then remove_stale path else pure tt)
      else pure tt

abbrev pub libvirt_sockets : List Text
libvirt_sockets = text "/run/libvirt/libvirt-sock" ∷ text "/var/run/libvirt/libvirt-sock" ∷ []

abbrev pub virtlogd_sockets : List Text
virtlogd_sockets = text "/run/libvirt/virtlogd-sock" ∷ text "/var/run/libvirt/virtlogd-sock" ∷ []

-- The command of a daemon, with its configuration if there is one.
unfoldable pub daemon_command : {S : Type 0} → Text → Text → Eff S (List Text)
daemon_command program conf = do
  there ← perform (exists conf)
  pure (if there then program ∷ text "-f" ∷ conf ∷ [] else program ∷ [])

unfoldable pub start_libvirt : Eff Services Done
start_libvirt = do
  ensure_directory (text "/run/libvirt")
  ensure_directory (text "/var/run/libvirt")
  for_each (libvirt_sockets ++ virtlogd_sockets) cleanup_socket
  virtlogd_cmd ← daemon_command (text "/usr/sbin/virtlogd") (text "/etc/libvirt/virtlogd.conf")
  virtlogd ← spawn virtlogd_cmd
  libvirtd_cmd ← daemon_command (text "/usr/sbin/libvirtd") (text "/etc/libvirt/libvirtd.conf")
  libvirtd ← spawn libvirtd_cmd
  assert_running virtlogd (text "virtlogd")
  assert_running libvirtd (text "libvirtd")

-- A rootless container goes on without the socket; the flag says that it goes on with the rest.
abbrev pub no_socket_error : Text → Services → Eff Services Bool
no_socket_error name self =
    if self.runtime.rootless then pure false else throw (Error.manager (Reason.no_socket name))

unfoldable pub await_sockets : ℕ → Text → List Text → Eff Services Bool
await_sockets rounds name paths = do
  found ← any_appears rounds paths
  if found then pure true else (get >>= no_socket_error name)

unfoldable pub wait_for_libvirt : ℕ → Eff Services Done
wait_for_libvirt rounds = do
  ready ← await_sockets rounds (text "libvirt") libvirt_sockets
  if ready then (await_sockets rounds (text "virtlogd") virtlogd_sockets >> pure tt) else pure tt

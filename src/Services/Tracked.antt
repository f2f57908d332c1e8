-- ===== src/Services/Tracked.antt =====
-- The manager's list of processes against the calls of `Popen` that were made.
use docker_vm_runner.Base.{
  ℕ, Text, Bool, true, false, Option, ℤ, zero, suc, none, some, List, [], ◌∷◌, ◌++◌, ◌≡◌, refl, sym,
  ◌∙◌, append-nil, ap, Result, ok, err, Error,
}
use docker_vm_runner.Effects.{
  Action, popen, terminate, kill, Outside, World, Eff, pure, ◌>>=◌, ◌>>◌, and_then, perform, modify,
}
use docker_vm_runner.Effects.Keep.{
  Keeps, Keeps-pure, Keeps-throw, Keeps->>=, Keeps->>, Keeps-try_except, Keeps-try_finally,
  Keeps-if, Keeps-get, Keeps-for_each,
}
use docker_vm_runner.Services.{
  Services, spawn, add_process, ensure_directory, assert_running, and_exited,
}
use docker_vm_runner.Effects.Polling.{poll_until, poll_for}
use docker_vm_runner.Services.Libvirt.{
  wait_for_path, any_appears, stale_by, remove_stale, cleanup_socket, daemon_command, start_libvirt,
  await_sockets, wait_for_libvirt,
}
use docker_vm_runner.Services.Redfish.{
  has_certificate, ensure_certificates, write_auth_file, write_config, start_sushy,
}
use docker_vm_runner.Services.Pool.{
  on_libvirt_error, or_new_pool, activate_pool, ensure_pool, with_connection, ensure_storage_pool,
}
use docker_vm_runner.Services.Session.{
  start, launch_novnc, start_novnc, set_novnc_started, set_shutdown, missing_tool, if_alive,
  ask_to_end, on_timeout, await_end, stop_all, stop,
}

abbrev handle_of : Result ℕ → List ℕ
handle_of (ok p) = p ∷ []
handle_of (err x) = []

-- The processes that were started, in the order of their start.
abbrev pub started : Outside → List Action → List ℕ
started o [] = []
started o (popen command ∷ log) = started o log ++ handle_of (o (popen command) log)
started o (_ ∷ log) = started o log

unfoldable pub IsTracked : Outside → World Services → Type 0
IsTracked o w = w.self.processes ≡ started o w.log

-- A program that keeps this.
abbrev Tracks : {A : Type 0} → Eff Services A → Type 0
Tracks run = Keeps IsTracked run

unfoldable quiet : Action → Bool
quiet (popen command) = false
quiet _ = true

started-quiet :
    (o : Outside) (a : Action) (log : List Action)
    → quiet a ≡ true
    → started o (a ∷ log) ≡ started o log
unfolding quiet
started-quiet o (popen command) log q = cc
started-quiet o _ log q = refl

perform-Tracks : (a : Action) → quiet a ≡ true → Tracks (perform a)
unfolding Keeps perform IsTracked
perform-Tracks a q o w h = h ∙ sym (started-quiet o a w.log q)

ruleset keep = (
  Keeps-pure, Keeps-throw, Keeps->>=, Keeps->>, Keeps-try_except, Keeps-try_finally, Keeps-if,
  Keeps-get, Keeps-for_each, perform-Tracks, refl,
)

spawned :
    (o : Outside) (self : Services) (log : List Action) (r : Result ℕ)
    → (and_then
        (λ proc. modify (add_process proc) >> pure proc)
        o
        (r, record { self = self; log = log })).1.self.processes
      ≡ self.processes ++ handle_of r
unfolding ◌>>=◌ ◌>>◌ pure modify
spawned o self log (ok p) = refl
spawned o self log (err x) = sym (append-nil _)

spawned_log :
    (o : Outside) (w : World Services) (r : Result ℕ)
    → (and_then (λ proc. modify (add_process proc) >> pure proc) o (r, w)).1.log ≡ w.log
unfolding ◌>>=◌ ◌>>◌ pure modify
spawned_log o w (ok p) = refl
spawned_log o w (err x) = refl

spawn-Tracks : (command : List Text) → Tracks (spawn command)
unfolding spawn Keeps ◌>>=◌ perform IsTracked
spawn-Tracks command o w h =
    spawned o w.self (popen command ∷ w.log) (o (popen command) w.log)
    ∙ ap (λ ps. ps ++ handle_of (o (popen command) w.log)) h
    ∙ ap (started o)
        (sym (spawned_log o (record w { log = popen command ∷ w.log }) (o (popen command) w.log)))

ensure_directory-Tracks : (path : Text) → Tracks (ensure_directory path)
unfolding ensure_directory quiet Keeps
ensure_directory-Tracks path = search keep

stale_by-Tracks : (x : Error) → Tracks (stale_by x)
stale_by-Tracks Error.os_error = Keeps-pure IsTracked _
stale_by-Tracks Error.refused_error = Keeps-pure IsTracked _
stale_by-Tracks Error.timeout_error = Keeps-pure IsTracked _
stale_by-Tracks Error.not_found_error = Keeps-pure IsTracked _
stale_by-Tracks x = Keeps-throw IsTracked _ _

cleanup_socket-Tracks : (path : Text) → Tracks (cleanup_socket path)
unfolding cleanup_socket remove_stale quiet Keeps
cleanup_socket-Tracks path = search (keep, stale_by-Tracks) depth 14

daemon_command-Tracks : (program conf : Text) → Tracks (daemon_command program conf)
unfolding daemon_command quiet Keeps
daemon_command-Tracks program conf = search keep depth 14

and_exited-Tracks :
    (proc : ℕ) (name : Text) (status : Option ℤ) → Tracks (and_exited proc name status)
unfolding quiet Keeps
and_exited-Tracks proc name none = search keep
and_exited-Tracks proc name (some code) = search keep depth 14

assert_running-Tracks : (proc : ℕ) (name : Text) → Tracks (assert_running proc name)
unfolding assert_running quiet Keeps
assert_running-Tracks proc name = search (keep, and_exited-Tracks) depth 14

poll_until-Tracks :
    (rounds : ℕ) (test : Eff Services Bool) (deadline interval : ℕ)
    → Tracks test
    → Tracks (poll_until rounds test deadline interval)
unfolding poll_until quiet Keeps
poll_until-Tracks zero test deadline interval h = search keep
poll_until-Tracks (suc rounds) test deadline interval h =
    search (keep, h, poll_until-Tracks rounds test deadline interval h) depth 14

wait_for_path-Tracks :
    (rounds : ℕ) (path : Text) (timeout interval : ℕ)
    → Tracks (wait_for_path rounds path timeout interval)
unfolding wait_for_path poll_for quiet Keeps
wait_for_path-Tracks rounds path timeout interval = search (keep, poll_until-Tracks) depth 14

any_appears-Tracks : (rounds : ℕ) (paths : List Text) → Tracks (any_appears rounds paths)
unfolding any_appears quiet Keeps
any_appears-Tracks rounds [] = search keep
any_appears-Tracks rounds (path ∷ paths) =
    search (keep, wait_for_path-Tracks, any_appears-Tracks rounds paths) depth 14

start_libvirt-Tracks : Tracks start_libvirt
unfolding start_libvirt Keeps
start_libvirt-Tracks =
    search
      (
        keep, ensure_directory-Tracks, cleanup_socket-Tracks, daemon_command-Tracks, spawn-Tracks,
        assert_running-Tracks,
      )
      depth 30

await_sockets-Tracks :
    (rounds : ℕ) (name : Text) (paths : List Text) → Tracks (await_sockets rounds name paths)
unfolding await_sockets Keeps
await_sockets-Tracks rounds name paths = search (keep, any_appears-Tracks) depth 14

wait_for_libvirt-Tracks : (rounds : ℕ) → Tracks (wait_for_libvirt rounds)
unfolding wait_for_libvirt Keeps
wait_for_libvirt-Tracks rounds = search (keep, await_sockets-Tracks) depth 14

ensure_certificates-Tracks : Tracks ensure_certificates
unfolding ensure_certificates has_certificate quiet Keeps
ensure_certificates-Tracks = search keep depth 20

start_sushy-Tracks : (uri : Text) → Tracks (start_sushy uri)
unfolding start_sushy write_auth_file write_config quiet Keeps
start_sushy-Tracks uri = search (keep, ensure_certificates-Tracks, spawn-Tracks) depth 20

on_libvirt_error-Tracks : {A : Type 0} (a : A) (x : Error) → Tracks (on_libvirt_error a x)
on_libvirt_error-Tracks a (Error.libvirt_error message) = Keeps-pure IsTracked a
on_libvirt_error-Tracks a x = Keeps-throw IsTracked _ _

or_new_pool-Tracks :
    (conn : ℕ) (self : Services) (found : Option ℕ) → Tracks (or_new_pool conn self found)
unfolding quiet Keeps
or_new_pool-Tracks conn self (some pool) = search keep
or_new_pool-Tracks conn self none = search (keep, on_libvirt_error-Tracks) depth 20

activate_pool-Tracks : (pool : ℕ) → Tracks (activate_pool pool)
unfolding activate_pool quiet Keeps
activate_pool-Tracks pool = search keep depth 20

ensure_pool-Tracks : (conn : ℕ) → Tracks (ensure_pool conn)
unfolding ensure_pool quiet Keeps
ensure_pool-Tracks conn =
    search (keep, on_libvirt_error-Tracks, or_new_pool-Tracks, activate_pool-Tracks) depth 20

with_connection-Tracks : (conn : Option ℕ) → Tracks (with_connection conn)
unfolding quiet Keeps
with_connection-Tracks none = search keep
with_connection-Tracks (some conn) =
    search (keep, ensure_pool-Tracks, on_libvirt_error-Tracks) depth 20

ensure_storage_pool-Tracks : (uri : Text) → Tracks (ensure_storage_pool uri)
unfolding ensure_storage_pool quiet Keeps
ensure_storage_pool-Tracks uri =
    search (keep, ensure_directory-Tracks, on_libvirt_error-Tracks, with_connection-Tracks) depth 20

start-Tracks : (rounds : ℕ) (uri : Text) → Tracks (start rounds uri)
unfolding start Keeps
start-Tracks rounds uri =
    search
      (
        keep, start_libvirt-Tracks, wait_for_libvirt-Tracks, ensure_storage_pool-Tracks,
        start_sushy-Tracks,
      )
      depth 20

missing_tool-Tracks : (A : Type 0) (name : Text) (x : Error) → Tracks (missing_tool {A = A} name x)
missing_tool-Tracks A name Error.not_found_error = Keeps-throw IsTracked _ _
missing_tool-Tracks A name x = Keeps-throw IsTracked _ _

set_novnc_started-Tracks : Tracks (modify set_novnc_started)
unfolding Keeps modify IsTracked
set_novnc_started-Tracks o w h = h

launch_novnc-Tracks : Tracks launch_novnc
unfolding launch_novnc quiet Keeps
launch_novnc-Tracks =
    search
      (
        keep, spawn-Tracks, ensure_certificates-Tracks, missing_tool-Tracks,
        set_novnc_started-Tracks,
      )
      depth 20

start_novnc-Tracks : Tracks start_novnc
unfolding start_novnc Keeps
start_novnc-Tracks = search (keep, launch_novnc-Tracks) depth 20

ask_to_end-Tracks : (proc : ℕ) → Tracks (ask_to_end proc)
unfolding ask_to_end quiet Keeps
ask_to_end-Tracks proc = search (keep, if_alive-Tracks) depth 20
  where
    if_alive-Tracks : (status : Option ℤ) → Tracks (if_alive proc status)
    if_alive-Tracks none = perform-Tracks (terminate proc) refl
    if_alive-Tracks (some code) = Keeps-pure IsTracked tt

await_end-Tracks : (proc : ℕ) → Tracks (await_end proc)
unfolding await_end quiet Keeps
await_end-Tracks proc = search (keep, on_timeout-Tracks) depth 20
  where
    on_timeout-Tracks : (x : Error) → Tracks (on_timeout proc x)
    on_timeout-Tracks Error.timeout_expired = perform-Tracks (kill proc) refl
    on_timeout-Tracks x = Keeps-throw IsTracked _ _

set_shutdown-Tracks : Tracks (modify set_shutdown)
unfolding Keeps modify IsTracked
set_shutdown-Tracks o w h = h

stop-Tracks : Tracks stop
unfolding stop stop_all Keeps
stop-Tracks = search (keep, ask_to_end-Tracks, await_end-Tracks, set_shutdown-Tracks) depth 20

-- Each operation keeps the list of processes equal to the processes that were started, in their
-- order, whatever the outside answers and however the operation ends.
pub operations-IsTracked :
    (rounds : ℕ) (uri : Text) (o : Outside) (w : World Services)
    → IsTracked o w
    → IsTracked o (start rounds uri o w).1
      × IsTracked o (start_novnc o w).1
      × IsTracked o (stop o w).1
unfolding Keeps
operations-IsTracked rounds uri o w h =
    (start-Tracks rounds uri o w h, start_novnc-Tracks o w h, stop-Tracks o w h)

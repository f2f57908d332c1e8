-- ===== src/Services/Tests.antt =====
-- The theorems about app/services.py at concrete inputs.
use docker_vm_runner.Base.{
  ℕ, ◌+◌, ◌≤◌, arith, Text, text, true, false, none, some, List, [], ◌∷◌, ◌++◌, All, ◌≡◌, refl, inl,
  inr, ok, err, ok-inj, ap, sym, subst, Result,
}
use docker_vm_runner.Config.Sample.{config}
use docker_vm_runner.Effects.{
  exists, connect_socket, unlink, is_socket, popen, Outside, World, ◌>>=◌, ◌>>◌, pure, get, perform,
  modify, try_except,
}
use docker_vm_runner.Effects.Sample.{calm, time_of}
use docker_vm_runner.Services.{Services, spawn}
use docker_vm_runner.Services.Libvirt.{remove_stale, cleanup_socket, wait_for_path}
use docker_vm_runner.Effects.Polling.{HasClock, IsOver}
use docker_vm_runner.Services.Libvirt.Sockets.{Dead, cleanup_socket-Dead, wait_for_path-Returns}
use docker_vm_runner.Services.Session.{start, launch_novnc, start_novnc, stop}
use docker_vm_runner.Services.Redfish.{has_certificate, ensure_certificates}
use docker_vm_runner.Services.Session.Laws.{Asked, Ended, IsPosix, stop_settles, stop_returns}
use docker_vm_runner.Services.Tracked.{IsTracked, operations-IsTracked}

-- A manager with two processes, and the calls that started them.
abbrev pub two_started : World Services
two_started = record {
  self = record {
    vm_config = record config { novnc_enabled = true; redfish_enabled = false };
    processes = 0 ∷ 1 ∷ [];
    shutdown = false;
    cert_dir = text "/state/certs";
    config_dir = text "/state/sushy";
    novnc_started = false;
    storage_pool_name = text "default";
    storage_pool_path = text "/pool";
    runtime = record { engine = text "docker"; rootless = false; privileged = true };
  };
  log = popen (text "libvirtd" ∷ []) ∷ popen (text "virtlogd" ∷ []) ∷ [];
}

pub calm-IsPosix : IsPosix calm
calm-IsPosix = record {
  polled = λ p log. (none, refl);
  terminated = λ p log. refl;
  killed = λ p log. refl;
  waited = λ p log. inl refl;
}

stop_settles_example :
    All (λ p. Asked p calm (stop calm two_started).1) (0 ∷ 1 ∷ [])
    × All (λ p. Ended p calm (stop calm two_started).1) (0 ∷ 1 ∷ [])
stop_settles_example =
    stop_settles calm two_started refl (stop_returns calm calm-IsPosix two_started)

novnc_returns : (start_novnc calm two_started).0 ≡ ok tt
unfolding start_novnc launch_novnc ensure_certificates has_certificate spawn ◌>>=◌ ◌>>◌ pure get
    perform modify try_except
novnc_returns = refl

-- Nothing answers at the sockets.
abbrev silent : Outside
silent (connect_socket path) log = err docker_vm_runner.Base.Error.refused_error
silent a log = calm a log

abbrev fresh : World Services
fresh = record two_started { log = [] }

dead_log :
    (cleanup_socket (text "/s") silent fresh).1.log
    ≡ unlink (text "/s")
      ∷ connect_socket (text "/s")
      ∷ is_socket (text "/s")
      ∷ exists (text "/s")
      ∷ []
unfolding cleanup_socket remove_stale ◌>>=◌ ◌>>◌ pure perform try_except
dead_log = refl

cleanup_socket-Dead_example :
    Dead (silent (connect_socket (text "/s")) (is_socket (text "/s") ∷ exists (text "/s") ∷ []))
cleanup_socket-Dead_example =
    cleanup_socket-Dead silent (text "/s") fresh
      (connect_socket (text "/s") ∷ is_socket (text "/s") ∷ exists (text "/s") ∷ []) dead_log

pub calm-HasClock : HasClock calm
calm-HasClock = record { told = λ log. (time_of log, refl); slept = λ pause log. refl }

-- After three pauses of 100 milliseconds.
calm-IsOver : IsOver calm 3 (exists (text "/s")) 300 100 two_started.log
calm-IsOver = (0, 300, refl, refl, omega arith)

wait_for_path-Returns_example :
    (found : docker_vm_runner.Base.Bool) × ((wait_for_path 4 (text "/s") 300 100 calm two_started).0
      ≡ ok found)
wait_for_path-Returns_example =
    wait_for_path-Returns calm 3 300 100 (text "/s") two_started calm-HasClock (λ log. (true, refl))
      calm-IsOver

tracked : IsTracked calm two_started
unfolding IsTracked
tracked = refl

operations-IsTracked_example :
    IsTracked calm (start 151 (text "qemu:///system") calm two_started).1
    × IsTracked calm (start_novnc calm two_started).1
    × IsTracked calm (stop calm two_started).1
operations-IsTracked_example =
    operations-IsTracked 151 (text "qemu:///system") calm two_started tracked

-- ===== src/Services/Libvirt/Sockets.antt =====
-- A socket in use is left in place, and the wait for a path ends.
use docker_vm_runner.Base.{
  ℕ, suc, Text, Bool, true, false, List, ◌∷◌, ◌≡◌, refl, Result, ok, err, Error, if◌then◌else◌,
}
use docker_vm_runner.Effects.{
  Action, exists, is_socket, connect_socket, unlink, Done, Outside, World, Eff, pure, throw, ◌>>=◌,
  ◌>>◌, and_then, or_else, try_except, perform,
}
use docker_vm_runner.Effects.Polling.{HasClock, IsOver, poll_for-Returns}
use docker_vm_runner.Services.Libvirt.{
  stale_by, ignore_os_error, remove_stale, cleanup_socket, wait_for_path,
}

-- The socket does not answer: no time left, refused, or gone.
pub data Dead : Result Done → Type 0 where
  timed_out : Dead (err Error.timeout_error)
  refused : Dead (err Error.refused_error)
  vanished : Dead (err Error.not_found_error)

module _ {S : Type 0} (o : Outside) where
  -- The last call, when the connection has had the given outcome.
  abbrev log_of : {A : Type 0} → Result A × World S → List Action
  log_of r = r.1.log

  tried : Text → Result Done → World S → Result Bool × World S
  tried path r w = or_else stale_by o (and_then (λ done. pure false) o (r, w))

  tried_log : (path : Text) (r : Result Done) (w : World S) → log_of (tried path r w) ≡ w.log
  unfolding tried pure throw
  tried_log path (ok done) w = refl
  tried_log path (err Error.os_error) w = refl
  tried_log path (err Error.timeout_error) w = refl
  tried_log path (err Error.refused_error) w = refl
  tried_log path (err Error.not_found_error) w = refl
  tried_log path (err x) w = refl

  tried-Dead : (path : Text) (r : Result Done) (w : World S) → (tried path r w).0 ≡ ok true → Dead r
  unfolding tried pure throw
  tried-Dead path (ok done) w e = cc
  tried-Dead path (err Error.os_error) w e = cc
  tried-Dead path (err Error.timeout_error) w e = timed_out
  tried-Dead path (err Error.refused_error) w e = refused
  tried-Dead path (err Error.not_found_error) w e = vanished
  tried-Dead path (err x) w e = cc

  removal : Text → Bool → Eff S Done
  removal path stale = if stale then try_except (perform (unlink path)) ignore_os_error else pure tt

  removed :
      (path : Text) (r : Result Bool × World S) {before rest : List Action}
      → r.1.log ≡ connect_socket path ∷ before
      → (and_then (removal path) o r).1.log ≡ unlink path ∷ rest
      → r.0 ≡ ok true
  unfolding removal pure
  removed path (ok true, w) e h = refl
  removed path (ok false, w) e h = cc
  removed path (err x, w) e h = cc

  remove_stale-Dead :
      (path : Text) (w : World S) {rest : List Action}
      → (remove_stale path o w).1.log ≡ unlink path ∷ rest
      → Dead (o (connect_socket path) w.log)
  unfolding remove_stale ◌>>=◌ ◌>>◌ try_except perform removal tried
  remove_stale-Dead path w h =
      let v = record w { log = connect_socket path ∷ w.log } in
      let r = o (connect_socket path) w.log in
      tried-Dead path r v (removed path (tried path r v) (tried_log path r v) h)

  -- Whether there is a socket at the path at all.
  found_socket :
      (path : Text) (r : Result Bool) (w : World S) {before rest : List Action}
      → w.log ≡ is_socket path ∷ before
      → (and_then (λ socket. if socket then remove_stale path else pure tt) o (r, w)).1.log
        ≡ unlink path ∷ rest
      → Dead (o (connect_socket path) w.log)
  unfolding pure
  found_socket path (ok true) w e h = remove_stale-Dead path w h
  found_socket path (ok false) w e h = cc
  found_socket path (err x) w e h = cc

  found_path :
      (path : Text) (r : Result Bool) (w : World S) {before rest : List Action}
      → w.log ≡ exists path ∷ before
      → (and_then
          (λ there.
            if there
            then (perform (is_socket path) >>= λ socket.
                if socket then remove_stale path else pure tt)
            else pure tt)
          o
          (r, w)).1.log
        ≡ unlink path ∷ rest
      → Dead (o (connect_socket path) (is_socket path ∷ w.log))
  unfolding ◌>>=◌ perform pure
  found_path path (ok true) w e h =
      found_socket path (o (is_socket path) w.log) (record w { log = is_socket path ∷ w.log }) refl
        h
  found_path path (ok false) w e h = cc
  found_path path (err x) w e h = cc

  -- If the cleanup ends with the removal of a path, a connection to it had just been refused, or
  -- had timed out, or the socket had vanished.
  pub cleanup_socket-Dead :
      (path : Text) (w : World S) (rest : List Action)
      → (cleanup_socket path o w).1.log ≡ unlink path ∷ rest
      → Dead (o (connect_socket path) (is_socket path ∷ exists path ∷ w.log))
  unfolding cleanup_socket ◌>>=◌ perform
  cleanup_socket-Dead path w rest h =
      found_path path (o (exists path) w.log) (record w { log = exists path ∷ w.log }) refl h

-- If the clock shows after so many pauses that the time is over, wait_for_path returns within one
-- round more, where testing a path does not raise; the clock may be set back before.
pub wait_for_path-Returns :
    {S : Type 0} (o : Outside) (rounds timeout interval : ℕ) (path : Text) (w : World S)
    → HasClock o
    → ((log : List Action) → (there : Bool) × (o (exists path) log ≡ ok there))
    → IsOver o rounds (exists path) timeout interval w.log
    → (found : Bool) × ((wait_for_path (suc rounds) path timeout interval o w).0 ≡ ok found)
unfolding wait_for_path perform
wait_for_path-Returns o rounds timeout interval path w h tested k =
    poll_for-Returns o rounds timeout interval (exists path) (perform (exists path)) w h
      (λ w. let (there, e) = tested w.log in (there, rw e refl)) k

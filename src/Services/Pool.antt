-- ===== src/Services/Pool.antt =====
-- app/services.py: `_ensure_storage_pool`.
use docker_vm_runner.Base.{ℕ, Text, text, Option, none, some, ◌++◌, int_is, Error, if◌then◌else◌}
use docker_vm_runner.Effects.{
  open_libvirt, close_libvirt, lookup_pool, define_pool, build_pool, pool_is_active, create_pool,
  pool_autostart, set_autostart, Done, Eff, pure, throw, ◌>>=◌, ◌>>◌, try_except, try_finally,
  perform, get,
}
use docker_vm_runner.Services.{Services, ensure_directory}

-- `except libvirt.libvirtError`, with the value to go on with.
abbrev pub on_libvirt_error : {S A : Type 0} → A → Error → Eff S A
on_libvirt_error value (Error.libvirt_error message) = pure value
on_libvirt_error value x = throw x

-- The description of a pool whose name and path have no line end.
abbrev pub pool_xml : Text → Text → Text
pool_xml name path =
    text "<pool type='dir'>\n  <name>"
    ++ (name
        ++ (text "</name>\n  <target>\n    <path>"
            ++ (path ++ text "</path>\n  </target>\n</pool>")))

-- The pool that was found, or a new one.
abbrev pub or_new_pool : ℕ → Services → Option ℕ → Eff Services ℕ
or_new_pool conn self (some pool) = pure pool
or_new_pool conn self none = do
  pool ← perform (define_pool conn (pool_xml self.storage_pool_name self.storage_pool_path))
  try_except (perform (build_pool pool)) (on_libvirt_error tt)
  pure pool

unfoldable pub activate_pool : ℕ → Eff Services Done
activate_pool pool = do
  active ← perform (pool_is_active pool)
  if int_is active 0 then perform (create_pool pool) else pure tt
  auto ← perform (pool_autostart pool)
  if int_is auto 0 then perform (set_autostart pool) else pure tt

unfoldable pub ensure_pool : ℕ → Eff Services Done
ensure_pool conn = do
  self ← get
  found ←
      try_except (perform (lookup_pool conn self.storage_pool_name) >>= λ pool. pure (some pool))
        (on_libvirt_error none)
  pool ← or_new_pool conn self found
  activate_pool pool

abbrev pub with_connection : Option ℕ → Eff Services Done
with_connection none = pure tt
with_connection (some conn) =
    try_finally (try_except (ensure_pool conn) (on_libvirt_error tt)) (perform (close_libvirt conn))

unfoldable pub ensure_storage_pool : Text → Eff Services Done
ensure_storage_pool uri = do
  self ← get
  ensure_directory self.storage_pool_path
  conn ← try_except (perform (open_libvirt uri)) (on_libvirt_error none)
  with_connection conn

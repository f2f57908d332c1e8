-- ===== src/Vm/Lifecycle.antt =====
-- app/vm.py: `connect`, `close`, `_define_domain`, `start` and the fallback of the network.
pub mod Cleanup
pub mod Duties
pub mod Laws
pub mod Kept
pub mod Running
pub mod Tests
use docker_vm_runner.Base.{
  ℕ, zero, suc, Text, text, lower, has_infix, starts_with, length, Bool, true, false, ◌||◌, Option,
  none, some, List, [], ◌∷◌, ◌-◌, Reason, Error, if◌then◌else◌, Result,
}
use docker_vm_runner.Models.{VmConfig}
use docker_vm_runner.Xml.{Element}
use docker_vm_runner.Effects.{
  open_libvirt, close_libvirt, lookup_domain, define_domain, is_active, create, undefine,
  undefine_nvram, domain_xml, Done, Eff, pure, throw, ◌>>=◌, ◌>>◌, try_except, perform, get, modify,
}
use docker_vm_runner.Services.Pool.{on_libvirt_error}
use docker_vm_runner.Services.Session.{start_novnc}
use docker_vm_runner.Vm.Machine.{Machine, Surroundings}
use docker_vm_runner.Vm.Domain.{render_domain_xml}
use docker_vm_runner.Vm.Manager.{Manager, on_services, from_result}

abbrev pub set_conn : Option ℕ → Manager → Manager
set_conn conn self = record self { conn = conn }

abbrev pub set_domain : Option ℕ → Manager → Manager
set_domain domain self = record self { domain = domain }

abbrev pub set_macs : List (ℕ × Text) → Manager → Manager
set_macs macs self = record self { machine = record self.machine { network_macs = macs } }

-- `if value is None: raise ManagerError`
abbrev pub required : {S A : Type 0} → Reason → Option A → Eff S A
required reason none = throw (Error.manager reason)
required reason (some a) = pure a

unfoldable pub connect : Text → Eff Manager Done
connect uri = do
  conn ← perform (open_libvirt uri)
  modify (set_conn conn)
  required Reason.no_connection conn >> pure tt

abbrev pub close_conn : Option ℕ → Eff Manager Done
close_conn none = pure tt
close_conn (some conn) = perform (close_libvirt conn) >> modify (set_conn none)

unfoldable pub close : Eff Manager Done
close = get >>= λ self. close_conn self.conn

unfoldable pub domain_exists : Eff Manager Bool
domain_exists = do
  self ← get
  conn ← required Reason.no_connection self.conn
  try_except (perform (lookup_domain conn self.machine.cfg.vm_name) >> pure true)
      (on_libvirt_error false)

-- What is read from the host, and how a document is written out.
module _ (host : Surroundings) (serialise : Element → Text) where
  unfoldable pub define_new : ℕ → Manager → Eff Manager Done
  define_new conn self = do
    rendered ← from_result (render_domain_xml self.machine host)
    modify (set_macs rendered.1)
    domain ← perform (define_domain conn (serialise rendered.0))
    modify (set_domain domain)
    required Reason.no_domain domain >> pure tt

  unfoldable pub define : Eff Manager Done
  define = do
    self ← get
    conn ← required Reason.no_connection self.conn
    there ← domain_exists
    if there
        then (do
          domain ← perform (lookup_domain conn self.machine.cfg.vm_name)
          modify (set_domain (some domain)))
        else define_new conn self

abbrev pub passt_backend : Text
passt_backend = text "<backend type=\"passt\"/>"

-- The number of characters that are still to be left out comes first.
without_from : ℕ → Text → Text → Text
without_from skipped part [] = []
without_from (suc skipped) part (c ∷ s) = without_from skipped part s
without_from zero part (c ∷ s) =
    let left_out = without_from (length part - 1) part s in
    let kept = c ∷ without_from zero part s in if starts_with (c ∷ s) part then left_out else kept

-- `s.replace(part, "")`, for a part that is not empty.
unfoldable pub without_part : Text → Text → Text
unfolding without_from
without_part part s = without_from zero part s

-- NVRAM domains need the NVRAM flag.
abbrev pub undefine_by : {S : Type 0} → Option Text → ℕ → Eff S Done
undefine_by none domain = perform (undefine domain)
undefine_by (some vars) domain = perform (undefine_nvram domain)

-- The machine that was defined anew is started.
abbrev pub create_new : Option ℕ → Eff Manager Bool
create_new none = pure false
create_new (some domain) = perform (create domain) >> pure true

unfoldable pub restart_without_passt : ℕ → ℕ → Manager → Eff Manager Bool
restart_without_passt conn domain self = do
  xml ← perform (domain_xml domain)
  if has_infix xml passt_backend
      then (do
        try_except (undefine_by self.machine.firmware_vars_path domain) (on_libvirt_error tt)
        fresh ← perform (define_domain conn (without_part passt_backend xml))
        modify (set_domain fresh)
        create_new fresh)
      else pure false

abbrev pub fallback_with : Option ℕ → Option ℕ → Manager → Eff Manager Bool
fallback_with (some conn) (some domain) self =
    try_except (restart_without_passt conn domain self) (on_libvirt_error false)
fallback_with _ _ self = pure false

unfoldable pub try_network_fallback : Eff Manager Bool
try_network_fallback = get >>= λ self. fallback_with self.conn self.domain self

-- An error of `create`, by its message.
abbrev pub is_cgroup_message : Text → Bool
is_cgroup_message message = has_infix (lower message) (text "cgroup")

abbrev pub is_network_message : Text → Bool
is_network_message message =
    has_infix (lower message) (text "passt") || has_infix (lower message) (text "backend")

abbrev pub on_create_error : Error → Eff Manager Done
on_create_error (Error.libvirt_error message) =
    if is_cgroup_message message
    then throw (Error.manager (Reason.cgroup_access message))
    else if is_network_message message
    then (do
      recovered ← try_network_fallback
      if recovered then pure tt else throw (Error.manager (Reason.start_failed message)))
    else throw (Error.manager (Reason.start_failed message))
on_create_error x = throw x

unfoldable pub ensure_running : ℕ → Eff Manager Done
ensure_running domain = do
  active ← perform (is_active domain)
  if active then pure tt else try_except (perform (create domain)) on_create_error

unfoldable pub novnc_if_enabled : Eff Manager Done
novnc_if_enabled = do
  self ← get
  if self.machine.cfg.novnc_enabled then on_services start_novnc else pure tt

unfoldable pub start : Eff Manager Done
start = do
  self ← get
  domain ← required Reason.no_domain self.domain
  ensure_running domain
  novnc_if_enabled

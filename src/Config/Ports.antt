-- ===== src/Config/Ports.antt =====
-- app/config.py: PORT_FWD, the ports in use, and the search for two services on one port.
pub mod Laws
pub mod Conflicts
pub mod Uses
use docker_vm_runner.Base.{
  ℕ, ℤ, to_nat, nat_le_int, int_le_nat, Text, text, strip, split_on, is_empty, Bool, true, false,
  ◌&&◌, ◌||◌, Option, none, some, List, [], ◌∷◌, ◌++◌, ◌==◌, nat_eq, text_eq, if◌then◌else◌, lookup,
  insert, show_nat, parse_int, Result, ok, raise, or_raise, guard, Reason, ◌>>=◌, ◌>>◌,
}
use docker_vm_runner.Base.Dict.{Dict}
use docker_vm_runner.Models.{PortForward}
use docker_vm_runner.Utils.Env.{Env, get_env}

-- `1 <= port <= 65535`
abbrev pub is_port : ℤ → Bool
is_port port = nat_le_int 1 port && int_le_nat port 65535

-- The two texts of an entry, in the order of the code's checks.
unfoldable pub forward_of : Text → Text → Text → Result PortForward
forward_of entry host guest = do
  host_port ← or_raise (parse_int host) (Reason.port_fwd_integers entry)
  guest_port ← or_raise (parse_int guest) (Reason.port_fwd_integers entry)
  guard (is_port host_port) (Reason.host_port_range entry)
  guard (is_port guest_port) (Reason.guest_port_range entry)
  ok (record { host_port = to_nat host_port; guest_port = to_nat guest_port })

-- `len(parts) != 2`
unfoldable pub forward_of_parts : Text → List Text → Result PortForward
forward_of_parts entry (host ∷ guest ∷ []) = forward_of entry host guest
forward_of_parts entry _ = raise (Reason.port_fwd_format entry)

-- Blank entries are passed over.
unfoldable pub forwards_of : List Text → Result (List PortForward)
forwards_of [] = ok []
forwards_of (item ∷ items) =
    let entry = strip item in
    let rest = forwards_of items in
    if is_empty entry
    then rest
    else (forward_of_parts entry (split_on b':' entry) >>= λ pf. rest >>= λ pfs. ok (pf ∷ pfs))

abbrev pub port_fwd_items : Option Text → List Text
port_fwd_items none = []
port_fwd_items (some raw) = if is_empty raw then [] else split_on b',' raw

unfoldable pub parse_port_forwards : Env → Result (List PortForward)
parse_port_forwards env = forwards_of (port_fwd_items (get_env env (text "PORT_FWD")))

-- `f"PORT_FWD({pf.host_port}:{pf.guest_port})"`
unfoldable pub forward_label : PortForward → Text
forward_label pf =
    text "PORT_FWD(" ++ (show_nat pf.host_port ++ (b':' ∷ (show_nat pf.guest_port ++ text ")")))

-- The dict takes the label as its key: an entry that is given twice counts once.
unfoldable pub add_forwards : List PortForward → Dict ℕ → Dict ℕ
add_forwards [] ports = ports
add_forwards (pf ∷ pfs) ports = add_forwards pfs (insert (forward_label pf) pf.host_port ports)

-- The services with a port of their own.
pub record Services : Type 0 where
  pub ssh_port : ℕ
  pub vnc_port : ℕ
  pub novnc_port : ℕ
  pub redfish_port : ℕ
  pub vnc : Bool
  pub novnc : Bool
  pub redfish : Bool

abbrev pub add_if : Bool → Text → ℕ → Dict ℕ → Dict ℕ
add_if b name port ports = if b then insert name port ports else ports

unfoldable pub active_ports : Services → List PortForward → Dict ℕ
active_ports sv pfs = add_forwards pfs (
    add_if sv.redfish (text "REDFISH_PORT") sv.redfish_port (
      add_if sv.novnc (text "NOVNC_PORT") sv.novnc_port (
        add_if (sv.vnc || sv.novnc) (text "VNC_PORT") sv.vnc_port
          ((text "SSH_PORT", sv.ssh_port) ∷ []))))

-- The loop over `active_ports.items()`; `seen` maps each port to its label.
unfoldable pub check_ports : List (ℕ × Text) → Dict ℕ → Result (Unit {0})
check_ports seen [] = ok tt
check_ports seen ((label, port) ∷ ports) = elim (lookup port seen) [
  | some other ↦ raise (Reason.port_conflict label other port)
  | none ↦ check_ports (insert port label seen) ports
]

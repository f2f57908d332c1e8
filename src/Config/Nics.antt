-- ===== src/Config/Nics.antt =====
-- app/config.py: `build_nic`, and the loop over the network interfaces.
pub mod Laws
pub mod Rounds
use docker_vm_runner.Base.{
  ℕ, zero, suc, ◌+◌, ℤ, pos, Text, text, lower, strip, is_empty, length, Bool, true, false, not,
  ◌&&◌, ◌||◌, Option, none, some, List, [], ◌∷◌, ◌++◌, contains, ◌==◌, nat_eq, text_eq,
  if◌then◌else◌, lookup, show_nat, parse_int, Result, ok, err, raise, or_raise, guard, Reason,
  Error, ◌>>=◌, ◌>>◌,
}
use docker_vm_runner.Base.Dict.{Dict}
use docker_vm_runner.Constants.{supported_network_models}
use docker_vm_runner.Models.{NicConfig}
use docker_vm_runner.Host.{Host}
use docker_vm_runner.Utils.Env.{Env, value_or}
use docker_vm_runner.Utils.Mac.{matches_mac, deterministic_mac}
use docker_vm_runner.Config.Choices.{is_truthy}
use docker_vm_runner.Config.Indexed.{get_env_indexed, indexed_name}

abbrev pub network_mode_map : Dict Text
network_mode_map =
    (text "nat", text "user") ∷ (text "bridge", text "bridge") ∷ (text "direct", text "direct") ∷ []

-- `raw is None or not raw.strip()`
abbrev pub is_blank : Option Text → Bool
is_blank none = true
is_blank (some raw) = is_empty (strip raw)

-- What is read for a mode; a blank one is "nat" for the first interface, and ends the list after.
abbrev pub mode_text : Option Text → Text
mode_text none = text "nat"
mode_text (some raw) = if is_empty (strip raw) then text "nat" else raw

module _ (env : Env) (index : ℕ) where
  unfoldable pub nic_mode : Result Text
  nic_mode =
      let raw = mode_text (get_env_indexed env (text "NETWORK_MODE") index) in
      or_raise (lookup (lower (strip raw)) network_mode_map)
        (Reason.unsupported (indexed_name (text "NETWORK_MODE") index) raw)

  -- A variable that the mode needs, stripped.
  needed : Text → Result (Option Text)
  needed name = elim (get_env_indexed env name index) [
    | none ↦ raise (Reason.required (indexed_name name index))
    | some raw ↦
        if is_empty raw
        then raise (Reason.required (indexed_name name index))
        else ok (some (strip raw))
  ]

  unfoldable pub nic_bridge : Text → Result (Option Text)
  unfolding needed
  nic_bridge mode = if mode == text "bridge" then needed (text "NETWORK_BRIDGE") else ok none

  unfoldable pub nic_direct : Text → Result (Option Text)
  unfolding needed
  nic_direct mode = if mode == text "direct" then needed (text "NETWORK_DIRECT_DEV") else ok none

  -- `mac_raw.strip().lower() if mac_raw else None`, the empty text for `None`
  abbrev mac_given : Option Text → Text
  mac_given none = []
  mac_given (some raw) = lower (strip raw)

  unfoldable pub nic_mac : Host → Text → Result Text
  nic_mac host vm_name =
      let raw = get_env_indexed env (text "NETWORK_MAC") index in
      let mac = mac_given raw in
      if is_empty mac
      then ok (deterministic_mac host.sha256 (vm_name ++ (b':' ∷ show_nat index)))
      else guard (matches_mac mac)
          (Reason.unsupported (indexed_name (text "NETWORK_MAC") index) (value_or raw []))
        >> ok mac

  abbrev model_given : Option Text → Text
  model_given none = text "virtio"
  model_given (some raw) = if is_empty raw then text "virtio" else lower (strip raw)

  unfoldable pub nic_model : Result Text
  nic_model =
      let raw = get_env_indexed env (text "NETWORK_MODEL") index in
      let model = model_given raw in
      guard (contains supported_network_models model)
        (Reason.unsupported (indexed_name (text "NETWORK_MODEL") index) (value_or raw []))
      >> ok model

  -- The MTU of the host is taken for the first interface, if it is not the usual one.
  unfoldable pub detected_mtu : Host → Option ℤ
  detected_mtu host =
      if index == 1 && not (host.host_mtu == 1500) then some (pos host.host_mtu) else none

  mtu_of : Host → Option Text → Result (Option ℤ)
  mtu_of host none = ok (detected_mtu host)
  mtu_of host (some raw) =
      if is_empty (strip raw)
      then ok (detected_mtu host)
      else (or_raise (parse_int (strip raw))
            (Reason.not_an_integer (indexed_name (text "NETWORK_MTU") index) raw)
          >>= λ mtu. ok (some mtu))

  unfoldable pub nic_mtu : Host → Result (Option ℤ)
  unfolding mtu_of
  nic_mtu host = mtu_of host (get_env_indexed env (text "NETWORK_MTU") index)

  unfoldable pub nic_boot : Bool
  nic_boot = elim (get_env_indexed env (text "NETWORK_BOOT") index) [
    | none ↦ false
    | some raw ↦ is_truthy raw
  ]

  -- The body of `build_nic`, for an interface that is configured.
  unfoldable pub configured_nic : Host → Text → Result NicConfig
  configured_nic host vm_name = do
    mode ← nic_mode
    bridge_name ← nic_bridge mode
    direct_device ← nic_direct mode
    mac ← nic_mac host vm_name
    model ← nic_model
    mtu ← nic_mtu host
    ok (record {
      mode = mode;
      bridge_name = bridge_name;
      direct_device = direct_device;
      mac_address = some mac;
      model = model;
      boot = nic_boot;
      mtu = mtu;
    })

  unfoldable pub is_absent : Bool
  is_absent = is_blank (get_env_indexed env (text "NETWORK_MODE") index) && not (index == 1)

  unfoldable pub build_nic : Host → Text → Result (Option NicConfig)
  build_nic host vm_name =
      if is_absent then ok none else (configured_nic host vm_name >>= λ nic. ok (some nic))

module _ (env : Env) (host : Host) (vm_name : Text) where
  -- `while True`, from an index on. Each round but the last finds a variable of its own.
  unfoldable pub collect_nics : ℕ → ℕ → Result (List NicConfig)
  collect_nics zero index = err Error.out_of_fuel
  collect_nics (suc fuel) index = elim (build_nic env index host vm_name) [
    | err e ↦ err e
    | ok none ↦ ok []
    | ok (some nic) ↦ (collect_nics fuel (index + 1) >>= λ rest. ok (nic ∷ rest))
  ]

  -- The primary interface and the others. A round for each variable of the environment, and one
  -- to find that none is left.
  unfoldable pub build_nics : Result (NicConfig × List NicConfig)
  build_nics = do
    found ← build_nic env 1 host vm_name
    primary ← or_raise found Reason.no_primary_nic
    rest ← collect_nics (suc (length env)) 2
    ok (primary, rest)

-- ===== src/Config/Nics/Laws.antt =====
-- What holds of every interface that the configuration is made of.
use docker_vm_runner.Base.{
  Text, text, values, true, contains, text_eq, nat_eq, Option, some, ◌≡◌, is_empty, false, strip,
}
use docker_vm_runner.Constants.{supported_network_models}
use docker_vm_runner.Models.{NicConfig}
use docker_vm_runner.Host.{Host}
use docker_vm_runner.Utils.Env.{Env}
use docker_vm_runner.Utils.Mac.{matches_mac}
use docker_vm_runner.Config.Nics.{network_mode_map}

-- A name that was given, without the white space around it: empty only if that was all.
abbrev pub IsGiven : Option Text → Type 0
IsGiven name = (raw : Text) × (is_empty raw ≡ false) × (name ≡ some (strip raw))

-- A known mode, the name that the mode needs as it was given, a well-formed address and a known model.
pub record IsNic (nic : NicConfig) : Type 0 where
  pub mode : contains (values network_mode_map) nic.mode ≡ true
  pub bridge : nic.mode ≡ text "bridge" → IsGiven nic.bridge_name
  pub direct : nic.mode ≡ text "direct" → IsGiven nic.direct_device
  pub mac : (m : Text) × (nic.mac_address ≡ some m) × (matches_mac m ≡ true)
  pub model : contains supported_network_models nic.model ≡ true

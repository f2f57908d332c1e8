-- ===== src/Services/Redfish.antt =====
-- app/services.py: the certificate, the files of the Redfish emulator, and its start.
use docker_vm_runner.Base.{
  ℕ, Text, text, show_nat, Bool, false, not, ◌&&◌, ◌||◌, has_char, ltb, List, [], ◌∷◌, ◌++◌, ◌==◌,
  nat_eq, ◌+◌, ◌-◌, ◌/◌, ◌%◌, if◌then◌else◌,
}
use docker_vm_runner.Effects.{
  exists, run_command, write_text, hash_password, Done, Eff, pure, ◌>>=◌, ◌>>◌, perform, get,
}
use docker_vm_runner.Services.{Services, spawn}

abbrev pub certificate : Services → Text
certificate self = self.cert_dir ++ text "/sushy.crt"

abbrev pub private_key : Services → Text
private_key self = self.cert_dir ++ text "/sushy.key"

abbrev pub openssl_command : Text → Text → List Text
openssl_command key crt =
    text "openssl"
    ∷ text "req"
    ∷ text "-x509"
    ∷ text "-nodes"
    ∷ text "-days"
    ∷ text "365"
    ∷ text "-newkey"
    ∷ text "rsa:2048"
    ∷ text "-keyout"
    ∷ key
    ∷ text "-out"
    ∷ crt
    ∷ text "-subj"
    ∷ text "/CN=docker-vm-runner/O=docker-vm-runner"
    ∷ []

-- `crt.exists() and key.exists()`
unfoldable pub has_certificate : Eff Services Bool
has_certificate = do
  self ← get
  crt ← perform (exists (certificate self))
  if crt then perform (exists (private_key self)) else pure false

unfoldable pub ensure_certificates : Eff Services Done
ensure_certificates = do
  there ← has_certificate
  self ← get
  if there
      then pure tt
      else perform (run_command (openssl_command (private_key self) (certificate self)))

unfoldable pub write_auth_file : Eff Services Text
write_auth_file = do
  self ← get
  hashed ← perform (hash_password self.vm_config.redfish_password)
  perform (
      write_text (self.config_dir ++ text "/htpasswd")
        (self.vm_config.redfish_user ++ (b':' ∷ hashed ++ (10 ∷ []))))
  pure (self.config_dir ++ text "/htpasswd")

abbrev hex_digit : ℕ → ℕ
hex_digit n = if ltb n 10 then b'0' + n else b'a' + (n - 10)

-- A character as `repr` writes it between quotes of the given kind; a character beyond ASCII is
-- taken to be printable.
unfoldable pub repr_char : ℕ → ℕ → Text
repr_char quote c =
    if c == quote || c == b'\\'
    then b'\\' ∷ c ∷ []
    else if c == 10
    then text "\\n"
    else if c == 13
    then text "\\r"
    else if c == 9
    then text "\\t"
    else if ltb c 32 || c == 127
    then text "\\x" ++ (hex_digit (c / 16) ∷ hex_digit (c % 16) ∷ [])
    else c ∷ []

abbrev pub repr_chars : ℕ → Text → Text
repr_chars quote [] = []
repr_chars quote (c ∷ s) = repr_char quote c ++ repr_chars quote s

abbrev quote_for : Text → ℕ
quote_for s = if has_char b'\'' s && not (has_char b'"' s) then b'"' else b'\''

-- `repr(s)`
unfoldable pub repr : Text → Text
repr s = quote_for s ∷ repr_chars (quote_for s) s ++ (quote_for s ∷ [])

abbrev pub config_lines : Text → ℕ → Text → Text → Text → Text
config_lines uri port cert key auth_file =
    text "SUSHY_EMULATOR_LIBVIRT_URI = "
    ++ (repr uri
        ++ (text "\nSUSHY_EMULATOR_LISTEN_IP = \"0.0.0.0\"\nSUSHY_EMULATOR_LISTEN_PORT = "
            ++ (show_nat port
                ++ (text "\nSUSHY_EMULATOR_SSL_CERT = "
                    ++ (repr cert
                        ++ (text "\nSUSHY_EMULATOR_SSL_KEY = "
                            ++ (repr key
                                ++ (text "\nSUSHY_EMULATOR_AUTH_FILE = "
                                    ++ (repr auth_file ++ (10 ∷ []))))))))))

unfoldable pub write_config : Text → Text → Text → Text → Eff Services Text
write_config uri cert key auth_file = do
  self ← get
  perform (
      write_text (self.config_dir ++ text "/sushy.conf")
        (config_lines uri self.vm_config.redfish_port cert key auth_file))
  pure (self.config_dir ++ text "/sushy.conf")

unfoldable pub start_sushy : Text → Eff Services Done
start_sushy uri = do
  ensure_certificates
  self ← get
  auth_file ← write_auth_file
  config_file ← write_config uri (certificate self) (private_key self) auth_file
  spawn (text "sushy-emulator" ∷ text "--config" ∷ config_file ∷ text "--libvirt-uri" ∷ uri ∷ [])
      >> pure tt

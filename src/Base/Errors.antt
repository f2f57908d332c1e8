-- ===== src/Base/Errors.antt =====
-- Exceptions as values (app/exceptions.py), and the two monads that the program's code runs in.
use Prim.Native.Nat.{ℕ}
use mathlib.Core.Path.{◌≡◌}
use mathlib.Core.Logic.{◌⊎◌, inl, inr}
use mathlib.Core.Bool.{Bool, true, false}
use mathlib.Core.Option.{Option, none, some}
use docker_vm_runner.Base.Chars.{Text}
use docker_vm_runner.Base.Int.{ℤ}

-- One constructor for each kind of message that a `ManagerError` is raised with. The texts are
-- the names and values that the message quotes.
pub data Reason : Type 0 where
  config_missing : Reason
  unknown_distro : Text → Reason
  not_an_integer : Text → Text → Reason
  too_small : Text → ℕ → ℤ → Reason
  too_large : Text → ℕ → ℤ → Reason
  -- A value outside of a fixed list of choices.
  unsupported : Text → Text → Reason
  -- A variable that another setting makes necessary.
  required : Text → Reason
  path_missing : Text → Reason
  wrong_file_type : Text → Reason
  unreadable : Text → Reason
  invalid_yaml : Text → Reason
  arch_mismatch : Text → Text → Reason
  distro_arch : Text → Reason
  no_target : Text → Reason
  missing_but_readonly : Text → Reason
  target_with_slash : Text → Reason
  virtiofs_access_mode : Text → Reason
  no_default_rom : Text → Text → Reason
  port_fwd_format : Text → Reason
  port_fwd_integers : Text → Reason
  host_port_range : Text → Reason
  guest_port_range : Text → Reason
  port_conflict : Text → Text → ℕ → Reason
  no_primary_nic : Reason
  novnc_without_vnc : Reason
  download_failed : Text → Reason
  no_firmware_assets : Reason
  kvm_required : Text → Reason
  unknown_boot_mode : Text → Reason
  no_domain : Reason
  no_connection : Reason
  cgroup_access : Text → Reason
  start_failed : Text → Reason
  exited_early : Text → ℤ → Reason
  no_socket : Text → Reason
  tool_missing : Text → Reason
  base_is_iso : Text → Reason

pub data Error : Type 0 where
  manager : Reason → Error
  value_error : Error
  key_error : Text → Error
  -- `OSError`, and its subclasses that the code tells apart.
  os_error : Error
  not_found_error : Error
  refused_error : Error
  timeout_error : Error
  -- `urllib.error.URLError`, with its subclass `HTTPError`.
  url_error : Error
  -- `subprocess.TimeoutExpired`, and a command that fails where `check` is on.
  timeout_expired : Error
  called_process_error : Error
  -- `libvirt.libvirtError`, with its message.
  libvirt_error : Text → Error
  -- `KeyboardInterrupt` and `SystemExit`, which `except Exception` does not catch.
  interrupted : Error
  -- Any other exception.
  other_error : Error
  -- No error of the program: a loop of the model used up its rounds.
  out_of_fuel : Error

pub data Result {ℓ} (A : Type ℓ) : Type ℓ where
  ok : A → Result A
  err : Error → Result A

abbrev pub raise {ℓ} : {A : Type ℓ} → Reason → Result A
raise r = err (manager r)

infixl 5 ◌>>=◌ ◌>>◌
abbrev pub ◌>>=◌ {ℓ κ} : {A : Type ℓ} {B : Type κ} → Result A → (A → Result B) → Result B
ok value >>= next = next value
err x >>= next = err x

abbrev pub ◌>>◌ {ℓ} : {B : Type ℓ} → Result (Unit {0}) → Result B → Result B
check >> rest = check >>= λ done. rest

-- `if not b: raise …`
abbrev pub guard : Bool → Reason → Result (Unit {0})
guard true r = ok tt
guard false r = raise r

-- `try: … except ValueError: raise …` around a conversion.
abbrev pub or_raise {ℓ} : {A : Type ℓ} → Option A → Reason → Result A
or_raise (some a) r = ok a
or_raise none r = raise r

-- What holds of every value that a computation returns.
abbrev pub Yields {ℓ κ} : {A : Type ℓ} → (A → Type κ) → Result A → Type (ℓ ⊔ κ)
Yields {A} P m = (a : A) → m ≡ ok a → P a

pub >>=-eq-ok {ℓ κ} :
    {A : Type ℓ} {B : Type κ} (run : Result A) (next : A → Result B) {b : B}
    → (run >>= next) ≡ ok b
    → (a : A) × (run ≡ ok a) × (next a ≡ ok b)
>>=-eq-ok (ok value) next h = (value, mathlib.Core.Path.refl, h)
>>=-eq-ok (err x) next h = cc

pub Result-cases {ℓ} :
    {A : Type ℓ} (m : Result A) → ((a : A) × (m ≡ ok a)) ⊎ ((x : Error) × (m ≡ err x))
Result-cases (ok a) = inl (a, mathlib.Core.Path.refl)
Result-cases (err x) = inr (x, mathlib.Core.Path.refl)

pub guard-eq-ok : (b : Bool) (r : Reason) → guard b r ≡ ok tt → b ≡ true
guard-eq-ok true r e = mathlib.Core.Path.refl
guard-eq-ok false r e = cc

abbrev value_of {ℓ} : {A : Type ℓ} → A → Result A → A
value_of d (ok a) = a
value_of d (err x) = d

pub ok-inj {ℓ} : {A : Type ℓ} {a b : A} → ok a ≡ ok b → a ≡ b
ok-inj {a} e = mathlib.Core.Path.ap (value_of a) e

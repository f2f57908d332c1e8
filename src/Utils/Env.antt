-- ===== src/Utils/Env.antt =====
-- app/utils.py: `get_env`, `get_env_bool`, `parse_int_env`. The environment is a dict of texts.
pub mod Laws
use docker_vm_runner.Base.{
  ℕ, ℤ, to_nat, nat_le_int, int_le_nat, Text, lower, Bool, true, false, Option, none, some,
  contains, text_eq, lookup, parse_int, Result, ok, err, raise, or_raise, Reason, ◌>>=◌, ◌>>◌,
  guard,
}
use docker_vm_runner.Base.Dict.{Dict}
use docker_vm_runner.Constants.{truthy}

abbrev pub Env : Type 0
Env = Dict Text

-- `os.environ.get(name)`
unfoldable pub get_env : Env → Text → Option Text
unfolding lookup
get_env env name = lookup name env

-- `os.environ.get(name, default)`
abbrev pub value_or : Option Text → Text → Text
value_or none default = default
value_or (some raw) default = raw

unfoldable pub get_env_or : Env → Text → Text → Text
get_env_or env name default = value_or (get_env env name) default

unfoldable pub get_env_bool : Env → Text → Bool → Bool
get_env_bool env name default = elim (get_env env name) [
  | none ↦ default
  | some raw ↦ contains truthy (lower raw)
]

-- `max_val is not None and value > max_val`
abbrev pub at_most : Option ℕ → ℤ → Text → Result (Unit {0})
at_most none value name = ok tt
at_most (some max_val) value name =
    guard (int_le_nat value max_val) (Reason.too_large name max_val value)

-- The minimum is at least 0 in every call, so the value returned is a natural number.
unfoldable pub check_int : Text → Text → ℕ → Option ℕ → Result ℕ
check_int name raw min_val max_val = do
  value ← or_raise (parse_int raw) (Reason.not_an_integer name raw)
  guard (nat_le_int min_val value) (Reason.too_small name min_val value)
  at_most max_val value name
  ok (to_nat value)

unfoldable pub parse_int_env : Env → Text → Text → ℕ → Option ℕ → Result ℕ
unfolding check_int
parse_int_env env name default min_val max_val =
    check_int name (get_env_or env name default) min_val max_val

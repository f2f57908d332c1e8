-- ===== src/Config/Indexed.antt =====
-- app/config.py: `get_env_indexed`. NETWORK_MODE, NETWORK2_MODE, NETWORK3_MODE, …
pub mod Laws
use docker_vm_runner.Base.{
  ℕ, Text, before, Option, List, [], ◌∷◌, ◌++◌, show_nat, ◌==◌, nat_eq, if◌then◌else◌,
}
use docker_vm_runner.Utils.Env.{Env, get_env}

-- `name.split("_", 1)`: the part behind the first underscore.
unfoldable pub behind : ℕ → Text → Text
behind d [] = []
behind d (c ∷ s) = let rest = behind d s in if c == d then s else rest

-- The index as a name shows it. The first one is not shown.
unfoldable pub suffix : ℕ → Text
suffix index = if index == 1 then [] else show_nat index

unfoldable pub indexed_name : Text → ℕ → Text
indexed_name name index =
    if index == 1 then name else before b'_' name ++ (show_nat index ++ (b'_' ∷ behind b'_' name))

unfoldable pub get_env_indexed : Env → Text → ℕ → Option Text
get_env_indexed env name index = get_env env (indexed_name name index)

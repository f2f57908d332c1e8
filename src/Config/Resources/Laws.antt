-- ===== src/Config/Resources/Laws.antt =====
-- The resources that are granted are never nothing.
use docker_vm_runner.Base.Chars.{lower, strip}
use docker_vm_runner.Base.{
  ℕ, false, list_beq, ◌≤◌, Text, text, none, some, [], ◌≡◌, refl, arith, parse_int, ok, raise,
  Reason,
}
use docker_vm_runner.Utils.Env.{Env, get_env, get_env_or, parse_int_env}
use docker_vm_runner.Utils.Env.Laws.{parse_int_env-eq-ok_iff}
use docker_vm_runner.Utils.Names.{or_text}
use docker_vm_runner.Utils.Size.Resources.{parse_resource_size-memory, parse_resource_size-cpus}
use docker_vm_runner.Host.{Host}
use docker_vm_runner.Config.Resources.{is_extreme, parse_memory, parse_cpus}

-- A number that `parse_int_env` returns keeps the lower bound.
parse_int_env-min :
    (env : Env) (name default : Text) (n : ℕ) → parse_int_env env name default 1 none ≡ ok n → 1 ≤ n
parse_int_env-min env name default n e = ((parse_int_env-eq-ok_iff env name default 1 none n).0 e).1

default_not_extreme : is_extreme (text "4096") ≡ false
unfolding text lower strip list_beq
default_not_extreme = refl

default_nonempty : or_text [] (text "4096") ≡ text "4096"
default_nonempty = refl

empty_not_int : parse_int [] ≡ none
unfolding parse_int
empty_not_int = refl

module _ (env : Env) (host : Host) where
  pub parse_memory-pos : (n : ℕ) → parse_memory env host ≡ ok n → 1 ≤ n
  unfolding parse_memory
  parse_memory-pos n e = ground (
    arith,
    parse_resource_size-memory
        (or_text (get_env_or env (text "MEMORY") (text "4096")) (text "4096")) host.capacity n,
    parse_int_env-min env (text "MEMORY") (text "4096") n,
  )

  pub parse_cpus-pos : 1 ≤ host.capacity.cpu_count → (n : ℕ) → parse_cpus env host ≡ ok n → 1 ≤ n
  unfolding parse_cpus
  parse_cpus-pos c n e = ground (
    arith,
    parse_resource_size-cpus (or_text (get_env_or env (text "CPUS") (text "2")) (text "2"))
        host.capacity n,
    parse_int_env-min env (text "CPUS") (text "2") n,
  )

  -- MEMORY set to the empty text: the default that the first reading puts in its place does not
  -- reach the second one, which raises.
  pub parse_memory_empty :
      get_env env (text "MEMORY") ≡ some []
      → parse_memory env host ≡ raise (Reason.not_an_integer (text "MEMORY") [])
  unfolding parse_memory get_env_or parse_int_env
  parse_memory_empty e = rw (e, default_not_extreme, empty_not_int)

-- ===== src/Utils/Env/Laws.antt =====
-- When `parse_int_env` returns, and what.
use docker_vm_runner.Base.{
  ℕ, pos, Text, ◌≤◌, ◌≡◌, refl, ◌↔◌, Option, none, some, parse_int, ok, arith, show_nat,
  parse_int-show_nat,
}
use docker_vm_runner.Utils.Env.{Env, get_env, get_env_or, check_int, parse_int_env}

-- No upper bound, or one that is kept.
abbrev pub IsAtMost : ℕ → Option ℕ → Type 0
IsAtMost n none = Unit
IsAtMost n (some m) = n ≤ m

check_int_sound :
    (name raw : Text) (lo : ℕ) (hi : Option ℕ) (n : ℕ)
    → check_int name raw lo hi ≡ ok n
    → (parse_int raw ≡ some (pos n)) × (lo ≤ n) × IsAtMost n hi
unfolding check_int
check_int_sound name raw lo none n e = ground arith
check_int_sound name raw lo (some hi) n e = ground arith

check_int_complete :
    (name raw : Text) (lo : ℕ) (hi : Option ℕ) (n : ℕ)
    → (parse_int raw ≡ some (pos n)) × (lo ≤ n) × IsAtMost n hi
    → check_int name raw lo hi ≡ ok n
unfolding check_int
check_int_complete name raw lo none n (e, p, q) = rw e (ground arith)
check_int_complete name raw lo (some hi) n (e, p, q) = rw e (ground arith)

-- `parse_int_env` returns n exactly when the variable's text, or the default where it is not set,
-- reads as n by `int` and n lies within the bounds.
pub parse_int_env-eq-ok_iff :
    (env : Env) (name default : Text) (lo : ℕ) (hi : Option ℕ) (n : ℕ)
    → (parse_int_env env name default lo hi ≡ ok n)
      ↔ ((parse_int (get_env_or env name default) ≡ some (pos n)) × (lo ≤ n) × IsAtMost n hi)
unfolding parse_int_env
parse_int_env-eq-ok_iff env name default lo hi n =
    (check_int_sound name _ lo hi n, check_int_complete name _ lo hi n)

-- A variable that holds a number in range is read as that number.
pub parse_int_env-show_nat :
    (env : Env) (name default : Text) (lo hi n : ℕ)
    → get_env env name ≡ some (show_nat n)
    → lo ≤ n
    → n ≤ hi
    → parse_int_env env name default lo (some hi) ≡ ok n
unfolding get_env_or
parse_int_env-show_nat env name default lo hi n e p q =
    (parse_int_env-eq-ok_iff env name default lo (some hi) n).1
      (rw (e, parse_int-show_nat n) refl, p, q)

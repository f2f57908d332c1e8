-- ===== src/Cli/Console.antt =====
-- app/cli.py: whether the console is attached.
use docker_vm_runner.Base.{
  Text, text, lower, strip, Bool, true, false, not, ◌&&◌, ◌||◌, Option, none, some, ◌==◌, text_eq,
}
use docker_vm_runner.Utils.Env.{Env, get_env, get_env_or, get_env_bool}

abbrev pub is_none : Option Text → Bool
is_none none = true
is_none (some t) = false

-- GRAPHICS=novnc stands for NO_CONSOLE, unless that is set.
unfoldable pub without_console : Bool → Env → Bool
without_console flag env =
    flag
    || get_env_bool env (text "NO_CONSOLE") false
    || (is_none (get_env env (text "NO_CONSOLE"))
        && lower (strip (get_env_or env (text "GRAPHICS") (text ""))) == text "novnc")

unfoldable pub console_requested : Bool → Env → Bool → Bool
console_requested flag env has_tty = not (without_console flag env) && has_tty

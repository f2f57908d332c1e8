-- ===== src/Config/Choices/Laws.antt =====
-- The values that pass are those of the lists, and the defaults pass.
use docker_vm_runner.Base.{
  Text, text, lower, strip, true, List, contains, ◌≡◌, ◌↔◌, arith, text_eq, eq_refl, ok,
}
use docker_vm_runner.Utils.Env.{Env}
use docker_vm_runner.Config.Choices.{
  env_text, one_of, choice, graphics_modes, Graphics, parse_graphics, check_graphics,
}

pub one_of_sound :
    (name : Text) (allowed : List Text) (value v : Text)
    → one_of name allowed value ≡ ok v
    → (v ≡ value) × (contains allowed v ≡ true)
one_of_sound name allowed value v e = ground arith

-- A choice returns what the variable says, stripped and in lower case, exactly if it is on the
-- list.
pub choice-eq-ok_iff :
    (env : Env) (name default : Text) (allowed : List Text) (v : Text)
    → (choice env name default allowed ≡ ok v)
      ↔ ((v ≡ lower (strip (env_text env name default))) × (contains allowed v ≡ true))
unfolding choice
choice-eq-ok_iff env name default allowed v = (one_of_sound name allowed _ v, λ (e, m). rw (← e, m))

-- The display that is read is on the list, and the check that follows, of noVNC against the
-- backend, never raises on it.
pub parse_graphics_sound :
    (env : Env) (g : Graphics)
    → parse_graphics env ≡ ok g
    → (contains graphics_modes g.display ≡ true) × (check_graphics g ≡ ok tt)
unfolding parse_graphics
parse_graphics_sound env g e = ground (arith, eq_refl (text "vnc"))

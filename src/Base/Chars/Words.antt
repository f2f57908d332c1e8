-- ===== src/Base/Chars/Words.antt =====
-- `str.split` without an argument.
use mathlib.Core.List.{List, [], ◌∷◌, reverse}
use docker_vm_runner.Base.Tests.{if◌then◌else◌}
use docker_vm_runner.Base.Lists.{is_empty}
use docker_vm_runner.Base.Chars.{Text, is_space}

-- The words of a text; the letters of the one that is being read are kept backwards.
words_from : Text → Text → List Text
words_from read [] = if is_empty read then [] else reverse read ∷ []
words_from read (c ∷ s) =
    let inside = words_from (c ∷ read) s in
    let outside = words_from [] s in
    if is_space c then (if is_empty read then outside else reverse read ∷ outside) else inside

-- `s.split()`
unfoldable pub words : Text → List Text
unfolding words_from
words s = words_from [] s

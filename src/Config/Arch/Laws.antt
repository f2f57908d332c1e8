-- ===== src/Config/Arch/Laws.antt =====
-- The architecture that results is supported, and is the one asked for.
use docker_vm_runner.Base.{Text, text, true, Option, none, some, ◌≡◌, arith, ok, text_eq}
use docker_vm_runner.Utils.Env.{Env, get_env}
use docker_vm_runner.Config.Arch.{is_supported, arch_of, parse_arch, truthy_text}

arch_of_sound :
    (distro : Text) (declared given : Option Text) (arch : Text)
    → arch_of distro declared given ≡ ok arch
    → is_supported arch ≡ true
unfolding arch_of
arch_of_sound distro none given arch e = ground arith
arch_of_sound distro (some a) none arch e = ground arith
arch_of_sound distro (some a) (some g) arch e = ground arith

-- The architecture is a key of SUPPORTED_ARCHES.
pub parse_arch-supported :
    (env : Env) (distro : Text) (declared : Option Text) (arch : Text)
    → parse_arch env distro declared ≡ ok arch
    → is_supported arch ≡ true
unfolding parse_arch
parse_arch-supported env distro declared arch e =
    arch_of_sound distro (truthy_text declared) (get_env env (text "ARCH")) arch e

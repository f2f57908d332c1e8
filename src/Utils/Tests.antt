-- ===== src/Utils/Tests.antt =====
-- The theorems about app/utils.py at concrete inputs.
use docker_vm_runner.Base.{
  ℕ, ◌+◌, ◌*◌, ◌/◌, ◌≤◌, ◌≡◌, refl, ◌≢◌, sym, ap, ◌↔◌, ◌⊎◌, inl, arith, Text, text, list_beq,
  is_alpha, upper_char, is_empty, Bool, true, false, not, Option, none, some, List, [], ◌∷◌, ◌++◌,
  pos, Result, ok, err, Error, show_nat, parse_int, IsDigit, lookup, strip, strip_class, drop_while,
  is_space, ◌<◌, ◌∙◌, nat_eq, if◌then◌else◌, ◌%◌, All,
}
use docker_vm_runner.Utils.Env.{Env, get_env, get_env_or, parse_int_env}
use docker_vm_runner.Utils.Env.Laws.{IsAtMost, parse_int_env-eq-ok_iff, parse_int_env-show_nat}
use docker_vm_runner.Utils.Names.{sanitize_mount_target}
use docker_vm_runner.Utils.Names.Laws.{
  IsMountName, sanitize_mount_target-IsMountName, sanitize_mount_target-eq_self_iff,
}
use docker_vm_runner.Utils.Size.{
  validate_disk_size, parse_size_to_bytes, parse_resource_size, memory, cpus, Capacity,
}
use docker_vm_runner.Utils.Size.Laws.{
  IsUnit, parse_size_to_bytes-total, parse_size_to_bytes-show_nat,
}
use docker_vm_runner.Utils.Size.LineEnd.{parse_size_to_bytes_line_end}
use docker_vm_runner.Utils.Size.Resources.{mebibytes, parse_resource_size-memory}
use docker_vm_runner.Utils.Mac.{random_mac, deterministic_mac, matches_mac}
use docker_vm_runner.Utils.Mac.Laws.{
  random_mac-matches, deterministic_mac-matches, deterministic_mac_collides,
}
use docker_vm_runner.Effects.{
  read_chunk, append_chunk, Outside, Done, World, Eff, pure, ◌>>=◌, ◌>>◌, try_except, perform,
}
use docker_vm_runner.Effects.Sample.{calm}
use docker_vm_runner.Utils.Download.{
  copy_chunks, fill, download_file, attempts, download_file_with_retry,
}
use docker_vm_runner.Utils.Download.Placed.{Moved, download_file_with_retry_places}
use docker_vm_runner.Utils.Download.Attempts.{opens, download_file_with_retry_bound}

abbrev ssh_env : Env
ssh_env = (text "SSH_PORT", text "2222") ∷ (text "GUEST_NAME", text " ") ∷ []

abbrev shown_env : Env
shown_env = (text "SSH_PORT", show_nat 2222) ∷ []

parse_int_env-eq-ok_iff_example :
    (parse_int_env ssh_env (text "SSH_PORT") (text "22") 1 (some 65535) ≡ ok 2222) ↔ (
      (parse_int (get_env_or ssh_env (text "SSH_PORT") (text "22")) ≡ some (pos 2222))
      × (1 ≤ 2222)
      × IsAtMost 2222 (some 65535))
parse_int_env-eq-ok_iff_example =
    parse_int_env-eq-ok_iff ssh_env (text "SSH_PORT") (text "22") 1 (some 65535) 2222

ssh_set : get_env shown_env (text "SSH_PORT") ≡ some (show_nat 2222)
unfolding get_env lookup text list_beq
ssh_set = refl

parse_int_env-show_nat_example :
    parse_int_env shown_env (text "SSH_PORT") (text "22") 1 (some 65535) ≡ ok 2222
parse_int_env-show_nat_example =
    parse_int_env-show_nat shown_env (text "SSH_PORT") (text "22") 1 65535 2222 ssh_set
      (omega arith) (omega arith)

sanitize_mount_target-IsMountName_example : IsMountName (sanitize_mount_target (text "my share!"))
sanitize_mount_target-IsMountName_example = sanitize_mount_target-IsMountName (text "my share!")

sanitize_mount_target-eq_self_iff_example :
    (sanitize_mount_target (text "data.1") ≡ text "data.1") ↔ IsMountName (text "data.1")
sanitize_mount_target-eq_self_iff_example = sanitize_mount_target-eq_self_iff (text "data.1")

abbrev named_env : Env
named_env = (text "GUEST_NAME", text "box") ∷ []

distro_nonempty : is_empty (text "debian-12") ≡ false
unfolding text
distro_nonempty = refl

box_nonempty : is_empty (strip (text "box")) ≡ false
unfolding text strip strip_class drop_while is_space
box_nonempty = refl

guest_box : (g : Text) → get_env named_env (text "GUEST_NAME") ≡ some g → is_empty (strip g) ≡ false
unfolding get_env lookup text list_beq
guest_box g e = ground (arith, box_nonempty)

size_valid : validate_disk_size (text "20G") ≡ ok (text "20G")
unfolding validate_disk_size text
size_valid = refl

last_of : ℕ → Text → ℕ
last_of d [] = d
last_of d (c ∷ s) = last_of c s

last_of-append : (d c : ℕ) (s : Text) → last_of d (s ++ (c ∷ [])) ≡ c
unfolding last_of
last_of-append d c [] = refl
last_of-append d c (e ∷ s) = last_of-append e c s

no_line_end : (s : Text) → text "20G" ≢ s ++ (10 ∷ [])
unfolding text last_of
no_line_end s e =
    let same : 71 ≡ 10 = ap (last_of 0) e ∙ last_of-append 0 10 s in absurd (omega (arith, same))

parse_size_to_bytes-total_example : (n : ℕ) × (parse_size_to_bytes (text "20G") ≡ ok (pos n))
parse_size_to_bytes-total_example = parse_size_to_bytes-total (text "20G") size_valid no_line_end

parse_size_to_bytes-show_nat_example :
    parse_size_to_bytes (show_nat 20 ++ (71 ∷ [])) ≡ ok (pos (20 * 1073741824))
parse_size_to_bytes-show_nat_example =
    parse_size_to_bytes-show_nat 20 71 1073741824 (IsUnit.gibi 71 (inl refl))

parse_size_to_bytes_line_end_example :
    (validate_disk_size (50 ∷ 48 ∷ [] ++ (71 ∷ 10 ∷ [])) ≡ ok (50 ∷ 48 ∷ [] ++ (71 ∷ 10 ∷ [])))
    × (parse_size_to_bytes (50 ∷ 48 ∷ [] ++ (71 ∷ 10 ∷ [])) ≡ err Error.value_error)
unfolding upper_char
parse_size_to_bytes_line_end_example =
    parse_size_to_bytes_line_end 50 (48 ∷ []) 71 (refl, (refl, tt)) refl

abbrev eight : Capacity
eight = record { available_memory = 8589934592; cpu_count = 8 }

abbrev half : ℕ
half = 4096

half_memory : parse_resource_size (text "half") memory eight ≡ ok 4096
unfolding parse_resource_size text list_beq strip strip_class drop_while is_space
    docker_vm_runner.Base.lower
half_memory = refl

half_cpus : parse_resource_size (text "half") cpus eight ≡ ok 4
unfolding parse_resource_size text list_beq strip strip_class drop_while is_space
    docker_vm_runner.Base.lower
half_cpus = refl

parse_resource_size-memory_example : (512 ≤ half) × ((half ≡ 512) ⊎ (half + 512 ≤ mebibytes eight))
parse_resource_size-memory_example = parse_resource_size-memory (text "half") eight 4096 half_memory

random_mac-matches_example : matches_mac (random_mac 1 2 127) ≡ true
random_mac-matches_example = random_mac-matches 1 2 127 (omega arith) (omega arith) (omega arith)

-- A digest that tells texts apart by their first character.
abbrev digest : Text → ℕ → ℕ
digest [] i = i % 256
digest (c ∷ s) i = if nat_eq.equal i 0 then c % 256 else i % 256

digest-bytes : (s : Text) (i : ℕ) → digest s i < 256
digest-bytes [] i = omega arith
digest-bytes (c ∷ s) i = ground arith

deterministic_mac-matches_example : matches_mac (deterministic_mac digest (97 ∷ [])) ≡ true
deterministic_mac-matches_example = deterministic_mac-matches digest digest-bytes (97 ∷ [])

deterministic_mac_collides_example :
    deterministic_mac digest (97 ∷ []) ≡ deterministic_mac digest (98 ∷ [])
deterministic_mac_collides_example =
    deterministic_mac_collides digest digest-bytes (97 ∷ []) (98 ∷ []) refl refl refl

-- A download into a file, with at most three attempts.
abbrev quiet_world : World Done
quiet_world = record { self = tt; log = [] }

abbrev three_attempts : Eff Done Done
three_attempts = download_file_with_retry 4 (text "http://host/a.img") (text "/images/a.img") 3

-- A body of one chunk with five bytes.
abbrev served : Outside
served read_chunk (append_chunk temp size ∷ log) = ok 0
served read_chunk log = ok 5
served a log = calm a log

three_attempts_return : (three_attempts served quiet_world).0 ≡ ok tt
unfolding download_file_with_retry attempts download_file fill copy_chunks ◌>>=◌ ◌>>◌ pure perform
    try_except
three_attempts_return = refl

download_file_with_retry_places_example :
    (temp : Text) × Moved served
      (text "http://host/a.img")
      (text "/images/a.img")
      temp
      (three_attempts served quiet_world).1.log
download_file_with_retry_places_example =
    download_file_with_retry_places Done 4 (text "http://host/a.img") (text "/images/a.img") 2
      served quiet_world three_attempts_return

download_file_with_retry_bound_example : opens (three_attempts calm quiet_world).1.log ≤ 0 + 3
download_file_with_retry_bound_example =
    download_file_with_retry_bound Done 4 (text "http://host/a.img") (text "/images/a.img") 3 calm
      quiet_world

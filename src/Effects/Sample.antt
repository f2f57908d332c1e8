-- ===== src/Effects/Sample.antt =====
-- An outside for the tests: every call succeeds, every path exists, no process ends by itself, and
-- the clock goes on while the program sleeps.
use docker_vm_runner.Base.{
  ℕ, ◌+◌, ◌≤◌, arith, text, true, none, some, List, [], ◌∷◌, ◌++◌, pos, length, ok,
}
use docker_vm_runner.Effects.{
  Action, exists, open_url, make_temp, read_chunk, file_size, free_space, query, capture, is_socket,
  on_path, popen, poll, pgrep, now, sleep, hash_password, open_libvirt, lookup_domain,
  define_domain, is_active, domain_xml, lookup_pool, define_pool, pool_is_active, pool_autostart,
  Outside,
}

abbrev pause_of : Action → ℕ
pause_of (sleep t) = t
pause_of _ = 0

abbrev pub time_of : List Action → ℕ
time_of [] = 0
time_of (a ∷ log) = pause_of a + time_of log

-- Processes are numbered by the calls before their start.
abbrev pub calm : Outside
calm (exists p) log = ok true
calm (is_socket p) log = ok true
calm (on_path p) log = ok true
calm (open_url url) log = ok none
calm (make_temp p) log = ok (text "/tmp/x")
calm read_chunk log = ok 0
calm (file_size p) log = ok 1000000000
calm (free_space p) log = ok 1000000000000
calm (query command) log = ok (text "ext4")
calm (capture command) log = ok (pos 0, text "1000")
calm (popen command) log = ok (length log)
calm (poll p) log = ok none
calm pgrep log = ok (pos 0, text "12\n34\n")
calm now log = ok (time_of log)
calm (hash_password t) log = ok t
calm (open_libvirt uri) log = ok (some 1)
calm (lookup_domain c name) log = ok 2
calm (define_domain c xml) log = ok (some 2)
calm (is_active d) log = ok true
calm (domain_xml d) log = ok (text "<domain/>")
calm (lookup_pool c name) log = ok 3
calm (define_pool c xml) log = ok 3
calm (pool_is_active p) log = ok (pos 1)
calm (pool_autostart p) log = ok (pos 1)
calm _ log = ok tt

pub time_grows : (between log : List Action) → time_of log ≤ time_of (between ++ log)
time_grows [] log = omega arith
time_grows (a ∷ between) log = omega (arith, time_grows between log)

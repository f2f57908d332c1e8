-- ===== src/Effects.antt =====
-- Code that acts on the outside: the calls that app/services.py, app/vm.py and app/cli.py make of
-- the operating system, of libvirt and of bcrypt, and the programs that make them. What a call
-- gives is a parameter, and may depend on all the calls before it. Times are in milliseconds.
pub mod Calls
pub mod Keep
pub mod Outcomes
pub mod Polling
pub mod Raise
pub mod Sample
use docker_vm_runner.Base.{ℕ, Text, ℤ, Bool, Option, List, [], ◌∷◌, Result, ok, err, Error}

-- Processes, connections, domains and storage pools are numbered by the outside.
pub data Action : Type 0 where
  -- Files.
  make_directory unlink remove_tree : Text → Action
  exists is_socket : Text → Action
  copy_file : Text → Text → Action
  -- `stat().st_size`, and the free bytes of `os.statvfs`.
  file_size free_space : Text → Action
  write_text : Text → Text → Action
  -- `shutil.which(name) is not None`
  on_path : Text → Action
  -- A connection to a Unix socket within 0.2 seconds, closed at once.
  connect_socket : Text → Action
  -- Downloads: the address is opened, with the text of Content-Length; a temporary file is made
  -- beside a path; a chunk is read, with its length, and appended; a file is moved.
  open_url make_temp : Text → Action
  read_chunk : Action
  append_chunk : Text → ℕ → Action
  move_file : Text → Text → Action
  -- Processes; `wait_process` is `wait(timeout=5)`, `pgrep` gives the exit status and the output.
  run_command popen : List Text → Action
  -- `subprocess.run` with the output captured: `query` with `check`, `capture` without.
  query capture : List Text → Action
  poll communicate terminate wait_process kill : ℕ → Action
  pgrep : Action
  kill_pid : ℤ → Action
  -- Time.
  now : Action
  sleep : ℕ → Action
  -- `bcrypt.hashpw` with a new salt.
  hash_password : Text → Action
  -- libvirt.
  open_libvirt : Text → Action
  close_libvirt : ℕ → Action
  lookup_domain define_domain : ℕ → Text → Action
  is_active create destroy undefine undefine_nvram domain_xml : ℕ → Action
  lookup_pool define_pool : ℕ → Text → Action
  build_pool pool_is_active create_pool pool_autostart set_autostart : ℕ → Action
  -- What app/cli.py prints, by its name.
  show : Text → Action

-- The value of a call that returns nothing.
abbrev pub Done : Type 0
Done = Unit

-- What a call gives if it does not raise; `none` is Python's `None`.
abbrev pub Reply : Action → Type 0
Reply (exists p) = Bool
Reply (is_socket p) = Bool
Reply (file_size p) = ℕ
Reply (open_url url) = Option Text
Reply (make_temp p) = Text
Reply read_chunk = ℕ
Reply (free_space p) = ℕ
Reply (query command) = Text
Reply (capture command) = ℤ × Text
Reply (on_path p) = Bool
Reply (popen command) = ℕ
Reply (poll p) = Option ℤ
Reply pgrep = ℤ × Text
Reply now = ℕ
Reply (hash_password t) = Text
Reply (open_libvirt uri) = Option ℕ
Reply (lookup_domain c name) = ℕ
Reply (define_domain c xml) = Option ℕ
Reply (is_active d) = Bool
Reply (domain_xml d) = Text
Reply (lookup_pool c name) = ℕ
Reply (define_pool c xml) = ℕ
Reply (pool_is_active p) = ℤ
Reply (pool_autostart p) = ℤ
Reply _ = Done

-- The outcome of a call, after the calls of the list, the latest first.
abbrev pub Outside : Type 0
Outside = (a : Action) → List Action → Result (Reply a)

-- The attributes of the object at work, and the calls that were made, the latest first.
pub record World (S : Type 0) : Type 0 where
  pub self : S
  pub log : List Action

abbrev pub Eff : Type 0 → Type 0 → Type 0
Eff S A = Outside → World S → Result A × World S

module _ {S A : Type 0} where
  unfoldable pub pure : A → Eff S A
  pure a o w = (ok a, w)

  unfoldable pub throw : Error → Eff S A
  throw x o w = (err x, w)

  abbrev pub and_then :
      {B : Type 0} → (A → Eff S B) → Outside → Result A × World S → Result B × World S
  and_then next o (ok a, w) = next a o w
  and_then next o (err x, w) = (err x, w)

  infixl 5 ◌>>=◌ ◌>>◌
  unfoldable pub ◌>>=◌ : {B : Type 0} → Eff S A → (A → Eff S B) → Eff S B
  (run >>= next) o w = and_then next o (run o w)

  unfoldable pub ◌>>◌ : {B : Type 0} → Eff S A → Eff S B → Eff S B
  unfolding ◌>>=◌
  run >> rest = run >>= λ done. rest

  abbrev pub or_else : (Error → Eff S A) → Outside → Result A × World S → Result A × World S
  or_else handler o (ok a, w) = (ok a, w)
  or_else handler o (err x, w) = handler x o w

  -- `try: … except: …`; a handler raises the errors again that it does not name.
  unfoldable pub try_except : Eff S A → (Error → Eff S A) → Eff S A
  try_except run handler o w = or_else handler o (run o w)

  abbrev pub then_result : Result A → Result Done × World S → Result A × World S
  then_result m (ok done, w) = (m, w)
  then_result m (err x, w) = (err x, w)

  abbrev pub after : Eff S Done → Outside → Result A × World S → Result A × World S
  after last o (m, w) = then_result m (last o w)

  -- `try: … finally: …`: an error of the last part takes the place of the outcome.
  unfoldable pub try_finally : Eff S A → Eff S Done → Eff S A
  try_finally run last o w = after last o (run o w)

module _ {S : Type 0} where
  unfoldable pub perform : (a : Action) → Eff S (Reply a)
  perform a o w = (o a w.log, record w { log = a ∷ w.log })

  unfoldable pub get : Eff S S
  get o w = (ok w.self, w)

  unfoldable pub modify : (S → S) → Eff S Done
  modify change o w = (ok tt, record w { self = change w.self })

  -- `for item in items: …`
  unfoldable pub for_each : {B : Type 0} → List B → (B → Eff S Done) → Eff S Done
  unfolding pure ◌>>=◌
  for_each [] body = pure tt
  for_each (b ∷ bs) body = body b >>= λ done. for_each bs body

-- The methods of an object that is an attribute of another one.
module _ {S T : Type 0} where
  abbrev pub put_back : {A : Type 0} → (T → S → S) → S → Result A × World T → Result A × World S
  put_back put self (m, w) = (m, record { self = put w.self self; log = w.log })

  unfoldable pub within : {A : Type 0} → (S → T) → (T → S → S) → Eff T A → Eff S A
  within part put run o w = put_back put w.self (run o (record { self = part w.self; log = w.log }))

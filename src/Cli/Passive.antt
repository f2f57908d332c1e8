-- ===== src/Cli/Passive.antt =====
-- The modes that print: beside what is read for them they do nothing but print, and look whether a
-- file is there.
use docker_vm_runner.Base.{
  Text, Bool, true, false, ◌||◌, Option, none, some, [], All, ◌≡◌, Result, ok, err, Error, ℤ, pos,
  if◌then◌else◌,
}
use docker_vm_runner.Models.{VmConfig}
use docker_vm_runner.Utils.Names.{is_url}
use docker_vm_runner.Effects.{
  Action, show, exists, Done, Outside, World, Eff, pure, ◌>>=◌, ◌>>◌, try_except, perform,
}
use docker_vm_runner.Effects.Keep.{
  Keeps, Keeps-pure, Keeps-throw, Keeps->>=, Keeps->>, Keeps-try_except, Keeps-if,
}
use docker_vm_runner.Vm.Manager.{from_result}
use docker_vm_runner.Cli.{
  Arguments, Readings, check_boot_source, dry_run, show_xml, no_config, run_mode, with_config,
  list_or_run, main,
}
use docker_vm_runner.Cli.Session.{Phases}
use docker_vm_runner.Cli.Preview.{preview_xml}
use docker_vm_runner.Cli.Launch.{Setup}

pub data IsPassive : Action → Type 0 where
  printed : (what : Text) → IsPassive (show what)
  looked_at : (path : Text) → IsPassive (exists path)

-- A call of the kinds of `P`, which the readings may make, or a passive one.
pub data IsAllowed (P : Action → Type 0) (a : Action) : Type 0 where
  read : P a → IsAllowed P a
  passive : IsPassive a → IsAllowed P a

module _ (P : Action → Type 0) where
  abbrev OnlyAllowed : Outside → World Done → Type 0
  OnlyAllowed o w = All (IsAllowed P) w.log

  Quiet : {A : Type 0} → Eff Done A → Type 0
  Quiet run = Keeps OnlyAllowed run

  -- The readings make no other calls than those of `P`.
  pub record ReadsOnly (readings : Readings) : Type 0 where
    pub parsing : Keeps OnlyAllowed readings.parse_env
    pub kvm : Keeps OnlyAllowed readings.kvm_available
    pub runtime : Keeps OnlyAllowed readings.detect_runtime
    pub host : (cfg : VmConfig) → Keeps OnlyAllowed (readings.surroundings cfg)

  show-Quiet : (what : Text) → Keeps OnlyAllowed (perform (show what))
  unfolding Keeps perform
  show-Quiet what o w h = (passive (printed what), h)

  exists-Quiet : (path : Text) → Keeps OnlyAllowed (perform (exists path))
  unfolding Keeps perform
  exists-Quiet path o w h = (passive (looked_at path), h)

  from_result-Quiet : {A : Type 0} (r : Result A) → Keeps OnlyAllowed (from_result r)
  from_result-Quiet (ok a) = Keeps-pure OnlyAllowed a
  from_result-Quiet (err x) = Keeps-throw OnlyAllowed _ x

  shows : (what : Text) → Keeps OnlyAllowed (perform (show what) >> pure (pos 0))
  shows what = Keeps->> OnlyAllowed _ _ (show-Quiet what) (Keeps-pure OnlyAllowed (pos 0))

  check-Quiet : (source : Option Text) → Keeps OnlyAllowed (check_boot_source source)
  unfolding Keeps
  check-Quiet none = Keeps-pure OnlyAllowed tt
  check-Quiet (some source) = Keeps-if OnlyAllowed (is_url source) _ _ (Keeps-pure OnlyAllowed tt) (
      Keeps->> OnlyAllowed _ _ (exists-Quiet source)
        (Keeps->> OnlyAllowed _ _ (exists-Quiet source) (Keeps-pure OnlyAllowed tt)))

  -- Three options of which one is given, and a last resort.
  options-Quiet :
      (a b c : Bool) (x y z last : Eff Done ℤ)
      → (a || b || c) ≡ true
      → Keeps OnlyAllowed x
      → Keeps OnlyAllowed y
      → Keeps OnlyAllowed z
      → Keeps OnlyAllowed (if a then x else if b then y else if c then z else last)
  options-Quiet true b c x y z last h k l m = k
  options-Quiet false true c x y z last h k l m = l
  options-Quiet false false true x y z last h k l m = m
  options-Quiet false false false x y z last h k l m = cc

  module _ (readings : Readings) (h : ReadsOnly readings) where
    dry_run-Quiet : (cfg : VmConfig) → Keeps OnlyAllowed (dry_run readings cfg)
    unfolding dry_run
    dry_run-Quiet cfg = Keeps->>= OnlyAllowed _ _ h.runtime (λ runtime.
        Keeps->> OnlyAllowed _ _ (show-Quiet _) (
          Keeps->>= OnlyAllowed _ _ h.kvm
            (λ kvm. Keeps->> OnlyAllowed _ _ (check-Quiet cfg.boot_from) (shows _))))

    show_xml-Quiet : (cfg : VmConfig) → Keeps OnlyAllowed (show_xml readings cfg)
    unfolding show_xml
    show_xml-Quiet cfg = Keeps->>= OnlyAllowed _ _ h.kvm (λ kvm.
        Keeps->>= OnlyAllowed _ _ (h.host cfg) (λ host.
          Keeps->>= OnlyAllowed _ _ (from_result-Quiet (preview_xml host kvm cfg))
            (λ xml. shows _)))

    parsed-Quiet :
        Keeps OnlyAllowed (try_except (readings.parse_env >>= λ cfg. pure (some cfg)) no_config)
    parsed-Quiet =
        Keeps-try_except OnlyAllowed _ _
          (Keeps->>= OnlyAllowed _ _ h.parsing (λ cfg. Keeps-pure OnlyAllowed (some cfg))) failed
      where
        failed : (x : Error) → Keeps OnlyAllowed (no_config x)
        failed (Error.manager reason) = Keeps-pure OnlyAllowed none
        failed x = Keeps-throw OnlyAllowed _ x

    module _ (phases : Phases) (setup : Setup) (has_tty : Bool) (args : Arguments) where
      run_mode-Quiet :
          (cfg : VmConfig)
          → (args.show_config || args.show_xml || args.dry_run) ≡ true
          → Keeps OnlyAllowed (run_mode readings phases setup has_tty args cfg)
      unfolding run_mode
      run_mode-Quiet cfg e =
          options-Quiet args.show_config args.show_xml args.dry_run _ _ _ _ e (shows _)
            (show_xml-Quiet cfg) (dry_run-Quiet cfg)

      with_config-Quiet :
          (parsed : Option VmConfig)
          → (args.show_config || args.show_xml || args.dry_run) ≡ true
          → Keeps OnlyAllowed (with_config readings phases setup has_tty args parsed)
      with_config-Quiet (some cfg) e = run_mode-Quiet cfg e
      with_config-Quiet none e = Keeps-pure OnlyAllowed (pos 1)

      by_list :
          (list : Option Text)
          → (args.show_config || args.show_xml || args.dry_run) ≡ true
          → Keeps OnlyAllowed (list_or_run readings phases setup has_tty args list)
      unfolding list_or_run
      by_list none e = Keeps->>= OnlyAllowed _ _ parsed-Quiet (λ parsed. with_config-Quiet parsed e)
      by_list (some arch) e = shows _

      -- With --show-config, --show-xml or --dry-run, `main` makes no calls but to print, to ask
      -- whether a path exists, and those that `parse_env`, the look for KVM and the readings of the
      -- runtime and of the host make: nothing is started, defined or removed.
      pub main-IsPassive :
          (o : Outside)
          → (args.show_config || args.show_xml || args.dry_run) ≡ true
          → All
              (IsAllowed P)
              (main readings phases setup has_tty args o (record { self = tt; log = [] })).1.log
      unfolding main Keeps
      main-IsPassive o e = by_list args.list_distros e o (record { self = tt; log = [] }) tt

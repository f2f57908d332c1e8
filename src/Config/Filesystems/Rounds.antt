-- ===== src/Config/Filesystems/Rounds.antt =====
-- The loop over the shares ends: it runs for as many rounds as the environment has variables.
use docker_vm_runner.Base.{
  ℕ, zero, suc, ◌+◌, ◌≤◌, ◌<◌, Text, text, before, length, keys, Bool, true, false, contains,
  text_eq, ◌==◌, nat_eq, nat_beq_iff, Option, none, some, List, [], ◌∷◌, ◌++◌, ◌≡◌, refl, sym, ap,
  ◌∙◌, ◌≢◌, inl, inr, arith, Result, ok, err, Error, Bool-cases, Option-cases, show_nat,
  show_nat_inj, show_nat-IsDigit, IsDigit, All, All-append,
}
use docker_vm_runner.Base.Chars.Split.{IsPart}
use docker_vm_runner.Models.{FilesystemConfig}
use docker_vm_runner.Host.{FileSystem, Host}
use docker_vm_runner.Utils.Env.{Env, get_env}
use docker_vm_runner.Config.Indexed.{behind, suffix, indexed_name, get_env_indexed}
use docker_vm_runner.Config.Indexed.Laws.{
  show_nat-ne-nil, remove, length-remove, contains-remove, get_env-contains, length-keys,
}
use docker_vm_runner.Config.Nics.{is_blank}
use docker_vm_runner.Config.Nics.Rounds.{Proper, Proper-bind, bind-out}
use mathlib.Core.Path.{subst}
use docker_vm_runner.Config.Filesystems.{
  share_variables, has_value, readonly_of, ShareVariables, and_source, and_target, with_texts,
  share_source, share_target, share_options, ensure_source, must_be_dir, configured_share,
  unless_done, and_shares, collect_shares, build_shares,
}
use mathlib.Core.List.{append_cancel_left, append-nil, append_assoc}

-- What stands before the first underscore.
before-append : (d : ℕ) (s t : Text) → IsPart d s → before d (s ++ (d ∷ t)) ≡ s
unfolding before
before-append d [] t h = ground arith
before-append d (c ∷ s) t (e, h) = rw (e, before-append d s t h)

digits-IsPart : (s : Text) → All IsDigit s → IsPart b'_' s
digits-IsPart [] h = tt
digits-IsPart (c ∷ s) (d, h) = (ground arith, digits-IsPart s h)

suffix-IsPart : (i : ℕ) → IsPart b'_' (suffix i)
unfolding suffix
suffix-IsPart i = elim (Bool-cases (i == 1)) [
  | inl e ↦ rw e tt
  | inr e ↦ rw e (digits-IsPart (show_nat i) (show_nat-IsDigit i))
]

suffix_inj : (i j : ℕ) → suffix i ≡ suffix j → i ≡ j
unfolding suffix
suffix_inj i j e = ground (arith, show_nat_inj i j, show_nat-ne-nil i, show_nat-ne-nil j)

-- The variable of an index, up to the underscore.
abbrev HasStem : ℕ → Text → Type 0
HasStem i key = before b'_' key ≡ text "FILESYSTEM" ++ suffix i

present : (o : Option Text) → is_blank o ≡ false → (v : Text) × (o ≡ some v)
present none h = cc
present (some v) h = (v, refl)

filesystem-IsPart : IsPart b'_' (text "FILESYSTEM")
unfolding text
filesystem-IsPart =
    (refl, (refl, (refl, (refl, (refl, (refl, (refl, (refl, (refl, (refl, tt))))))))))

truthy_given : (o : Option Text) → readonly_of o ≡ true → (v : Text) × (o ≡ some v)
truthy_given none h = cc
truthy_given (some v) h = (v, refl)

opened :
    (env : Env) (name : Text) (i : ℕ) {v : Text}
    → get_env_indexed env name i ≡ some v
    → get_env env (indexed_name name i) ≡ some v
unfolding get_env_indexed
opened env name i e = e

-- Among the keys there is one for the index.
abbrev IsGiven : List Text → ℕ → Type 0
IsGiven ks i = (key : Text) × (contains ks key ≡ true) × HasStem i key

distinct_stems :
    (n i : ℕ) (ks : List Text) → ((j : ℕ) → i ≤ j → j < i + n → IsGiven ks j) → n ≤ length ks
distinct_stems zero i ks h = omega arith
distinct_stems (suc n) i ks h =
    let (key, here, stem) = h i (omega arith) (omega arith) in
    let rest = distinct_stems n (i + 1) (remove key ks) (λ j p q.
      let (other, there, stem2) = h j (omega arith) (omega arith) in
      (
        other,
        contains-remove key other ks there (λ e.
            let same : i ≡ j = suffix_inj i j (
              append_cancel_left (text "FILESYSTEM") _ _
                (sym stem ∙ ap (before b'_') (sym e) ∙ stem2)) in
            omega (arith, same)),
        stem2,
      )) in
    omega (arith, length-remove key ks here)

module _ (name : Text) (same : before b'_' name ≡ text "FILESYSTEM") where
  indexed_name-HasStem : (i : ℕ) → HasStem i (indexed_name name i)
  unfolding indexed_name suffix
  indexed_name-HasStem i = elim (Bool-cases (i == 1)) [
    | inl e ↦ rw e (same ∙ sym (append-nil (text "FILESYSTEM")))
    | inr e ↦
        rw (e, same)
          (ap (before b'_')
              (sym (append_assoc (text "FILESYSTEM") (show_nat i) (b'_' ∷ behind b'_' name)))
            ∙ before-append b'_' (text "FILESYSTEM" ++ show_nat i) (behind b'_' name) (
                All-append _ (text "FILESYSTEM") (show_nat i) filesystem-IsPart
                  (digits-IsPart (show_nat i) (show_nat-IsDigit i))))
  ]

  get_env_indexed-IsGiven :
      (env : Env) (i : ℕ) → is_blank (get_env_indexed env name i) ≡ false → IsGiven (keys env) i
  unfolding get_env_indexed
  get_env_indexed-IsGiven env i h =
      let (v, e) = present (get_env env (indexed_name name i)) h in
      (indexed_name name i, get_env-contains env (indexed_name name i) e, indexed_name-HasStem i)

record Stems : Type 0 where
  source : before b'_' (text "FILESYSTEM_SOURCE") ≡ text "FILESYSTEM"
  target : before b'_' (text "FILESYSTEM_TARGET") ≡ text "FILESYSTEM"
  driver : before b'_' (text "FILESYSTEM_DRIVER") ≡ text "FILESYSTEM"
  access : before b'_' (text "FILESYSTEM_ACCESSMODE") ≡ text "FILESYSTEM"
  readonly : before b'_' (text "FILESYSTEM_READONLY") ≡ text "FILESYSTEM"

stems : Stems
unfolding before text
stems = record { source = refl; target = refl; driver = refl; access = refl; readonly = refl }

-- A share is only read at an index that a variable is set for.
has_value-IsGiven :
    (env : Env) (i : ℕ) → has_value (share_variables env i) ≡ true → IsGiven (keys env) i
unfolding has_value share_variables
has_value-IsGiven env i h =
    elim (Bool-cases (is_blank (get_env_indexed env (text "FILESYSTEM_SOURCE") i))) [
      | inr e ↦ get_env_indexed-IsGiven (text "FILESYSTEM_SOURCE") stems.source env i e
      | inl a ↦ elim (Bool-cases (is_blank (get_env_indexed env (text "FILESYSTEM_TARGET") i))) [
        | inr e ↦ get_env_indexed-IsGiven (text "FILESYSTEM_TARGET") stems.target env i e
        | inl b ↦ elim (Bool-cases (is_blank (get_env_indexed env (text "FILESYSTEM_DRIVER") i))) [
          | inr e ↦ get_env_indexed-IsGiven (text "FILESYSTEM_DRIVER") stems.driver env i e
          | inl c ↦
              elim (Bool-cases (is_blank (get_env_indexed env (text "FILESYSTEM_ACCESSMODE") i))) [
                | inr e ↦
                    get_env_indexed-IsGiven (text "FILESYSTEM_ACCESSMODE") stems.access env i e
                | inl d ↦
                    let on : readonly_of (get_env_indexed env (text "FILESYSTEM_READONLY") i)
                        ≡ true =
                      rw (a, b, c, d) at h in
                    let (v, e) =
                      truthy_given (get_env_indexed env (text "FILESYSTEM_READONLY") i) on in
                    (
                      indexed_name (text "FILESYSTEM_READONLY") i,
                      get_env-contains env (indexed_name (text "FILESYSTEM_READONLY") i)
                          (opened env (text "FILESYSTEM_READONLY") i e),
                      indexed_name-HasStem (text "FILESYSTEM_READONLY") stems.readonly i,
                    )
              ]
        ]
      ]
    ]

module _ (F : FileSystem) (host : Host) where
  share_source-Proper : (o : Option Text) (name : Text) → Proper (share_source o name)
  unfolding share_source
  share_source-Proper o name = ground arith

  share_target-Proper :
      (source : Text) (o : Option Text) (name : Text) → Proper (share_target source o name)
  unfolding share_target
  share_target-Proper source o name = ground arith

  share_options-Proper :
      (path target driver mode : Text) (b : Bool) → Proper (share_options path target driver mode b)
  unfolding share_options
  share_options-Proper path target driver mode b = ground arith

  ensure_source-Proper :
      (s : F.State) (path : Text) (b : Bool) → Proper (ensure_source F host s path b).0
  unfolding ensure_source must_be_dir
  ensure_source-Proper s path b = elim (Option-cases (F.make_dirs s path)) [
    | inl e ↦ ground (arith, e)
    | inr (t, e) ↦ ground (arith, e)
  ]

  with_texts-Proper :
      (s : F.State) (v : ShareVariables) (source target : Text)
      → Proper (with_texts F host s v source target).0
  unfolding with_texts
  with_texts-Proper s v source target =
      Proper-bind (ensure_source F host s (host.expanduser source) (readonly_of v.readonly)).0 _
        (ensure_source-Proper s (host.expanduser source) (readonly_of v.readonly))
        (λ u. share_options-Proper _ _ _ _ _)

  and_target-Proper :
      (s : F.State) (v : ShareVariables) (source : Text) (target : Result Text)
      → Proper target
      → Proper (and_target F host s v source target).0
  unfolding and_target
  and_target-Proper s v source (err e) p = λ q. p (cc q)
  and_target-Proper s v source (ok target) p = with_texts-Proper s v source target

  and_source-Proper :
      (s : F.State) (v : ShareVariables) (i : ℕ) (source : Result Text)
      → Proper source
      → Proper (and_source F host s v i source).0
  unfolding and_source
  and_source-Proper s v i (err e) p = λ q. p (cc q)
  and_source-Proper s v i (ok source) p =
      and_target-Proper s v source _ (share_target-Proper source v.target _)

  configured_share-Proper :
      (s : F.State) (v : ShareVariables) (i : ℕ) → Proper (configured_share F host s v i).0
  unfolding configured_share
  configured_share-Proper s v i = and_source-Proper s v i _ (share_source-Proper v.source _)

  -- Out of rounds: the share of this round was read, and the rounds behind it were not enough.
  unless_done-out :
      (b : Bool) (s : F.State) (out : Result FilesystemConfig × F.State)
      (next : F.State → Result (List FilesystemConfig) × F.State)
      → Proper out.0
      → (unless_done F host b s out next).0 ≡ err Error.out_of_fuel
      → (b ≡ true) × ((next out.1).0 ≡ err Error.out_of_fuel)
  unfolding unless_done and_shares
  unless_done-out false s out next p e = cc
  unless_done-out true s (err x, t) next p e = absurd (p (cc e))
  unless_done-out true s (ok share, t) next p e =
      (refl, bind-out (next t).0 (λ shares. share ∷ shares) e)

  module _ (env : Env) where
    collect_shares-IsGiven :
        (fuel i j : ℕ) (s : F.State)
        → i ≤ j
        → j < i + fuel
        → (collect_shares F host env fuel i s).0 ≡ err Error.out_of_fuel
        → IsGiven (keys env) j
    unfolding collect_shares
    collect_shares-IsGiven zero i j s p q e = absurd (omega arith)
    collect_shares-IsGiven (suc fuel) i j s p q e =
        let made = configured_share F host s (share_variables env i) i in
        let (on, out) =
          unless_done-out _ s made (collect_shares F host env fuel (i + 1))
            (configured_share-Proper s (share_variables env i) i) e in
        elim (Bool-cases (i == j)) [
          | inl same ↦
              subst (IsGiven (keys env)) ((nat_beq_iff i j).0 same) (has_value-IsGiven env i on)
          | inr other ↦
              collect_shares-IsGiven fuel (i + 1) j made.1 (ground arith) (omega arith) out
        ]

    -- Reading the shares never runs out of rounds, whatever the environment and the file system.
    pub build_shares-ends : (s : F.State) → (build_shares F host env s).0 ≢ err Error.out_of_fuel
    unfolding build_shares
    build_shares-ends s e =
        let all_given =
          distinct_stems (suc (length env)) 1 (keys env)
            (λ j p q. collect_shares-IsGiven (suc (length env)) 1 j s p q e) in
        absurd (omega (arith, all_given, length-keys env))

-- ===== src/Config/Filesystems/Laws.antt =====
-- What the shares of a configuration are, and what reading them leaves of the file system.
use mathlib.Core.Path.{subst}
use docker_vm_runner.Base.{
  ℕ, zero, suc, ◌+◌, Text, text, has_char, length, Bool, true, false, not, ◌&&◌, List, ◌∷◌,
  contains, ◌==◌, text_eq, list_beq_iff, All, ◌≡◌, refl, arith, inl, inr, Result, ok, err, Error,
  Reason, guard, guard-eq-ok, >>=-eq-ok, ok-inj, Option-cases,
}
use docker_vm_runner.Models.{FilesystemConfig}
use docker_vm_runner.Host.{FileSystem, IsLawful, Host}
use docker_vm_runner.Utils.Env.{Env}
use docker_vm_runner.Config.Choices.{one_of}
use docker_vm_runner.Config.Filesystems.{
  access_modes, share_drivers, share_options, ShareVariables, readonly_of, must_be_dir,
  ensure_source, with_texts, and_target, and_source, configured_share, and_shares, unless_done,
  collect_shares, build_shares,
}

-- The options of a share: a tag without a slash, a known driver and a known access mode, and
-- for virtiofs the one mode that it has.
pub record IsShare (fs : FilesystemConfig) : Type 0 where
  pub target : has_char b'/' fs.target ≡ false
  pub driver : contains share_drivers fs.driver ≡ true
  pub access_mode : contains access_modes fs.accessmode ≡ true
  pub virtiofs : fs.driver ≡ text "virtiofs" → fs.accessmode ≡ text "passthrough"

one_of_sound :
    (name : Text) (allowed : List Text) (raw v : Text)
    → one_of name allowed raw ≡ ok v
    → contains allowed v ≡ true
one_of_sound name allowed raw v e = ground arith

virtiofs_mode :
    (drv mode : Text)
    → not (drv == text "virtiofs" && not (mode == text "passthrough")) ≡ true
    → drv ≡ text "virtiofs"
    → mode ≡ text "passthrough"
virtiofs_mode drv mode h e =
    ground (arith, list_beq_iff drv (text "virtiofs"), list_beq_iff mode (text "passthrough"))

share_options-IsShare :
    (path target driver mode : Text) (readonly : Bool) (fs : FilesystemConfig)
    → share_options path target driver mode readonly ≡ ok fs
    → IsShare fs × (fs.source ≡ path)
unfolding share_options
share_options-IsShare path target driver mode readonly fs e =
    let (u, e1, r1) =
      >>=-eq-ok (guard (not (has_char b'/' target)) (Reason.target_with_slash target)) _ e in
    let (drv, e2, r2) = >>=-eq-ok (one_of (text "FILESYSTEM_DRIVER") share_drivers driver) _ r1 in
    let (m, e3, r3) = >>=-eq-ok (one_of (text "FILESYSTEM_ACCESSMODE") access_modes mode) _ r2 in
    let (v, e4, r4) =
      >>=-eq-ok
        (guard (not (drv == text "virtiofs" && not (m == text "passthrough")))
          (Reason.virtiofs_access_mode m))
        _ r3 in
    subst (λ t. IsShare t × (t.source ≡ path)) (ok-inj r4)
      (
        record {
          target =
              let free : not (has_char b'/' target) ≡ true = guard-eq-ok _ _ e1 in
              ground (arith, free);
          driver = one_of_sound _ _ driver drv e2;
          access_mode = one_of_sound _ _ mode m e3;
          virtiofs = virtiofs_mode drv m (guard-eq-ok _ _ e4);
        },
        refl,
      )

module _ (F : FileSystem) (L : IsLawful F) (host : Host) where
  -- What was a directory still is one.
  abbrev Keeps : F.State → F.State → Type 0
  Keeps s t = (q : Text) → F.is_dir s q ≡ true → F.is_dir t q ≡ true

  -- A share whose source is a directory.
  abbrev pub IsMounted : F.State → FilesystemConfig → Type 0
  IsMounted t fs = IsShare fs × (F.is_dir t fs.source ≡ true)

  ensure_source-Keeps :
      (s : F.State) (path : Text) (readonly : Bool)
      → Keeps s (ensure_source F host s path readonly).1
  unfolding ensure_source
  ensure_source-Keeps s path readonly q h = elim (Option-cases (F.make_dirs s path)) [
    | inl e ↦ ground (arith, e)
    | inr (t, e) ↦ let stays = L.dir_stays s t path q e h in ground (arith, e, stays)
  ]

  ensure_source-is_dir :
      (s : F.State) (path : Text) (readonly : Bool)
      → (ensure_source F host s path readonly).0 ≡ ok tt
      → F.is_dir (ensure_source F host s path readonly).1 path ≡ true
  unfolding ensure_source must_be_dir
  ensure_source-is_dir s path readonly e = ground arith

  -- What was a directory still is one, and a share that is made is mounted.
  record IsMaking (s : F.State) (out : Result FilesystemConfig × F.State) : Type 0 where
    pub keeps : Keeps s out.1
    pub mounted : (fs : FilesystemConfig) → out.0 ≡ ok fs → IsMounted out.1 fs

  failed-IsMaking : (s : F.State) (e : Error) → IsMaking s (err e, s)
  failed-IsMaking s e = record { keeps = λ q h. h; mounted = λ fs q. absurd (cc) }

  with_texts-IsMaking :
      (s : F.State) (v : ShareVariables) (source target : Text)
      → IsMaking s (with_texts F host s v source target)
  unfolding with_texts
  with_texts-IsMaking s v source target =
      let path = host.expanduser source in
      let readonly = readonly_of v.readonly in
      record {
        keeps = ensure_source-Keeps s path readonly;
        mounted = λ fs e.
            let (u, e1, r1) = >>=-eq-ok (ensure_source F host s path readonly).0 _ e in
            let (good, same) = share_options-IsShare path _ _ _ _ fs r1 in
            (good, rw same (ensure_source-is_dir s path readonly e1));
      }

  and_target-IsMaking :
      (s : F.State) (v : ShareVariables) (source : Text) (target : Result Text)
      → IsMaking s (and_target F host s v source target)
  unfolding and_target
  and_target-IsMaking s v source (err e) = failed-IsMaking s e
  and_target-IsMaking s v source (ok target) = with_texts-IsMaking s v source target

  and_source-IsMaking :
      (s : F.State) (v : ShareVariables) (index : ℕ) (source : Result Text)
      → IsMaking s (and_source F host s v index source)
  unfolding and_source
  and_source-IsMaking s v index (err e) = failed-IsMaking s e
  and_source-IsMaking s v index (ok source) = and_target-IsMaking s v source _

  configured_share-IsMaking :
      (s : F.State) (v : ShareVariables) (index : ℕ)
      → IsMaking s (configured_share F host s v index)
  unfolding configured_share
  configured_share-IsMaking s v index = and_source-IsMaking s v index _

  -- The same of a run of the loop: the shares that it returns are all mounted.
  pub record IsMakingAll (s : F.State) (out : Result (List FilesystemConfig) × F.State)
      : Type 0 where
    pub keeps : Keeps s out.1
    pub mounted :
        (shares : List FilesystemConfig) → out.0 ≡ ok shares → All (IsMounted out.1) shares

  and_shares-IsMakingAll :
      (s : F.State) (out : Result FilesystemConfig × F.State)
      (next : F.State → Result (List FilesystemConfig) × F.State)
      → IsMaking s out
      → ((t : F.State) → IsMakingAll t (next t))
      → IsMakingAll s (and_shares F host out next)
  unfolding and_shares
  and_shares-IsMakingAll s (err e, t) next m h = record {
    keeps = m.keeps;
    mounted = λ shares q. absurd (cc);
  }
  and_shares-IsMakingAll s (ok share, t) next m h = record {
    keeps = λ q k. (h t).keeps q (m.keeps q k);
    mounted = λ shares e.
        let (rest, e1, r1) = >>=-eq-ok (next t).0 (λ rest. ok (share ∷ rest)) e in
        let (good, dir) = m.mounted share refl in
        subst (All (IsMounted (next t).1)) (ok-inj r1)
          ((good, (h t).keeps share.source dir), (h t).mounted rest e1);
  }

  unless_done-IsMakingAll :
      (b : Bool) (s : F.State) (out : Result FilesystemConfig × F.State)
      (next : F.State → Result (List FilesystemConfig) × F.State)
      → IsMaking s out
      → ((t : F.State) → IsMakingAll t (next t))
      → IsMakingAll s (unless_done F host b s out next)
  unfolding unless_done
  unless_done-IsMakingAll false s out next m h = record {
    keeps = λ q k. k;
    mounted = λ shares e. subst (All (IsMounted s)) (ok-inj e) tt;
  }
  unless_done-IsMakingAll true s out next m h = and_shares-IsMakingAll s out next m h

  module _ (env : Env) where
    collect_shares-IsMakingAll :
        (fuel index : ℕ) (s : F.State) → IsMakingAll s (collect_shares F host env fuel index s)
    unfolding collect_shares
    collect_shares-IsMakingAll zero index s = record {
      keeps = λ q k. k;
      mounted = λ shares e. absurd (cc);
    }
    collect_shares-IsMakingAll (suc fuel) index s =
        unless_done-IsMakingAll _ s _ _ (configured_share-IsMaking s _ index)
          (collect_shares-IsMakingAll fuel (index + 1))

    -- On a lawful file system, reading the shares removes no directory; if it succeeds, every share has sound options, and
    -- its source is a directory in the state that the reading leaves.
    pub build_shares-IsMakingAll : (s : F.State) → IsMakingAll s (build_shares F host env s)
    unfolding build_shares
    build_shares-IsMakingAll s = collect_shares-IsMakingAll (suc (length env)) 1 s

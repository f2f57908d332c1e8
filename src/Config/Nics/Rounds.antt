-- ===== src/Config/Nics/Rounds.antt =====
-- The loop over the interfaces ends: it runs for as many rounds as the environment has variables.
use mathlib.Core.Path.{subst}
use docker_vm_runner.Base.{
  ℕ, zero, suc, ◌+◌, ◌≤◌, ◌<◌, Text, text, has_char, length, keys, true, contains, text_eq, ◌==◌,
  nat_eq, Option, none, some, ◌∷◌, ◌≡◌, refl, ◌≢◌, inl, inr, arith, Result, ok, err, Error, Reason,
  ◌>>=◌, Result-cases, Bool-cases, Option-cases, or_raise, nat_beq_iff,
}
use docker_vm_runner.Models.{NicConfig}
use docker_vm_runner.Host.{Host}
use docker_vm_runner.Utils.Env.{Env, get_env}
use docker_vm_runner.Config.Indexed.{get_env_indexed, indexed_name}
use docker_vm_runner.Config.Indexed.Laws.{get_env-contains, indices-le-length}
use docker_vm_runner.Config.Nics.{
  needed, nic_mode, nic_bridge, nic_direct, nic_mac, nic_model, nic_mtu, configured_nic, is_absent,
  build_nic, collect_nics, build_nics,
}

-- An error of the program, or none.
abbrev pub Proper {ℓ} : {A : Type ℓ} → Result A → Type ℓ
Proper m = m ≢ err Error.out_of_fuel

pub Proper-bind {ℓ κ} :
    {A : Type ℓ} {B : Type κ} (m : Result A) (f : A → Result B)
    → Proper m
    → ((a : A) → Proper (f a))
    → Proper (m >>= f)
Proper-bind (ok a) f h k = k a
Proper-bind (err e) f h k = λ q. h (cc)

module _ (env : Env) (index : ℕ) where
  nic_mode-Proper : Proper (nic_mode env index)
  unfolding nic_mode
  nic_mode-Proper = ground arith

  needed-Proper : (name : Text) → Proper (needed env index name)
  unfolding needed
  needed-Proper name = ground arith

  nic_bridge-Proper : (mode : Text) → Proper (nic_bridge env index mode)
  unfolding nic_bridge
  nic_bridge-Proper mode = ground arith

  nic_direct-Proper : (mode : Text) → Proper (nic_direct env index mode)
  unfolding nic_direct
  nic_direct-Proper mode = ground arith

  nic_model-Proper : Proper (nic_model env index)
  unfolding nic_model
  nic_model-Proper = ground arith

  module _ (host : Host) (vm_name : Text) where
    nic_mac-Proper : Proper (nic_mac env index host vm_name)
    unfolding nic_mac
    nic_mac-Proper = ground arith

    nic_mtu-Proper : Proper (nic_mtu env index host)
    unfolding nic_mtu
    nic_mtu-Proper = ground arith

    configured_nic-Proper : Proper (configured_nic env index host vm_name)
    unfolding configured_nic
    configured_nic-Proper = Proper-bind (nic_mode env index) _ nic_mode-Proper λ mode.
        Proper-bind (nic_bridge env index mode) _ (nic_bridge-Proper mode) λ bridge.
          Proper-bind (nic_direct env index mode) _ (nic_direct-Proper mode) λ direct.
            Proper-bind (nic_mac env index host vm_name) _ nic_mac-Proper λ mac.
              Proper-bind (nic_model env index) _ nic_model-Proper
                λ model. Proper-bind (nic_mtu env index host) _ nic_mtu-Proper λ mtu. λ e. cc

    build_nic-Proper : Proper (build_nic env index host vm_name)
    unfolding build_nic
    build_nic-Proper = ground (arith, configured_nic-Proper)

    -- An interface other than the first one has a variable of its own.
    build_nic-present :
        (nic : NicConfig)
        → index ≢ 1
        → build_nic env index host vm_name ≡ ok (some nic)
        → contains (keys env) (indexed_name (text "NETWORK_MODE") index) ≡ true
    unfolding build_nic is_absent get_env_indexed
    build_nic-present nic h e =
        elim (Option-cases (get_env env (indexed_name (text "NETWORK_MODE") index))) [
          | inl q ↦ absurd (ground (arith, q))
          | inr (v, q) ↦ get_env-contains env _ q
        ]

pub bind-out {ℓ κ} :
    {A : Type ℓ} {B : Type κ} (m : Result A) (f : A → B)
    → (m >>= λ a. ok (f a)) ≡ err Error.out_of_fuel
    → m ≡ err Error.out_of_fuel
bind-out (ok a) f e = cc
bind-out (err x) f e = cc

or_raise-Proper {ℓ} : {A : Type ℓ} (o : Option A) (r : Reason) → Proper (or_raise o r)
or_raise-Proper none r = λ e. cc
or_raise-Proper (some a) r = λ e. cc

name_has_underscore : has_char b'_' (text "NETWORK_MODE") ≡ true
unfolding text has_char
name_has_underscore = refl

module _ (env : Env) (host : Host) (vm_name : Text) where
  collect_nics-out :
      (fuel i : ℕ)
      → collect_nics env host vm_name (suc fuel) i ≡ err Error.out_of_fuel
      → (nic : NicConfig) × (build_nic env i host vm_name ≡ ok (some nic))
        × (collect_nics env host vm_name fuel (i + 1) ≡ err Error.out_of_fuel)
  unfolding collect_nics
  collect_nics-out fuel i e = elim (Result-cases (build_nic env i host vm_name)) [
    | inl (none, r) ↦ absurd (ground (arith, r))
    | inl (some nic, r) ↦ (
      nic,
      r,
      bind-out (collect_nics env host vm_name fuel (i + 1)) (λ rest. nic ∷ rest)
          (ground (arith, r)),
    )
    | inr (x, r) ↦ absurd (build_nic-Proper env i host vm_name (ground (arith, r)))
  ]

  -- Out of fuel means that every round found a variable.
  collect_nics-present :
      (fuel i j : ℕ)
      → 2 ≤ i
      → i ≤ j
      → j < i + fuel
      → collect_nics env host vm_name fuel i ≡ err Error.out_of_fuel
      → contains (keys env) (indexed_name (text "NETWORK_MODE") j) ≡ true
  collect_nics-present zero i j h p q e = absurd (omega arith)
  collect_nics-present (suc fuel) i j h p q e =
      let (nic, found, out) = collect_nics-out fuel i e in
      elim (Bool-cases (i == j)) [
        | inl same ↦
            subst (λ k. contains (keys env) (indexed_name (text "NETWORK_MODE") k) ≡ true)
              ((nat_beq_iff i j).0 same)
              (build_nic-present env i host vm_name nic (omega arith) found)
        | inr other ↦
            collect_nics-present fuel (i + 1) j (omega arith) (ground arith) (omega arith) out
      ]

  -- The rounds that `build_nics` gives the loop are enough: it never runs out of them.
  pub collect_nics-ends : collect_nics env host vm_name (suc (length env)) 2 ≢ err Error.out_of_fuel
  collect_nics-ends e = absurd (
      let all_set =
        indices-le-length (text "NETWORK_MODE") name_has_underscore env (suc (length env)) 2
          (λ j p q. collect_nics-present (suc (length env)) 2 j (omega arith) p q e) in
      omega arith)

  -- Reading the interfaces never runs out of rounds, whatever the environment.
  pub build_nics-ends : build_nics env host vm_name ≢ err Error.out_of_fuel
  unfolding build_nics
  build_nics-ends =
      Proper-bind (build_nic env 1 host vm_name) _ (build_nic-Proper env 1 host vm_name) λ found.
        Proper-bind (or_raise found Reason.no_primary_nic) _
          (or_raise-Proper found Reason.no_primary_nic)
          λ primary.
            Proper-bind (collect_nics env host vm_name (suc (length env)) 2) _ collect_nics-ends
              λ rest. λ e. cc

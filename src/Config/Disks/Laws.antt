-- ===== src/Config/Disks/Laws.antt =====
-- What the extra disks and the block devices of a configuration are.
use mathlib.Core.Path.{subst}
use docker_vm_runner.Base.{
  ℕ, ◌+◌, ◌≤◌, Text, true, false, Option, none, some, List, [], ◌∷◌, All, ◌≡◌, refl, arith, Result,
  ok, >>=-eq-ok, ok-inj, guard, guard-eq-ok, Reason,
}
use docker_vm_runner.Models.{DiskConfig, BlockDevice}
use docker_vm_runner.Host.{FileSystem}
use docker_vm_runner.Utils.Env.{Env}
use docker_vm_runner.Utils.Size.{validate_disk_size, matches_size}
use docker_vm_runner.Config.Disks.{
  and_disk, disks_from, parse_extra_disks, and_device, devices_from, parse_block_devices,
}

validate_disk_size-matches :
    (raw size : Text) → validate_disk_size raw ≡ ok size → matches_size false size ≡ true
unfolding validate_disk_size
validate_disk_size-matches raw size e = ground arith

-- The numbers rise, and none is below the first argument.
abbrev pub AreRising : ℕ → List ℕ → Type 0
AreRising low [] = Unit
AreRising low (n ∷ ns) = (low ≤ n) × AreRising (n + 1) ns

rising_weaken : (low low' : ℕ) (ns : List ℕ) → low' ≤ low → AreRising low ns → AreRising low' ns
rising_weaken low low' [] p h = tt
rising_weaken low low' (n ∷ ns) p (q, h) = (omega arith, h)

abbrev pub disk_indices : List DiskConfig → List ℕ
disk_indices [] = []
disk_indices (d ∷ ds) = d.index ∷ disk_indices ds

-- A size of the right form, and the controller of the configuration.
abbrev pub IsDisk : Text → DiskConfig → Type 0
IsDisk controller d = (matches_size false d.size ≡ true) × (d.controller ≡ controller)

module _ (env : Env) (controller : Text) where
  and_disk_sound :
      (low i : ℕ) (o : Option Text) (others : Result (List DiskConfig)) (ds : List DiskConfig)
      → low ≤ i
      → ((rest : List DiskConfig)
          → others ≡ ok rest
          → All (IsDisk controller) rest × AreRising (i + 1) (disk_indices rest))
      → and_disk env controller o i others ≡ ok ds
      → All (IsDisk controller) ds × AreRising low (disk_indices ds)
  unfolding and_disk
  and_disk_sound low i none others ds p h e =
      let (a, b) = h ds e in (a, rising_weaken (i + 1) low (disk_indices ds) (omega arith) b)
  and_disk_sound low i (some raw) others ds p h e =
      let (size, e1, r1) = >>=-eq-ok (validate_disk_size raw) _ e in
      let (rest, e2, r2) = >>=-eq-ok others _ r1 in
      let (a, b) = h rest e2 in
      subst (λ t. All (IsDisk controller) t × AreRising low (disk_indices t)) (ok-inj r2)
        (((validate_disk_size-matches raw size e1, refl), a), (p, b))

  disks_from_sound :
      (low : ℕ) (indices : List ℕ) (ds : List DiskConfig)
      → AreRising low indices
      → disks_from env controller indices ≡ ok ds
      → All (IsDisk controller) ds × AreRising low (disk_indices ds)
  unfolding disks_from
  disks_from_sound low [] [] h e = (tt, tt)
  disks_from_sound low [] (d ∷ ds) h e = cc
  disks_from_sound low (i ∷ is) ds (p, h) e =
      and_disk_sound low i _ (disks_from env controller is) ds p
        (λ rest q. disks_from_sound (i + 1) is rest h q) e

  -- Every extra disk has a size of the right form and the controller of the configuration, and
  -- the indices of the disks rise from 2.
  pub parse_extra_disks_sound :
      (ds : List DiskConfig)
      → parse_extra_disks env controller ≡ ok ds
      → All (IsDisk controller) ds × AreRising 2 (disk_indices ds)
  unfolding parse_extra_disks
  parse_extra_disks_sound ds e =
      disks_from_sound 2 _ ds
        (omega arith, (omega arith, (omega arith, (omega arith, (omega arith, tt))))) e

module _ (F : FileSystem) (s : F.State) where
  abbrev pub IsBlockDevice : BlockDevice → Type 0
  IsBlockDevice d = (F.exists s d.path ≡ true) × (F.is_block_device s d.path ≡ true)

module _ (F : FileSystem) (s : F.State) (env : Env) where
  and_device_sound :
      (i : ℕ) (o : Option Text) (others : Result (List BlockDevice)) (ds : List BlockDevice)
      → ((rest : List BlockDevice) → others ≡ ok rest → All (IsBlockDevice F s) rest)
      → and_device F s env o i others ≡ ok ds
      → All (IsBlockDevice F s) ds
  unfolding and_device
  and_device_sound i none others ds h e = h ds e
  and_device_sound i (some path) others ds h e =
      let (u, e1, r1) = >>=-eq-ok (guard (F.exists s path) (Reason.path_missing path)) _ e in
      let (v, e2, r2) =
        >>=-eq-ok (guard (F.is_block_device s path) (Reason.wrong_file_type path)) _ r1 in
      let (rest, e3, r3) = >>=-eq-ok others _ r2 in
      subst (All (IsBlockDevice F s)) (ok-inj r3)
        ((guard-eq-ok _ _ e1, guard-eq-ok _ _ e2), h rest e3)

  devices_from_sound :
      (indices : List ℕ) (ds : List BlockDevice)
      → devices_from F s env indices ≡ ok ds
      → All (IsBlockDevice F s) ds
  unfolding devices_from
  devices_from_sound [] [] e = tt
  devices_from_sound [] (d ∷ ds) e = cc
  devices_from_sound (i ∷ is) ds e =
      and_device_sound i _ (devices_from F s env is) ds (λ rest q. devices_from_sound is rest q) e

  -- Every device that the configuration passes through exists and is a block device.
  pub parse_block_devices_sound :
      (ds : List BlockDevice) → parse_block_devices F s env ≡ ok ds → All (IsBlockDevice F s) ds
  unfolding parse_block_devices
  parse_block_devices_sound ds e = devices_from_sound _ ds e

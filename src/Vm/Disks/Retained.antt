-- ===== src/Vm/Disks/Retained.antt =====
-- The disk of a former run stays: nothing is removed, created or copied in its place.
use docker_vm_runner.Base.{
  ℕ, ◌<◌, ltb, leb, arith, Bool-cases, inl, inr, pos, negsuc, List, lt→ltb, Text, true, false, [],
  ◌∷◌, ℤ, int_is, int_le_nat, ◌≡◌, refl, sym, subst, Result, ok, err, if◌then◌else◌,
}
use docker_vm_runner.Models.{VmConfig}
use docker_vm_runner.Utils.Size.{parse_size_to_bytes}
use docker_vm_runner.Effects.{
  Action, exists, unlink, try_except, file_size, run_command, capture, Done, Outside, World, Eff,
  pure, throw, ◌>>=◌, ◌>>◌, and_then, perform, get, modify,
}
use docker_vm_runner.Effects.Keep.{Keeps}
use docker_vm_runner.Effects.Outcomes.{seq_ok}
use docker_vm_runner.Vm.Manager.{Manager, from_result}
use docker_vm_runner.Vm.Disks.{
  has_disk_size, smallest_disk, set_reused, info_command, resize_command, resize_to, expand_by,
  expand_reused, keep_or_remove, ignore_missing_file, look_for_disk, create_disk, settle_work_disk,
}

-- Calls that only ask about an image, or make it larger: `qemu-img resize` directly after an answer
-- of `qemu-img info`, to a size that is more than the size in the answer.
module _ (virtual_size : Text → Result ℕ) (image : Text) (o : Outside) where
  pub data IsGentle : List Action → Type 0 where
    nothing : IsGentle []
    asked : (log : List Action) → IsGentle log → IsGentle (exists image ∷ log)
    measured : (log : List Action) → IsGentle log → IsGentle (file_size image ∷ log)
    described : (log : List Action) → IsGentle log → IsGentle (capture (info_command image) ∷ log)
    grown :
        (size output : Text) (status : ℤ) (current requested : ℕ) (log : List Action)
        → IsGentle log
        → o (capture (info_command image)) log ≡ ok (status, output)
        → virtual_size output ≡ ok current
        → parse_size_to_bytes size ≡ ok (pos requested)
        → current < requested
        → IsGentle (run_command (resize_command image size) ∷ capture (info_command image) ∷ log)

module _ (virtual_size : Text → Result ℕ) (image : Text) where
  Kept : Outside → World Manager → Type 0
  Kept o w = (w.self.disk_reused ≡ true) × IsGentle virtual_size image o w.log

  abbrev described_world : World Manager → World Manager
  described_world w = record w { log = capture (info_command image) ∷ w.log }

  abbrev resize_unless : Text → ℕ → ℤ → Eff Manager Done
  resize_unless size current requested =
      if int_le_nat requested current
      then pure tt
      else perform (run_command (resize_command image size))

  resize_unless-Kept :
      (size output : Text) (status : ℤ) (current : ℕ) (o : Outside) (w : World Manager)
      → Kept o w
      → o (capture (info_command image)) w.log ≡ ok (status, output)
      → virtual_size output ≡ ok current
      → (r : Result ℤ) → parse_size_to_bytes size ≡ r
      → Kept o ((from_result r >>= resize_unless size current) o (described_world w)).1
  unfolding Kept ◌>>=◌ pure throw perform
  resize_unless-Kept size output status current o w (m, h) e v (err x) p = (m, described w.log h)
  resize_unless-Kept size output status current o w (m, h) e v (ok (negsuc n)) p =
      (m, described w.log h)
  resize_unless-Kept size output status current o w (m, h) e v (ok (pos n)) p =
      elim (Bool-cases (leb n current)) [
        | inl less ↦ rw less (m, described w.log h)
        | inr more ↦
            rw more (m, grown size output status current n w.log h e v p (ground (arith, more)))
      ]

  sized-Kept :
      (cfg : VmConfig) (output : Text) (status : ℤ) (o : Outside) (w : World Manager)
      → Kept o w
      → o (capture (info_command image)) w.log ≡ ok (status, output)
      → (r : Result ℕ) → virtual_size output ≡ r
      → Kept o
          ((from_result r >>= λ current. resize_to virtual_size image cfg current) o
            (described_world w)).1
  unfolding Kept ◌>>=◌ throw pure resize_to
  sized-Kept cfg output status o w (m, h) e (err x) v = (m, described w.log h)
  sized-Kept cfg output status o w k e (ok current) v =
      resize_unless-Kept cfg.disk_size output status current o w k e v
        (parse_size_to_bytes cfg.disk_size) refl

  expand_by-Kept :
      (cfg : VmConfig) (o : Outside) (w : World Manager)
      → Kept o w
      → (r : Result (ℤ × Text)) → o (capture (info_command image)) w.log ≡ r
      → Kept o (and_then (expand_by virtual_size image cfg) o (r, described_world w)).1
  unfolding Kept pure
  expand_by-Kept cfg o w (m, h) (err x) e = (m, described w.log h)
  expand_by-Kept cfg o w (m, h) (ok (status, output)) e = elim (Bool-cases (int_is status 0)) [
    | inl zero_status ↦
        rw zero_status (sized-Kept cfg output status o w (m, h) e (virtual_size output) refl)
    | inr other ↦ rw other (m, described w.log h)
  ]

  expand_reused-Kept :
      (cfg : VmConfig) (o : Outside) (w : World Manager)
      → Kept o w
      → Kept o (expand_reused virtual_size image cfg o w).1
  unfolding expand_reused ◌>>=◌ perform pure Kept
  expand_reused-Kept cfg o w (m, h) = elim (Bool-cases (has_disk_size cfg)) [
    | inl sized ↦
        rw sized (expand_by-Kept cfg o w (m, h) (o (capture (info_command image)) w.log) refl)
    | inr unsized ↦ rw unsized (m, h)
  ]

  by_size : VmConfig → ℕ → Eff Manager Done
  by_size cfg size =
      if ltb smallest_disk size
      then (modify (set_reused true) >> expand_reused virtual_size image cfg)
      else try_except (perform (unlink image)) ignore_missing_file

  marked :
      (cfg : VmConfig) (size : ℕ) (o : Outside) (w : World Manager)
      → ltb smallest_disk size ≡ true
      → IsGentle virtual_size image o w.log
      → Kept o (by_size cfg size o w).1
  unfolding by_size ◌>>◌ ◌>>=◌ modify Keeps Kept
  marked cfg size o w large h =
      rw large
        (expand_reused-Kept cfg o (record { self = set_reused true w.self; log = w.log }) (refl, h))

  -- A disk that is large enough is marked, and grows at most.
  keep_large :
      (o : Outside) (w : World Manager) (cfg : VmConfig) (size : ℕ)
      → o (file_size image) w.log ≡ ok size
      → smallest_disk < size
      → IsGentle virtual_size image o w.log
      → Kept o (keep_or_remove virtual_size image cfg o w).1
  unfolding keep_or_remove by_size perform
  keep_large o w cfg size e large h =
      subst (λ r. Kept o r.1) (sym (seq_ok (perform (file_size image)) (by_size cfg) o w size e))
        (marked cfg size o (record w { log = file_size image ∷ w.log })
          (lt→ltb smallest_disk size large) (measured _ h))

  -- With the disk marked, nothing is created.
  no_creation :
      (o : Outside) (r : Result Done × World Manager)
      → Kept o r.1
      → Kept o
          (and_then
            (λ done.
              get >>= λ self. if self.disk_reused then pure tt else create_disk virtual_size self)
            o
            r).1
  unfolding ◌>>=◌ get pure Kept
  no_creation o (ok done, w) (e, h) = rw e (refl, h)
  no_creation o (err x, w) k = k

module _ (virtual_size : Text → Result ℕ) (o : Outside) (w : World Manager) where
  looked :
      w.self.machine.cfg.persist ≡ true
      → o (exists w.self.machine.work_image) w.log ≡ ok true
      → look_for_disk virtual_size o w
        ≡ keep_or_remove virtual_size w.self.machine.work_image w.self.machine.cfg o (record {
          self = set_reused false w.self;
          log = exists w.self.machine.work_image ∷ w.log;
        })
  unfolding look_for_disk ◌>>=◌ ◌>>◌ get modify perform pure
  looked p e = simp (p, e)

  -- Where PERSIST is on and the disk of a former run has more than 100 MiB, settling which disk is
  -- used marks it as reused, and does nothing but ask about it and resize it to a size that is larger
  -- than what was found.
  pub settle_work_disk-IsGentle :
      (size : ℕ)
      → w.self.machine.cfg.persist ≡ true
      → o (exists w.self.machine.work_image) w.log ≡ ok true
      → o (file_size w.self.machine.work_image) (exists w.self.machine.work_image ∷ w.log) ≡ ok size
      → smallest_disk < size
      → w.log ≡ []
      → ((settle_work_disk virtual_size o w).1.self.disk_reused ≡ true)
        × IsGentle virtual_size w.self.machine.work_image o
            (settle_work_disk virtual_size o w).1.log
  unfolding settle_work_disk ◌>>=◌ ◌>>◌ Kept
  settle_work_disk-IsGentle size p e m large fresh =
      no_creation virtual_size w.self.machine.work_image o (look_for_disk virtual_size o w) (
        subst (λ r. Kept virtual_size w.self.machine.work_image o r.1) (sym (looked p e))
          (keep_large virtual_size w.self.machine.work_image o _ w.self.machine.cfg size m large (
            asked _ (
              subst (λ log. IsGentle virtual_size w.self.machine.work_image o log) (sym fresh)
                nothing))))

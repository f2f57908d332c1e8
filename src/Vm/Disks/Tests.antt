-- ===== src/Vm/Disks/Tests.antt =====
-- The theorem about the disk of a former run at a concrete input.
use docker_vm_runner.Base.{arith, [], ◌≡◌, refl, true, ok}
use docker_vm_runner.Effects.Sample.{calm}
use docker_vm_runner.Effects.{World}
use docker_vm_runner.Vm.Manager.{Manager}
use docker_vm_runner.Vm.Lifecycle.Tests.{running}
use docker_vm_runner.Vm.Disks.{settle_work_disk}
use docker_vm_runner.Vm.Disks.Retained.{IsGentle, settle_work_disk-IsGentle}

abbrev world : World Manager
world = record { self = running; log = [] }

settle_work_disk-IsGentle_example :
    ((settle_work_disk (λ output. ok 5000000000) calm world).1.self.disk_reused ≡ true)
    × IsGentle
        (λ output. ok 5000000000)
        running.machine.work_image
        calm
        (settle_work_disk (λ output. ok 5000000000) calm world).1.log
settle_work_disk-IsGentle_example =
    settle_work_disk-IsGentle (λ output. ok 5000000000) calm world 1000000000 refl refl refl
      (omega arith) refl

-- ===== src/Utils/Size/Resources.antt =====
-- `MEMORY` and `CPUS` given as `max` or `half`.
use docker_vm_runner.Base.{ℕ, ◌+◌, ◌*◌, ◌/◌, ◌≤◌, Text, ◌≡◌, ◌⊎◌, arith, text_eq, ok}
use docker_vm_runner.Utils.Size.{memory, cpus, Capacity, parse_resource_size}

-- The host's available memory in MiB.
abbrev pub mebibytes : Capacity → ℕ
mebibytes h = h.available_memory / (1024 * 1024)

-- `MEMORY=max` or `half`: at least 512 MiB, and above that only what leaves 512 MiB to the host.
pub parse_resource_size-memory :
    (raw : Text) (h : Capacity) (n : ℕ)
    → parse_resource_size raw memory h ≡ ok n
    → (512 ≤ n) × ((n ≡ 512) ⊎ (n + 512 ≤ mebibytes h))
unfolding parse_resource_size
parse_resource_size-memory raw h n e = ground arith

-- `CPUS=max` or `half`: at least one processor and at most those of the host.
pub parse_resource_size-cpus :
    (raw : Text) (h : Capacity) (n : ℕ)
    → 1 ≤ h.cpu_count
    → parse_resource_size raw cpus h ≡ ok n
    → (1 ≤ n) × (n ≤ h.cpu_count)
unfolding parse_resource_size
parse_resource_size-cpus raw h n c e = ground arith

-- ===== src/Vm/Manager.antt =====
-- app/vm.py: a `VMManager` with its services, its connection to libvirt and its processes.
use docker_vm_runner.Base.{ℕ, Text, Bool, Option, Result, ok, err}
use docker_vm_runner.Effects.{Eff, pure, throw, within}
use docker_vm_runner.Services.{Services}
use docker_vm_runner.Vm.Machine.{Machine}

pub record Manager : Type 0 where
  pub machine : Machine
  pub services : Services
  pub base_image : Text
  pub disk_reused : Bool
  pub conn : Option ℕ
  pub domain : Option ℕ
  pub tpm_process : Option ℕ

abbrev put_services : Services → Manager → Manager
put_services services self = record self { services = services }

-- A method of `self.service_manager`.
unfoldable pub on_services : {A : Type 0} → Eff Services A → Eff Manager A
on_services run = within (λ self. self.services) put_services run

-- A step that only computes.
abbrev pub from_result : {S A : Type 0} → Result A → Eff S A
from_result (ok a) = pure a
from_result (err x) = throw x

-- ===== src/Vm.antt =====
-- app/vm.py: the machine's state, and the modules of its operations.
pub mod Disks
pub mod Domain
pub mod Guest
pub mod Lifecycle
pub mod Machine
pub mod Manager
pub mod Prepare
pub mod Tools
pub mod Wait
pub mod Tests

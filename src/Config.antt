-- ===== src/Config.antt =====
-- app/config.py: `parse_env`, by the blocks of its body.
pub mod Resources
pub mod Choices
pub mod Boot
pub mod Arch
pub mod Indexed
pub mod Nics
pub mod Filesystems
pub mod Ports
pub mod Ipxe
pub mod Disks
pub mod Parse
pub mod Sample
pub mod Tests

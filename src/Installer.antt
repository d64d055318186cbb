-- ===== src/Installer.antt =====
-- The graphical installer of installer/tizenos-installer/src.
pub mod Shell
pub mod Partman
pub mod Target
pub mod Mounts
pub mod Fstab
pub mod Entries
pub mod Users
pub mod Run
pub mod Plan
pub mod Partitions
pub mod Disks
pub mod Summary
pub mod Window
pub mod ThirdParty
pub mod Welcome
pub mod Wizard
pub mod Tests

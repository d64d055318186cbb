-- ===== src/Tools.antt =====
-- The command line programs under package-manager/ and tools/, and the player and the camera of multimedia/.
pub mod Player
pub mod Apt
pub mod Archive
pub mod Benchmark
pub mod Camera
pub mod Databases
pub mod Packages
pub mod Servers
pub mod Iso
pub mod Tests

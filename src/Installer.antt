-- ===== src/Installer.antt =====
-- src/bin/embuer-installer.rs: the program that partitions a disk and installs a deployment on it.
-- The parts are in the order in which `main` uses them, and `Main` composes them.
pub mod Options
pub mod Disk
pub mod Refind
pub mod Kernel
pub mod Package
pub mod Changelog
pub mod Manual
pub mod Main
pub mod Supported
pub mod Layout
pub mod Checked
pub mod Search

-- ===== src/Services.antt =====
-- cmd-drivers/services: scanning for devices, formatting raw disks, mounting and unmounting.
pub mod Paths
pub mod Interfaces
pub mod Scanner
pub mod Initializer
pub mod Mounter

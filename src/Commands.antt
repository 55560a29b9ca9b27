-- ===== src/Commands.antt =====
-- The three commands: webhook/cmd, node-scanner/cmd and provisioner/cmd. Each returns its exit status
-- and the world that it leaves.
pub mod Serve
pub mod Watch
pub mod Control

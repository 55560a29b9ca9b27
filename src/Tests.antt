-- ===== src/Tests.antt =====
-- Runs of the definitions on small inputs, and each theorem at a concrete input.
pub mod Samples
mod Fsutils
mod Providers
mod Services
mod NodeScanner
mod Cluster
mod Certs
mod Trust
mod Decode
mod Delivery
mod Commands
mod Loopdev

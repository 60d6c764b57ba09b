-- ===== src/Config.antt =====
-- The configuration of a transaction processor: where its files are, and which setting wins.
pub mod Paths
pub mod Xo
pub mod Chosen
mod Examples

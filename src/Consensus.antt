-- ===== src/Consensus.antt =====
-- The consensus engine's side of the SDK: sawtooth_sdk/consensus.
pub mod Service
pub mod Verdicts
pub mod Driver
pub mod Meanings
pub mod Updates
pub mod Startup
mod Examples

-- ===== src/Xo.antt =====
-- The transaction family `xo`: examples/xo_python/sawtooth_xo/processor.
pub mod Payload
pub mod Board
pub mod Game
pub mod State
pub mod Handler
pub mod Rules
pub mod Good
pub mod Stored
pub mod Methods
pub mod Tables
pub mod Writes
pub mod Updates
pub mod Ledger
pub mod Requests
pub mod History
mod Examples

-- ===== src/Client.antt =====
-- The clients of the examples: a transaction in a batch, posted to the REST API.
pub mod Rest
pub mod Posted
pub mod Waits
pub mod Xo
pub mod Intkey
pub mod Understood
pub mod Commands
pub mod Shown
mod Examples

-- ===== src/Batch.antt =====
-- Transactions and batches, as the command-line clients of the examples build, sign and send them.
pub mod Messages
pub mod Signed
pub mod Intkey
pub mod Words
pub mod Random
pub mod Accepted
pub mod Generated
pub mod Populate
pub mod Noop
pub mod Chunks
pub mod Plain
mod Examples
